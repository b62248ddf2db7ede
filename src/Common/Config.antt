-- ===== src/Common/Config.antt =====
-- The configuration of python_plugins/src/common.py: the global RC file, its cache and the files that
-- it names.
pub mod Cache
pub mod Required
pub mod Available
use sonic_device_health_prtm.Prelude.Action.{Action, ◌>>=◌, ◌>>◌, pure, lift, raise}
use sonic_device_health_prtm.Prelude.{
  List, String, ◌∷◌, if◌then◌else◌, Bool, Result, Option, true, some, [], is_some, err, ok, PyError,
  none, ◌&&◌, starts_with, str_eq, not, false,
}
use sonic_device_health_prtm.Json.{
  find, Fields, Items, Json, end, field, truthy, obj, cons, text, arr, null, nil, item, get_or,
}
use sonic_device_health_prtm.Common.Paths.{path_join}

-- What the calls see of the file system: which paths exist, and `json.load` of a file.
pub record Files : Type 0 where
  pub exists : String → Bool
  pub load : String → Result Json

-- `GLOBAL_RC_FILE` and `_global_rc_data`.
pub record Config : Type 0 where
  pub rc_file : String
  pub rc_data : Fields

-- `set_global_rc_file`
abbrev pub set_global_rc_file : String → Config → Config
set_global_rc_file fl c = record { rc_file = fl; rc_data = end }

abbrev pub required : List String
required =
    "config_running_path" ∷ "config_static_path" ∷ "proc_plugins_conf_name" ∷ "actions_config_name"
    ∷ "actions_binding_config_name" ∷ []

-- `name in d` for each of the names.
unfoldable pub has_all : List String → Fields → Bool
unfolding find
has_all [] d = true
has_all (n ∷ ns) d = is_some (find n d) && has_all ns d

-- The attributes whose names do not start with "_".
unfoldable pub public_of : Fields → Fields
public_of end = end
public_of (field k v fs) =
    let rest = public_of fs in if starts_with k "_" then rest else field k v rest

-- The items of a list as the keys of an object, if all of them can be members of a set.
unfoldable pub names_of : Items → Option Fields
names_of nil = some end
names_of (cons (text s) vs) = elim (names_of vs) [ none ↦ none | some d ↦ some (field s null d) ]
names_of (cons (arr _) vs) = none
names_of (cons (obj _) vs) = none
names_of (cons other vs) = names_of vs

-- What follows the reading of the file: the object to keep, if all required attributes are there.
unfoldable pub checked : Json → Result (Option Fields)
unfolding has_all public_of names_of
checked (obj d) = ok (if has_all required d then some (public_of d) else none)
checked (text _) = ok none
checked (arr vs) = elim (names_of vs) [
  | none ↦ err PyError.type_error
  | some d ↦ if has_all required d then err (PyError.attribute_error "items") else ok none
]
checked other = err PyError.type_error

module _ (fs : Files) where
  -- The RC file, read and checked.
  unfoldable pub load_rc : String → Result (Option Fields)
  unfolding checked
  load_rc fl = elim (fs.load fl) [ err e ↦ err e | ok v ↦ checked v ]

  -- `get_global_rc` behind the test of the cache.
  unfoldable pub read_rc : Action Config Fields
  unfolding load_rc
  read_rc c =
      if fs.exists c.rc_file
      then elim (load_rc c.rc_file) [
        | err e ↦ (err e, c)
        | ok none ↦ (ok end, c)
        | ok (some d) ↦ (ok d, record c { rc_data = d })
      ]
      else (err (PyError.raised "Sorry, global rc file missing; break"), c)

  -- `get_global_rc`
  unfoldable pub get_global_rc : Action Config Fields
  unfolding read_rc
  get_global_rc c = if truthy (obj c.rc_data) then (ok c.rc_data, c) else read_rc c

  -- `os.path.join(_CT_PATH, v)` of a loaded value.
  unfoldable pub join_value : String → Json → Action Config String
  join_value base (text s) = pure (path_join base s)
  join_value base other = raise PyError.type_error

  -- The directory that the attributes name.
  unfoldable pub config_dir : String → Bool → Fields → Action Config String
  unfolding join_value item
  config_dir ct_path static d =
      lift (item (if static then "config_static_path" else "config_running_path") d)
      >>= join_value ct_path

  -- `d[k]` of an object.
  abbrev pub item_of : String → Fields → Action Config Json
  item_of k d = lift (item k d)

  -- `get_config_path`; `ct_path` is the directory of the file.
  unfoldable pub get_config_path : String → Bool → Action Config String
  unfolding get_global_rc config_dir
  get_config_path ct_path static = do
    d ← get_global_rc
    if truthy (obj d) then config_dir ct_path static d else pure ""

  -- The file that the attribute `name` names in the directory, or "" if it does not exist.
  unfoldable pub existing : String → String → Action Config String
  unfolding get_global_rc join_value
  existing name cfg_path = do
    d ← get_global_rc
    v ← item_of name d
    fl ← join_value cfg_path v
    pure (if fs.exists fl then fl else "")

  -- The body of the four functions below, which differ in the attribute.
  unfoldable pub config_file : String → String → Bool → Action Config String
  unfolding get_config_path existing
  config_file name ct_path static = do
    cfg_path ← get_config_path ct_path static
    if str_eq cfg_path "" then pure "" else existing name cfg_path

  abbrev pub get_proc_plugins_conf_file : String → Bool → Action Config String
  get_proc_plugins_conf_file = config_file "proc_plugins_conf_name"

  abbrev pub get_actions_conf_file : String → Bool → Action Config String
  get_actions_conf_file = config_file "actions_config_name"

  abbrev pub get_actions_binding_conf_file : String → Bool → Action Config String
  get_actions_binding_conf_file = config_file "actions_binding_config_name"

  abbrev pub get_plugins_data_file : String → Bool → Action Config String
  get_plugins_data_file = config_file "plugins_data_name"

  -- `fl and rest`, on the text that a call returns.
  abbrev pub and_then : Action Config String → Action Config Bool → Action Config Bool
  and_then m rest = m >>= λ fl. if str_eq fl "" then pure false else rest

  -- `is_running_config_available`
  unfoldable pub is_running_config_available : String → Action Config Bool
  unfolding config_file
  is_running_config_available ct_path = and_then (get_proc_plugins_conf_file ct_path false) (
      and_then (get_actions_conf_file ct_path false)
        (and_then (get_actions_binding_conf_file ct_path false) (pure true)))

  -- `_get_data`
  unfoldable pub get_data : String → Result Json
  get_data fl = if not (str_eq fl "") && fs.exists fl then fs.load fl else ok (obj end)

  -- `d.get(name, {})`, but `d` itself for the empty name.
  abbrev pub part_of : String → Json → Result Json
  part_of name d = if str_eq name "" then ok d else get_or (obj end) name d

  -- `get_proc_plugins_conf`
  unfoldable pub get_proc_plugins_conf : String → String → Action Config Json
  unfolding config_file get_data
  get_proc_plugins_conf ct_path proc_name = do
    fl ← get_proc_plugins_conf_file ct_path false
    d ← lift (get_data fl)
    lift (part_of proc_name d)

  -- `get_actions_conf`
  unfoldable pub get_actions_conf : String → Action Config Json
  unfolding config_file get_data
  get_actions_conf ct_path = get_actions_conf_file ct_path false >>= λ fl. lift (get_data fl)

  -- `get_actions_binding_conf`
  unfoldable pub get_actions_binding_conf : String → String → Action Config Json
  unfolding config_file get_data
  get_actions_binding_conf ct_path action_name = do
    fl ← get_actions_binding_conf_file ct_path false
    d ← lift (get_data fl)
    lift (part_of action_name d)

  -- `get_plugin_data`
  unfoldable pub get_plugin_data : String → String → Action Config Json
  unfolding config_file get_data
  get_plugin_data ct_path action_name = do
    fl ← get_plugins_data_file ct_path false
    d ← lift (get_data fl)
    lift (part_of action_name d)
