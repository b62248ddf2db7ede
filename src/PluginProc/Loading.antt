-- ===== src/PluginProc/Loading.antt =====
-- `LoMPluginHolder.__init__` and the loading loop of `main_run` in python_plugins/src/plugin_proc.py.
-- What `importlib` makes of a module, and the descriptors that `os.pipe` returns, are parameters.
pub mod Keep
pub mod Valid
pub mod Enabled
use sonic_device_health_prtm.Prelude.{
  ℕ, ◌+◌, String, false, Option, none, some, List, [], ◌∷◌, ◌==◌, if◌then◌else◌, str_eq, Result, ok,
  err, PyError, ◌&&◌, or_else,
}
use sonic_device_health_prtm.Prelude.Action.{Action, pure, raise, gets, lift, ◌>>=◌, ◌>>◌}
use sonic_device_health_prtm.Prelude.Dict.{Dict, insert}
use sonic_device_health_prtm.Json.{Json, Fields, text, obj, truthy, JsonModule, get}
use sonic_device_health_prtm.Holder.Defs.{Holder, Plugin, blank}
use sonic_device_health_prtm.Holder.Methods.{set_pipe, is_valid}
use sonic_device_health_prtm.ClibBind.Calls.{ClibLibrary, register_action, is_true, Client}
use sonic_device_health_prtm.PluginProc.State.{with_world}
use sonic_device_health_prtm.PluginProc.Requests.{Req, Process}
use sonic_device_health_prtm.Common.Paths.{basename}

-- The text without the ending ".py", if it has that.
drop_py : String → Option String
drop_py String.[] = none
drop_py (String.◌∷◌ c s) =
    let rest = drop_py s in
    if str_eq (String.◌∷◌ c s) ".py"
    then some ""
    else elim rest [ none ↦ none | some t ↦ some (String.◌∷◌ c t) ]

unfoldable pub module_name : String → String
unfolding drop_py basename
module_name file =
    let stem : String = elim (drop_py file) [ none ↦ file | some t ↦ t ] in basename stem

-- `d[k] = v` with descriptors as keys.
abbrev pub add_pipe : ℕ → String → List (ℕ × String) → List (ℕ × String)
add_pipe fd name [] = (fd, name) ∷ []
add_pipe fd name ((k, n) ∷ rest) =
    if k == fd then (fd, name) ∷ rest else (k, n) ∷ add_pipe fd name rest

-- How a step of the loading ends: `go_on`, or `return -1`.
pub data Loaded : Type 0 where
  go_on give_up : Loaded

-- Of the environment: the plugin object that `LoMPlugin(config, …)` of a module gives, or what the
-- import or the constructor raises, and the read and write ends of the n-th pipe.
pub record Host : Type 0 where
  pub load_module : String → Json → Result Plugin
  pub os_pipe : ℕ → ℕ × ℕ

module _ (J : JsonModule) (lib : ClibLibrary J) (host : Host) where
  -- The end of the `try` block of `__init__`: the plugin is kept if the server takes the action.
  unfoldable pub register_plugin : String → Plugin → Client J lib (Option Plugin)
  register_plugin name plugin = do
    ret ← register_action J lib name
    pure (if is_true ret then some plugin else none)

  -- The `try` block of `__init__`: the plugin, if it is to be kept.
  unfoldable pub load_plugin : String → String → Json → Client J lib (Option Plugin)
  unfolding module_name register_plugin
  load_plugin name file config = do
    plugin ← lift (host.load_module (module_name file) config)
    if str_eq name plugin.get_name && plugin.valid then register_plugin name plugin else pure none

  -- The `except` clause: the holder stays without a plugin.
  abbrev pub caught : {A : Type 0} → Client J lib (Option A) → Client J lib (Option A)
  caught m w = let (r, w') = m w in elim r [ ok o ↦ (ok o, w') | err _ ↦ (ok none, w') ]

  -- `__init__`. What precedes the `try` block raises for a path or a configuration of another type.
  unfoldable pub new_holder : String → Json → Json → Client J lib (Holder (Req J lib))
  unfolding load_plugin blank
  new_holder name (text file) config = do
    g ← gets (λ w. w.binding.gvars)
    pause ← lift (get g.req_pause config)
    plugin ← caught (load_plugin name file config)
    pure (elim plugin [
      | none ↦ blank pause
      | some p ↦ record (blank pause) { name = name; plugin = some p }
    ])
  new_holder name other config = raise (PyError.attribute_error "endswith")

  -- `set_pipe` of a new pipe, and the entries of both dictionaries. `os.pipe` gives its descriptors.
  unfoldable pub add_holder : String → Holder (Req J lib) → Action (Process J lib) (Unit {0})
  unfolding set_pipe
  add_holder name h p =
      let (fd_r, fd_w) = host.os_pipe p.pipes_made in
      elim (set_pipe fd_r fd_w h) [
        | err e ↦ (err e, record p { pipes_made = p.pipes_made + 1 })
        | ok h' ↦ (
          ok tt,
          record p {
            pipes_made = p.pipes_made + 1;
            holders = insert name h' p.holders;
            pipe_list = add_pipe fd_r name p.pipe_list;
          },
        )
      ]

  load_enabled : String → Json → Json → Action (Process J lib) Loaded
  unfolding new_holder add_holder
  load_enabled name path conf = do
    h ← with_world (new_holder name path conf)
    if is_valid h then add_holder name h >> pure go_on else pure give_up

  -- The body of the loop over `plugins.items()`.
  unfoldable pub load_one : Json → String → Json → Action (Process J lib) Loaded
  unfolding load_enabled
  load_one actions_conf name path = do
    found ← lift (get name actions_conf)
    let conf = or_else found (obj Fields.end)
    disabled ← lift (get "disable" conf)
    if truthy (or_else disabled (Json.bool false)) then pure go_on else load_enabled name path conf

  unfoldable pub load_plugins : Json → Dict Json → Action (Process J lib) Loaded
  unfolding load_one
  load_plugins actions_conf [] = pure go_on
  load_plugins actions_conf ((name, path) ∷ rest) = do
    done ← load_one actions_conf name path
    elim done [ go_on ↦ load_plugins actions_conf rest | give_up ↦ pure give_up ]
