-- ===== src/ClibBind/Load.antt =====
-- `c_lib_init`, `_update_globals` and `validate_dll` of python_plugins/src/clib_bind.py. A name that
-- is not in the module's scope raises NameError where it is evaluated, so the scope is an argument.
pub mod Scope
use sonic_device_health_prtm.Prelude.{
  Option, none, some, Bool, true, false, String, List, [], ◌∷◌, if◌then◌else◌, str_eq, Result, ok,
  err, PyError, ◌>>=◌, ◌>>◌, or_raise,
}
use sonic_device_health_prtm.Gvars.{Gvars}

-- What `ctypes.CDLL` hands out: the functions that the library exports, and its text globals.
pub record Dll : Type 0 where
  pub exports : String → Bool
  pub global_str : String → Option String

-- The module variables: whether `_clib_dll` is set, which `_clib_…` pointers are, and gvars.
pub record Binding : Type 0 where
  pub dll : Bool
  pub bound : List String
  pub gvars : Gvars

abbrev pub is_in : String → List String → Bool
is_in k [] = false
is_in k (j ∷ js) = if str_eq j k then true else is_in k js

-- Evaluation of a global name.
abbrev pub name : List String → String → Result (Unit {0})
name scope n = if is_in n scope then ok tt else err (PyError.name_error n)

abbrev pub names : List String → List String → Result (Unit {0})
names scope [] = ok tt
names scope (n ∷ ns) = name scope n >> names scope ns

-- A function of the library: its symbol, and the names that its argument and result types mention.
pub record Prototype : Type 0 where
  pub symbol : String
  pub argtypes : List String
  pub restype : String

abbrev pub prototypes : List Prototype
prototypes =
    record { symbol = "get_last_error"; argtypes = []; restype = "c_int" }
    ∷ record { symbol = "get_last_error_str"; argtypes = []; restype = "c_char_p" }
    ∷ record { symbol = "register_client"; argtypes = "c_char_p" ∷ []; restype = "c_int" }
    ∷ record { symbol = "register_action"; argtypes = "c_char_p" ∷ []; restype = "c_int" }
    ∷ record { symbol = "deregister_client"; argtypes = "c_char_p" ∷ []; restype = "c_int" }
    ∷ record {
      symbol = "touch_heartbeat";
      argtypes = "c_char_p" ∷ "c_char_p" ∷ [];
      restype = "c_int";
    }
    ∷ record { symbol = "read_action_request"; argtypes = "c_int" ∷ []; restype = "c_char_p" }
    ∷ record { symbol = "write_action_response"; argtypes = "c_char_p" ∷ []; restype = "c_int" }
    ∷ record {
      symbol = "poll_for_data";
      argtypes = "POINTER" ∷ "c_int" ∷ "c_int" ∷ "c_int" ∷ [];
      restype = "c_int";
    }
    ∷ []

-- The three statements for each function: the pointer is set before the types are evaluated.
unfoldable pub bind_all :
    List String → Dll → List Prototype → List String → Result (Unit {0}) × List String
bind_all scope lib [] bound = (ok tt, bound)
bind_all scope lib (p ∷ ps) bound =
    let rest = bind_all scope lib ps (p.symbol ∷ bound) in
    if lib.exports p.symbol
    then elim (names scope p.argtypes >> name scope p.restype) [
      | ok _ ↦ rest
      | err e ↦ (err e, p.symbol ∷ bound)
    ]
    else (err (PyError.attribute_error p.symbol), bound)

-- `_get_str_clib_globals`
unfoldable pub get_str_clib_globals : List String → Dll → String → Result String
get_str_clib_globals scope lib n = do
  name scope "c_char_p"
  or_raise (lib.global_str n) PyError.value_error

-- `_update_globals`. Nothing reads the names set before a failure, since the binding then fails.
unfoldable pub update_globals : List String → Dll → Gvars → Result Gvars
update_globals scope lib g = do
  let get = get_str_clib_globals scope lib
  a ← get "REQ_ACTION_TYPE"
  b ← get "REQ_ACTION_TYPE_ACTION"
  c ← get "REQ_ACTION_TYPE_SHUTDOWN"
  d ← get "REQ_ACTION_NAME"
  e ← get "REQ_INSTANCE_ID"
  f ← get "REQ_ANOMALY_INSTANCE_ID"
  h ← get "REQ_ANOMALY_KEY"
  i ← get "REQ_CONTEXT"
  j ← get "REQ_TIMEOUT"
  k ← get "REQ_ACTION_DATA"
  l ← get "REQ_RESULT_CODE"
  m ← get "REQ_RESULT_STR"
  ok (record g {
    req_action_type = a;
    req_action_type_action = b;
    req_action_type_shutdown = c;
    req_action_name = d;
    req_instance_id = e;
    req_anomaly_instance_id = f;
    req_anomaly_key = h;
    req_context = i;
    req_timeout = j;
    req_action_data = k;
    req_result_code = l;
    req_result_str = m;
  })

-- The assignments of the test mode.
abbrev pub symbols : List Prototype → List String
symbols [] = []
symbols (p ∷ ps) = p.symbol ∷ symbols ps

-- What the two `try` blocks leave behind: an exception of the second resets `_clib_dll`.
abbrev pub load_production : List String → Dll → Binding → Bool × Binding
load_production scope lib b =
    let (r, bound) = bind_all scope lib prototypes b.bound in
    elim (r >> update_globals scope lib b.gvars) [
      | ok g ↦ (true, record { dll = true; bound = bound; gvars = g })
      | err e ↦ (false, record b { dll = false; bound = bound })
    ]

-- `c_lib_init`. `found` is what `ctypes.CDLL` returns (`none` for OSError), `test_init` what the
-- import of test_client and its `clib_init` give.
unfoldable pub c_lib_init : List String → Option Dll → Result Bool → Binding → Result Bool × Binding
c_lib_init scope found test_init b =
    if b.dll
    then (ok true, b)
    else (if b.gvars.test_run
        then elim test_init [
          | err e ↦ (err e, b)
          | ok up ↦
              if up
              then (ok true, record b { dll = true; bound = symbols prototypes })
              else (ok false, b)
        ]
        else elim found [
          | none ↦ (ok false, b)
          | some lib ↦ (let (done, b') = load_production scope lib b in (ok done, b'))
        ])

-- `validate_dll`
unfoldable pub validate_dll : Binding → Bool
validate_dll b = if b.dll then true else b.gvars.test_run

-- The public names that `from common import *` and the module's own lines define.
abbrev pub clib_bind_names : List String
clib_bind_names =
    "ctypes" ∷ "json" ∷ "os" ∷ "sys" ∷ "syslog" ∷ "time" ∷ "current_thread" ∷ "NamedTuple" ∷ "gvars"
    ∷ "GLOBAL_RC_FILE" ∷ "Enum" ∷ "syspath_append" ∷ "syslog_init" ∷ "ct_log_level"
    ∷ "set_log_level" ∷ "log_error" ∷ "log_info" ∷ "log_warning" ∷ "log_debug"
    ∷ "set_global_rc_file" ∷ "get_global_rc" ∷ "get_config_path" ∷ "get_proc_plugins_conf_file"
    ∷ "get_actions_conf_file" ∷ "get_actions_binding_conf_file" ∷ "get_plugins_data_file"
    ∷ "is_running_config_available" ∷ "get_proc_plugins_conf" ∷ "get_actions_conf"
    ∷ "get_actions_binding_conf" ∷ "get_plugin_data" ∷ "set_test_mode" ∷ "CLIB_DLL_FILE"
    ∷ "c_lib_init" ∷ "validate_dll" ∷ "get_last_error" ∷ "register_client" ∷ "register_action"
    ∷ "deregister_client" ∷ "touch_heartbeat" ∷ "ActionRequest" ∷ "read_action_request"
    ∷ "ActionResponse" ∷ "write_action_response" ∷ "poll_for_data" ∷ []
