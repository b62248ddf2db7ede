-- ===== src/TestClient/Calls.antt =====
-- The `clib_` functions of python_plugins/tests/lib/test_client.py, as one process thread calls them.
use sonic_device_health_prtm.Prelude.{
  List, ℕ, String, some, if◌then◌else◌, none, Option, ok, ◌∷◌, ◌-◌, ltb, ◌+◌, [], err, PyError,
  ◌++◌,
}
use sonic_device_health_prtm.Prelude.Int.{ℤ, negsuc, pos, leb_ℤ}
use sonic_device_health_prtm.Prelude.Action.{Action, pure}
use sonic_device_health_prtm.TestClient.Services.{
  Services, write_to_server, req_heartbeat, req_deregister_client, req_register_action,
  req_register_client, mem_text,
}
use sonic_device_health_prtm.Json.{Fields, text, field, obj, end}
use sonic_device_health_prtm.Gvars.{initial_gvars}

-- Python's `split` and `int`, of which `clib_register_client` uses two results: the text behind the last
-- `_`, none where there is no `_`, and the number that a text reads as, none where `int` raises.
pub record TextModule : Type 0 where
  pub behind_last : String → Option String
  pub int_of : String → Option ℤ

-- `th_local`, once registered: the index of the service, the name, the actions and the request that was
-- read and not handed out.
pub record ThreadLocal : Type 0 where
  pub cache_svc : ℕ
  pub cl_name : String
  pub actions : List String
  pub req : Option Fields

-- One wait in `select`: what the server has written by its end, and the descriptors that it returns of
-- those that it was asked for.
pub record Select : Type 0 where
  pub posted : List Fields
  pub ready : List ℕ → List ℕ

-- What one process thread sees of the module. `waits` are the waits to come, up to the one behind which `shutdown` is set.
pub record Client : Type 0 where
  pub services : Services
  pub thread : Option ThreadLocal
  pub waits : List Select

-- `cache_services[i]` for `i` below the count: a negative index counts from the end.
abbrev pub python_index : ℕ → ℤ → Option ℕ
python_index cnt (pos n) = some n
python_index cnt (negsuc n) = if ltb n cnt then some (cnt - (n + 1)) else none

-- A message to the server, and `return 0`.
unfoldable pub tell : {A : Type 0} → A → Fields → ThreadLocal → Action Client A
unfolding write_to_server
tell code d t s = (ok code, record s { services = write_to_server t.cache_svc d s.services })

-- The message of a registration.
abbrev pub registration : String → Fields
registration name =
    field req_register_client (obj (field initial_gvars.req_client_name (text name) end)) end

-- The end of `clib_register_client`, behind `cache_services[index]`.
unfoldable pub take_index : String → Option ℕ → Action Client ℤ
unfolding tell
take_index name none s = (err (PyError.raised "IndexError"), s)
take_index name (some k) s =
    let t : ThreadLocal = record { cache_svc = k; cl_name = name; actions = []; req = none } in
    tell (pos 0) (registration name) t (record s { thread = some t })

-- `clib_register_client` behind `int`. The report of an index that is too large names `cnt`, which
-- is not defined.
unfoldable pub take_service : String → Option ℤ → Action Client ℤ
unfolding take_index
take_service name none s = (err PyError.value_error, s)
take_service name (some i) s =
    if leb_ℤ (pos s.services.cnt) i
    then (err (PyError.name_error "cnt"), s)
    else take_index name (python_index s.services.cnt i) s

module _ (T : TextModule) where
  unfoldable pub by_suffix : String → Option String → Action Client ℤ
  unfolding take_service
  by_suffix name none = pure (negsuc 0)
  by_suffix name (some last) = take_service name (T.int_of last)

  unfoldable pub register_on : Option ThreadLocal → String → Action Client ℤ
  unfolding by_suffix
  register_on (some _) name = pure (negsuc 0)
  register_on none name = by_suffix name (T.behind_last name)

  unfoldable pub clib_register_client : String → Action Client ℤ
  unfolding register_on
  clib_register_client name s = register_on s.thread name s

-- `_is_initialized`: what a call does that is made before the registration, and behind it.
abbrev pub on_thread :
    {A : Type 0} → Option ThreadLocal → A → (ThreadLocal → Action Client A) → Action Client A
on_thread none unregistered m s = (ok unregistered, s)
on_thread (some t) unregistered m s = m t s

abbrev pub if_registered : {A : Type 0} → A → (ThreadLocal → Action Client A) → Action Client A
if_registered unregistered m s = on_thread s.thread unregistered m s

-- It returns None.
unfoldable pub clib_deregister_client : String → Action Client (Option ℤ)
unfolding tell
clib_deregister_client name = if_registered none λ t s.
    tell none
      (field req_deregister_client (obj (field initial_gvars.req_client_name (text name) end)) end)
      t (record s { thread = none })

unfoldable pub clib_register_action : String → Action Client ℤ
unfolding tell
clib_register_action name = if_registered (negsuc 0) λ t s.
    if mem_text name t.actions
    then (ok (negsuc 1), s)
    else (tell (pos 0)
        (field req_register_action
          (obj (
            field initial_gvars.req_action_name (text name)
              (field initial_gvars.req_client_name (text t.cl_name) end)))
          end)
        t (record s { thread = some (record t { actions = t.actions ++ (name ∷ []) }) }))

unfoldable pub clib_touch_heartbeat : String → String → Action Client ℤ
unfolding tell
clib_touch_heartbeat action id = if_registered (negsuc 0) λ t s.
    if mem_text action t.actions
    then (tell (pos 0)
        (field req_heartbeat
          (obj (
            field initial_gvars.req_client_name (text t.cl_name) (
              field initial_gvars.req_action_name (text action)
                (field initial_gvars.req_instance_id (text id) end))))
          end)
        t s)
    else (ok (negsuc 0), s)
