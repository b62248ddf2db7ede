-- ===== src/TestClient/Services.antt =====
-- `cache_service` of python_plugins/tests/lib/test_client.py, the module's services, and the server's
-- side of them.
use sonic_device_health_prtm.Prelude.{
  ℕ, String, if◌then◌else◌, Option, Bool, is_some, ◌==◌, true, false, ◌||◌, ok, str_eq, none, ltb,
  some, err, List, ◌∷◌, Result, [], ◌>>=◌, PyError, suc, zero,
}
use sonic_device_health_prtm.Prelude.Action.{Action}
use sonic_device_health_prtm.Json.{Fields, Json, field, end, text, index}
use sonic_device_health_prtm.TestClient.Cache.{read_now, CacheData, new_cache, write}
use sonic_device_health_prtm.ClibBind.Messages.{is_text}
use sonic_device_health_prtm.Gvars.{initial_gvars}

-- `gvars.REQ_REGISTER_CLIENT` and the others of the kinds of message
abbrev pub req_register_client : String
req_register_client = "register_client"

abbrev pub req_deregister_client : String
req_deregister_client = "deregister_client"

abbrev pub req_register_action : String
req_register_action = "register_action"

abbrev pub req_heartbeat : String
req_heartbeat = "heartbeat"

abbrev pub req_action_request : String
req_action_request = "action_request"

-- `cache_service`: from the process to the server, and back.
pub record Service : Type 0 where
  pub c2s : CacheData Fields
  pub s2c : CacheData Fields

abbrev pub cache_limit : ℕ
cache_limit = 10

-- `cache_service.__init__`, where `os.pipe` returns the two pairs.
abbrev pub new_service : (ℕ × ℕ) × (ℕ × ℕ) → Service
new_service fds = record {
  c2s = new_cache cache_limit true fds.0;
  s2c = new_cache cache_limit false fds.1;
}

-- `cache_services`, which has `cnt` members.
pub record Services : Type 0 where
  pub cnt : ℕ
  pub svc : ℕ → Service

-- `clib_init` for a proc's configuration of `cnt` entries; `none` is `False`. `fds i` are what
-- `os.pipe` returns for the service `i`.
unfoldable pub clib_init : (ℕ → (ℕ × ℕ) × (ℕ × ℕ)) → ℕ → Option Services
clib_init fds cnt =
    if cnt == 0 || ltb 100 cnt
    then none
    else some (record { cnt = cnt; svc = λ i. new_service (fds i) })

-- `write_to_server` of the service `k`, of which no caller uses the result.
unfoldable pub write_to_server : ℕ → Fields → Services → Services
write_to_server k d s = record s {
  svc = λ i. if i == k then record (s.svc i) { c2s = (write d (s.svc i).c2s).1 } else s.svc i;
}

-- A message of one key, of the kind of a request: what it holds.
unfoldable pub request_body : Fields → Option Json
request_body (field k v end) = if str_eq k req_action_request then some v else none
request_body _ = none

-- `server_write_request`: every service gets the request.
unfoldable pub server_write_request : Fields → Services → Bool × Services
unfolding request_body
server_write_request d s =
    if is_some (request_body d)
    then (true, record s { svc = λ i. record (s.svc i) { s2c = (write d (s.svc i).s2c).1 } })
    else (false, s)

-- The test of `server_read_request` on what it has read.
abbrev pub is_message : Fields → Bool
is_message (field k v end) =
    str_eq k req_register_client
    || str_eq k req_deregister_client
    || str_eq k req_register_action
    || str_eq k req_heartbeat
    || str_eq k req_action_request
is_message _ = false

abbrev pub only_message : Option Fields → Option Fields
only_message none = none
only_message (some d) = if is_message d then some d else none

-- `server_read_request` behind its poll, of the service `k`; `none` is `(False, {})`.
unfoldable pub server_read_from : ℕ → Action Services (Option Fields)
unfolding read_now
server_read_from k s =
    let (r, c) = read_now (s.svc k).c2s in
    (
      elim r [ ok found ↦ ok (only_message found) | err e ↦ err e ],
      record s { svc = λ i. if i == k then record (s.svc i) { c2s = c } else s.svc i },
    )

-- `rd_fds[fd]`: the service among the first `n` whose signals the server reads there.
unfoldable pub service_at : ℕ → ℕ → Services → Option ℕ
service_at zero fd s = none
service_at (suc k) fd s = if (s.svc k).c2s.signal_rd == fd then some k else service_at k fd s

-- `server_read_request`, where its poll has returned `r`.
unfoldable pub server_read_request : List ℕ → Action Services (Option Fields)
unfolding service_at server_read_from
server_read_request [] s = (ok none, s)
server_read_request (fd ∷ more) s = elim (service_at s.cnt fd s) [
  | none ↦ (err (PyError.key_error "rd_fds"), s)
  | some k ↦ server_read_from k s
]

abbrev pub mem_text : String → List String → Bool
mem_text a [] = false
mem_text a (b ∷ bs) = str_eq b a || mem_text a bs

-- `v in th_local.actions` of a loaded value
abbrev pub is_among : List String → Json → Bool
is_among actions (text a) = mem_text a actions
is_among actions other = false

abbrev pub is_known : List String → Json → Bool → Result Bool
is_known actions d true = ok true
is_known actions d false = index initial_gvars.req_action_name d >>= λ a. ok (is_among actions a)

-- The tests of `_read_req` on the value of a request: it is a shutdown, or for one of the actions.
unfoldable pub is_wanted : List String → Json → Result Bool
is_wanted actions d = do
  kind ← index "request_type" d
  is_known actions d (is_text initial_gvars.req_action_type_shutdown kind)
