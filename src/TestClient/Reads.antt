-- ===== src/TestClient/Reads.antt =====
-- Reading a request in python_plugins/tests/lib/test_client.py: `CacheData.read` with its wait, `_read_req`
-- and `clib_read_action_request`.
use sonic_device_health_prtm.Prelude.Int.{ℤ, pos, negsuc}
use sonic_device_health_prtm.Prelude.{
  ℕ, List, Bool, false, ◌-◌, none, Option, ◌∷◌, if◌then◌else◌, ok, [], err, ◌==◌, PyError, ◌||◌,
  true, some, ltb, Result,
}
use sonic_device_health_prtm.Prelude.Action.{Action, ◌>>=◌, pure, raise}
use sonic_device_health_prtm.TestClient.Services.{
  is_wanted, server_write_request, request_body, Services, req_action_request,
}
use sonic_device_health_prtm.TestClient.Cache.{read_now, CacheData}
use sonic_device_health_prtm.Json.{JsonModule, Fields, item, field, end, Json}
use sonic_device_health_prtm.TestClient.Calls.{
  ThreadLocal, Select, tell, Client, if_registered, on_thread,
}
use sonic_device_health_prtm.ClibBind.Calls.{is_zero}

-- The requests that the server writes.
unfoldable pub post : List Fields → Services → Services
unfolding server_write_request
post [] s = s
post (d ∷ ds) s = post ds (server_write_request d s).1

-- `timeout -= t`, where `t` is at most 2 and at most the timeout; a negative one stays.
abbrev pub left : ℤ → ℤ
left (pos n) = pos (n - 2)
left (negsuc n) = negsuc n

abbrev pub mem_num : ℕ → List ℕ → Bool
mem_num a [] = false
mem_num a (b ∷ bs) = b == a || mem_num a bs

abbrev pub with_s2c : ℕ → CacheData Fields → Services → Services
with_s2c k c s = record s { svc = λ i. if i == k then record (s.svc i) { s2c = c } else s.svc i }

-- The wait of `read` at the service `k`; with no wait left, `shutdown` is set.
unfoldable pub await : List Select → ℤ → ℕ → Client → Client
unfolding post
await [] timeout k s = s
await (e ∷ es) timeout k s =
    let c = (s.services.svc k).s2c in
    let s' : Client = record s { services = post e.posted s.services; waits = es } in
    let later = await es (left timeout) k s' in
    if is_zero timeout || ltb c.rd_cnt c.wr_cnt
    then s
    else (if mem_num c.signal_rd (e.ready (c.signal_rd ∷ [])) then s' else later)

-- `read_from_server` of the service `k`
unfoldable pub read_from_server : ℤ → ℕ → Action Client (Option Fields)
unfolding await read_now
read_from_server timeout k s =
    let s' = await s.waits timeout k s in
    let (r, c) = read_now (s'.services.svc k).s2c in
    (r, record s' { services = with_s2c k c s'.services })

-- The end of `_read_req`, behind its tests of the message `d`.
unfoldable pub keep_checked : ThreadLocal → Fields → Result Bool → Action Client Bool
keep_checked t d (err e) s = (err e, s)
keep_checked t d (ok false) s = (ok false, s)
keep_checked t d (ok true) s = (ok true, record s { thread = some (record t { req = some d }) })

unfoldable pub check_body : ThreadLocal → Fields → Option Json → Action Client Bool
unfolding is_wanted keep_checked
check_body t d none = pure false
check_body t d (some v) = keep_checked t d (is_wanted t.actions v)

-- `_read_req` on a message that it has read.
unfoldable pub keep_request : ThreadLocal → Fields → Action Client Bool
unfolding request_body check_body
keep_request t d = check_body t d (request_body d)

-- `_read_req` on the result of its read.
unfoldable pub keep_read : ThreadLocal → Option Fields → Action Client Bool
unfolding keep_request
keep_read t none = pure false
keep_read t (some d) = keep_request t d

-- `_read_req` for a thread that keeps `req`
unfoldable pub read_unless : Option Fields → ℤ → ThreadLocal → Action Client Bool
unfolding read_from_server keep_read
read_unless (some _) timeout t = pure true
read_unless none timeout t = read_from_server timeout t.cache_svc >>= keep_read t

unfoldable pub read_req : ℤ → ThreadLocal → Action Client Bool
unfolding read_unless
read_req timeout t = read_unless t.req timeout t

module _ (J : JsonModule) where
  unfoldable pub give : ThreadLocal → Result Json → Action Client (Option (J.Text))
  give t (err e) s = (err e, s)
  give t (ok v) s = (ok (some (J.dumps v)), record s { thread = some (record t { req = none }) })

  unfoldable pub hand_request : ThreadLocal → Option Fields → Action Client (Option (J.Text))
  unfolding give
  hand_request t none = raise PyError.type_error
  hand_request t (some d) = give t (item req_action_request d)

  -- The end of `clib_read_action_request`: the value of the request that `_read_req` has kept.
  unfoldable pub hand_out : Action Client (Option (J.Text))
  unfolding hand_request
  hand_out s = on_thread s.thread none (λ t. hand_request t t.req) s

  -- `clib_read_action_request`, which returns None before the registration.
  unfoldable pub clib_read_action_request : ℤ → Action Client (Option (J.Text))
  unfolding read_req hand_out
  clib_read_action_request timeout =
      if_registered none
        λ t. read_req timeout t >>= λ got. if got then hand_out else pure (some J.empty)

  -- `clib_write_action_response`, behind `json.loads`, and the whole of it.
  unfoldable pub respond_with : ThreadLocal → Option Json → Action Client (Option ℤ)
  unfolding tell
  respond_with t none = raise PyError.json_decode_error
  respond_with t (some v) = tell (some (pos 0)) (field req_action_request v end) t

  unfoldable pub clib_write_action_response : J.Text → Action Client (Option ℤ)
  unfolding respond_with
  clib_write_action_response resp = if_registered none λ t. respond_with t (J.loads resp)
