-- ===== src/TestClient/Server.antt =====
-- The server's side of python_plugins/tests/lib/test_client.py, and what the wrappers of
-- python_plugins/src/clib_bind.py exchange with it.
use sonic_device_health_prtm.Prelude.{
  ℕ, List, if◌then◌else◌, arith, ltb, ◌≡◌, ◌∷◌, ok, is_some, Bool-cases, length, inl, ◌++◌, some,
  inr, [], refl, none, true, err, ap, ◌∙◌, String, Result, subst, sym, Result-cases,
}
use sonic_device_health_prtm.Prelude.Int.{ℤ, pos}
use sonic_device_health_prtm.Prelude.Action.{◌>>=◌, pure, Action}
use sonic_device_health_prtm.Json.{Fields, JsonModule, Json, field, end}
use sonic_device_health_prtm.TestClient.Services.{
  server_write_request, write_to_server, server_read_from, Services, request_body, is_wanted,
  req_action_request, only_message,
}
use sonic_device_health_prtm.TestClient.Cache.{CacheData, write}
use sonic_device_health_prtm.TestClient.Calls.{TextModule, tell, Client, ThreadLocal, on_thread}
use sonic_device_health_prtm.ClibBind.Calls.{
  send_response, ClibLibrary, read_action_request, call, after_call, parse_request, World,
  is_success,
}
use sonic_device_health_prtm.TestClient.Cache.Fifo.{
  Contains, write-Contains, write-full, read-Contains, read-empty,
}
use sonic_device_health_prtm.TestClient.Polls.{as_library}
use sonic_device_health_prtm.TestClient.Reads.{
  clib_write_action_response, respond_with, clib_read_action_request,
}
use sonic_device_health_prtm.ClibBind.Messages.{
  response_text, ActionResponse, response_json, new_request,
}
use sonic_device_health_prtm.ClibBind.Load.{validate_dll, is_in}
use sonic_device_health_prtm.TestClient.Delivered.{next_request, answer_checked, answer}
use sonic_device_health_prtm.TestClient.Cache.Invariant.{first, rest}

-- What a service holds for the other side, once a message has been written to it: a full queue drops it.
abbrev pub offered : ℕ → Fields → List Fields → List Fields
offered limit d q = if ltb (length q) limit then q ++ (d ∷ []) else q

write-offered :
    (d : Fields) (c : CacheData Fields) (q : List Fields)
    → Contains c q
    → Contains (write d c).1 (offered c.limit d q)
write-offered d c q v = elim (Bool-cases (ltb (length q) c.limit)) [
  | inl room ↦ rw room (write-Contains d c q v (ground (arith, room))).1
  | inr full ↦ rw (full, write-full d c q v (ground (arith, full))) v
]

-- `server_write_request` of a request offers it to each service, behind what waits there, and leaves
-- what the processes have sent; a message of another kind it refuses and changes nothing.
pub broadcast :
    (d : Fields) (s : Services) (i : ℕ) (q : List Fields)
    → Contains (s.svc i).s2c q
    → let (b, s') = server_write_request d s in
      (b ≡ is_some (request_body d))
      × ((s'.svc i).c2s ≡ (s.svc i).c2s)
      × Contains (s'.svc i).s2c (if b then offered (s.svc i).s2c.limit d q else q)
unfolding server_write_request
broadcast d s i q v = elim (Bool-cases (is_some (request_body d))) [
  | inl body ↦ rw body (refl, refl, write-offered d ((s.svc i).s2c) q v)
  | inr other ↦ rw other (refl, refl, v)
]

-- A message that the process sends stands behind those that wait for the server.
pub write_to_server-Contains :
    (k : ℕ) (d : Fields) (s : Services) (q : List Fields)
    → Contains (s.svc k).c2s q
    → Contains ((write_to_server k d s).svc k).c2s (offered (s.svc k).c2s.limit d q)
unfolding write_to_server
write_to_server-Contains k d s q v = ground (arith, write-offered d ((s.svc k).c2s) q v)

-- `server_read_request` takes the oldest message of the service, and hands it out if it is of one of the
-- five kinds.
pub server_read-Contains :
    (k : ℕ) (s : Services) (q : List Fields)
    → Contains (s.svc k).c2s q
    → let (r, s') = server_read_from k s in
      (r ≡ ok (only_message (first q))) × Contains (s'.svc k).c2s (rest q)
unfolding server_read_from
server_read-Contains k s [] v =
    let (r, v', l) = read-empty ((s.svc k).c2s) v in ground (arith, r, v')
server_read-Contains k s (d ∷ q) v =
    let (r, v', l) = read-Contains d ((s.svc k).c2s) q v in ground (arith, r, v')

pub call-returns :
    {Ext A : Type 0} (symbol : String) (f : Action Ext A) (w : World Ext) (r : Result A) (x : Ext)
    → is_in symbol w.binding.bound ≡ true
    → f w.ext ≡ (r, x)
    → call symbol f w ≡ (r, record w { ext = x })
unfolding call
call-returns symbol f w r x bound h = rw bound (ap (λ y. (y.0, record w { ext = y.1 })) h)

module _ (J : JsonModule) (T : TextModule) where
  abbrev lib : ClibLibrary J
  lib = as_library J T

  write-tells :
      (v : Json) (t : ThreadLocal) (s : Client)
      → s.thread ≡ some t
      → clib_write_action_response J (J.dumps v) s
        ≡ tell (some (pos 0)) (field req_action_request v end) t s
  unfolding clib_write_action_response respond_with
  write-tells v t s e =
      ap (λ o. on_thread o none (λ t'. respond_with J t' (J.loads (J.dumps v))) s) e
      ∙ ap (λ l. respond_with J t l s) (J.loads-dumps v)

  -- For a registered process with the library loaded, the wrapper reports success for a response; the
  -- message with it stands behind those that wait for the server if there was room, and is lost if not;
  -- and the server's next read of that service gives the oldest of them, if it is of a known kind.
  pub response_offered :
      (r : ActionResponse) (w : World Client) (t : ThreadLocal) (q : List Fields)
      → validate_dll w.binding ≡ true
      → is_in "write_action_response" w.binding.bound ≡ true
      → w.ext.thread ≡ some t
      → Contains (w.ext.services.svc t.cache_svc).c2s q
      → let (b, w') = send_response J lib r w in
        let k = t.cache_svc in
        let m = field req_action_request (response_json w.binding.gvars r) end in
        let q' = offered (w.ext.services.svc k).c2s.limit m q in
        (b ≡ ok true)
        × Contains (w'.ext.services.svc k).c2s q'
        × ((server_read_from k w'.ext.services).0 ≡ ok (only_message (first q')))
  unfolding send_response call tell response_text
  response_offered r w t q valid bound e v =
      let j = response_json w.binding.gvars r in
      let k = t.cache_svc in
      let m = field req_action_request j end in
      let q' = offered (w.ext.services.svc k).c2s.limit m q in
      let told = record (w.ext) { services = write_to_server k m w.ext.services } in
      let sent =
        call-returns "write_action_response" (clib_write_action_response J (J.dumps j)) w
          (ok (some (pos 0))) told bound (write-tells j t w.ext e) in
      let run : send_response J lib r w ≡ (ok true, record w { ext = told }) =
        rw valid (ap (λ y. ((λ _. y) >>= λ ret. pure (is_success ret)) w) sent) in
      let after = write_to_server-Contains k m w.ext.services q v in
      subst
        (λ y.
          (y.0 ≡ ok true)
          × Contains (y.1.ext.services.svc k).c2s q'
          × ((server_read_from k y.1.ext.services).0 ≡ ok (only_message (first q'))))
        (sym run) (refl, after, (server_read-Contains k told.services q' after).0)

  -- The wrapper's end on the dump of a value.
  parse-dumped :
      (v : Json) (w : World Client)
      → (parse_request J lib (J.dumps v) w).0
        ≡ elim (new_request J w.binding.gvars (J.dumps v)) [ err x ↦ err x | ok r ↦ ok (some r) ]
  unfolding parse_request
  parse-dumped v w = elim (Result-cases (new_request J w.binding.gvars (J.dumps v))) [
    | inl (r, e) ↦ rw (J.dumps_nonempty v, e) refl
    | inr (x, e) ↦ rw (J.dumps_nonempty v, e) refl
  ]

  posted :
      (v : Json) (s : Services) (k : ℕ)
      → Contains (s.svc k).s2c []
      → Contains
          ((server_write_request (field req_action_request v end) s).1.svc k).s2c
          (field req_action_request v end ∷ [])
  unfolding request_body
  posted v s k empty =
      let m = field req_action_request v end in
      let sent = broadcast m s k [] empty in ground (arith, sent.0, sent.2, empty.start)

  -- For a registered process that keeps no request and whose queue is empty: once the server has written
  -- a request that is a shutdown or is for an action of the process, the wrapper's read, with any
  -- timeout, returns what ActionRequest makes of the dump of that request, or raises what it raises.
  pub request_reaches :
      (timeout : ℤ) (v : Json) (w : World Client) (t : ThreadLocal)
      → validate_dll w.binding ≡ true
      → is_in "read_action_request" w.binding.bound ≡ true
      → w.ext.thread ≡ some t
      → t.req ≡ none
      → is_wanted t.actions v ≡ ok true
      → Contains (w.ext.services.svc t.cache_svc).s2c []
      → let s' = (server_write_request (field req_action_request v end) w.ext.services).1 in
        (read_action_request J lib timeout (record w { ext = record (w.ext) { services = s' } })).0
        ≡ elim (new_request J w.binding.gvars (J.dumps v)) [ err x ↦ err x | ok r ↦ ok (some r) ]
  unfolding read_action_request after_call answer answer_checked
  request_reaches timeout v w t valid bound e r wanted empty =
      let m = field req_action_request v end in
      let s' = (server_write_request m w.ext.services).1 in
      let c : Client = record (w.ext) { services = s' } in
      let w' : World Client = record w { ext = c } in
      let read = next_request J timeout t c m [] e r (posted v w.ext.services t.cache_svc empty) in
      let text = read.0 ∙ ap (answer_checked J v) wanted in
      let after = (clib_read_action_request J timeout c).1 in
      let called =
        call-returns "read_action_request" (clib_read_action_request J timeout) w'
          (ok (some (J.dumps v))) after bound (ap (λ z. (z, after)) text) in
      rw valid (ap (λ y. (after_call J lib y).0) called ∙ parse-dumped v (record w { ext = after }))
