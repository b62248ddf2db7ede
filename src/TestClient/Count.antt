-- ===== src/TestClient/Count.antt =====
-- The number of services of python_plugins/tests/lib/test_client.py over the calls of the library.
use mathlib.Core.Bool.{true, false}
use sonic_device_health_prtm.Prelude.{
  ℕ, List, ◌≡◌, arith, ◌∷◌, Option, ◌∙◌, [], some, refl, none, ok, Bool, Result, suc, or_else,
  if◌then◌else◌, length, zero, String, inl, ap, inr, subst, sym,
}
use sonic_device_health_prtm.Prelude.Int.{ℤ, pos, negsuc}
use sonic_device_health_prtm.Prelude.Action.{bind-keeps, Action, pure, if-keeps}
use sonic_device_health_prtm.TestClient.Services.{
  server_write_request, Services, write_to_server, mem_text,
}
use sonic_device_health_prtm.TestClient.Reads.{
  post, keep_read, read_req, read_from_server, await, read_unless, keep_request, check_body,
  keep_checked, left, hand_out, hand_request, respond_with, give, clib_read_action_request,
  clib_write_action_response,
}
use sonic_device_health_prtm.TestClient.Polls.{
  poll_select, clib_poll_for_data, look, poll_round, poll_rounds, as_library,
}
use sonic_device_health_prtm.Json.{Fields, JsonModule, Json}
use sonic_device_health_prtm.TestClient.Calls.{
  Client, Select, ThreadLocal, if_registered, TextModule, on_thread, tell, clib_register_client,
  clib_deregister_client, clib_register_action, clib_touch_heartbeat,
}
use sonic_device_health_prtm.TestClient.Registered.{register-AllOrNothing}
use sonic_device_health_prtm.ClibBind.Called.Keeps.{IsLibraryKept}

server_write_request-cnt : (d : Fields) (s : Services) → (server_write_request d s).1.cnt ≡ s.cnt
unfolding server_write_request
server_write_request-cnt d s = ground arith

post-cnt : (ds : List Fields) (s : Services) → (post ds s).cnt ≡ s.cnt
unfolding post
post-cnt [] s = refl
post-cnt (d ∷ ds) s = post-cnt ds (server_write_request d s).1 ∙ server_write_request-cnt d s

module _ (n : ℕ) where
  abbrev pub HasCount : Client → Type 0
  HasCount s = s.services.cnt ≡ n

  await-HasCount :
      (ws : List Select) (timeout : ℤ) (k : ℕ) (s : Client)
      → HasCount s
      → HasCount (await ws timeout k s)
  unfolding await
  await-HasCount [] timeout k s h = h
  await-HasCount (e ∷ es) timeout k s h =
      let s' : Client = record s { services = post e.posted s.services; waits = es } in
      let h' : HasCount s' = post-cnt e.posted s.services ∙ h in
      ground (arith, h, h', await-HasCount es (left timeout) k s' h')

  read_from-HasCount :
      (timeout : ℤ) (k : ℕ) (s : Client) → HasCount s → HasCount (read_from_server timeout k s).1
  unfolding read_from_server
  read_from-HasCount timeout k s h = await-HasCount s.waits timeout k s h

  keep_read-HasCount :
      (t : ThreadLocal) (o : Option Fields) (s : Client) → HasCount s → HasCount (keep_read t o s).1
  unfolding keep_read keep_request check_body keep_checked
  keep_read-HasCount t o s h = ground (arith, h)

  read_req-HasCount :
      (timeout : ℤ) (t : ThreadLocal) (s : Client) → HasCount s → HasCount (read_req timeout t s).1
  unfolding read_req read_unless
  read_req-HasCount timeout t s h = go t.req
    where
      go : (o : Option Fields) → HasCount (read_unless o timeout t s).1
      go (some d) = h
      go none =
          bind-keeps HasCount (read_from_server timeout t.cache_svc) (keep_read t) s
            (read_from-HasCount timeout t.cache_svc s h) (keep_read-HasCount t)

  poll_select-HasCount :
      (ws : List Select) (fds : List ℕ) (timeout : ℤ) (s : Client)
      → HasCount s
      → HasCount (poll_select ws fds timeout s).1
  unfolding poll_select
  poll_select-HasCount [] fds timeout s h = h
  poll_select-HasCount (e ∷ es) fds timeout s h =
      let s' : Client = record s { services = post e.posted s.services; waits = es } in
      let h' : HasCount s' = post-cnt e.posted s.services ∙ h in
      ground (arith, h', poll_select-HasCount es fds (left timeout) s' h')

  on_thread-HasCount :
      {A : Type 0} (u : A) (m : ThreadLocal → Action Client A) (s : Client)
      → HasCount s
      → ((t : ThreadLocal) → HasCount (m t s).1)
      → HasCount (if_registered u m s).1
  on_thread-HasCount u m s h f = go s.thread
    where
      go : (o : Option ThreadLocal) → HasCount (on_thread o u m s).1
      go none = h
      go (some t) = f t

  look-HasCount : (s : Client) → HasCount s → HasCount (look s).1
  unfolding look
  look-HasCount s h =
      on_thread-HasCount false (read_req (pos 0)) s h (λ t. read_req-HasCount (pos 0) t s h)

  -- The state that a poll leaves, where it is not cut off.
  Counted : Option (Result (Option ℤ) × Client) → Type 0
  Counted none = Unit
  Counted (some (r, s)) = HasCount s

  poll_round-Counted :
      (again : Client → Option (Result (Option ℤ) × Client)) (signal : ℕ) (fds : List ℕ)
      (timeout : ℤ) (ws : List Select) (s : Client)
      → HasCount s
      → ((s' : Client) → HasCount s' → Counted (again s'))
      → Counted (poll_round again signal fds timeout ws s)
  unfolding poll_round Counted
  poll_round-Counted again signal fds timeout [] s h more = h
  poll_round-Counted again signal fds timeout (x ∷ es) s h more =
      let polled = (poll_select (x ∷ es) (signal ∷ fds) timeout s).1 in
      let h' = poll_select-HasCount (x ∷ es) (signal ∷ fds) timeout s h in
      let h'' = look-HasCount polled h' in
      ground (arith, h', h'', more polled h', more (look polled).1 h'')

  poll_rounds-Counted :
      (fuel signal : ℕ) (fds : List ℕ) (timeout : ℤ) (s : Client)
      → HasCount s
      → Counted (poll_rounds fuel signal fds timeout s)
  unfolding poll_rounds Counted
  poll_rounds-Counted zero signal fds timeout s h = tt
  poll_rounds-Counted (suc fuel) signal fds timeout s h =
      poll_round-Counted (poll_rounds fuel signal fds timeout) signal fds timeout s.waits s h
        (poll_rounds-Counted fuel signal fds timeout)

  clib_poll-HasCount :
      (fds : List ℕ) (timeout : ℤ) (s : Client)
      → HasCount s
      → HasCount (clib_poll_for_data fds timeout s).1
  unfolding clib_poll_for_data Counted
  clib_poll-HasCount fds timeout s h = on_thread-HasCount none _ s h (λ t.
      found
        (poll_rounds (suc (length s.waits)) (s.services.svc t.cache_svc).s2c.signal_rd fds timeout
          s)
        (poll_rounds-Counted (suc (length s.waits)) (s.services.svc t.cache_svc).s2c.signal_rd fds
          timeout s h))
    where
      found :
          (o : Option (Result (Option ℤ) × Client))
          → Counted o
          → HasCount (or_else o (ok none, s)).1
      found none c = h
      found (some x) c = c

  either-HasCount :
      {A : Type 0} (b : Bool) (x y : A × Client)
      → HasCount x.1
      → HasCount y.1
      → HasCount (if b then x else y).1
  either-HasCount true x y p q = p
  either-HasCount false x y p q = q

  module _ (J : JsonModule) (T : TextModule) where
    respond-HasCount :
        (o : Option Json) (t : ThreadLocal) (s : Client)
        → HasCount s
        → HasCount (respond_with J t o s).1
    unfolding respond_with tell write_to_server
    respond-HasCount none t s h = h
    respond-HasCount (some v) t s h = h

    handed-HasCount :
        (t : ThreadLocal) (o : Option Fields) (s : Client)
        → HasCount s
        → HasCount (hand_request J t o s).1
    unfolding hand_request give
    handed-HasCount t o s h = ground (arith, h)

    hand_out-HasCount : (s : Client) → HasCount s → HasCount (hand_out J s).1
    unfolding hand_out
    hand_out-HasCount s h =
        on_thread-HasCount none (λ t. hand_request J t t.req) s h (λ t. handed-HasCount t t.req s h)

    register-HasCount :
        (name : String) (s : Client) → HasCount s → HasCount (clib_register_client T name s).1
    unfolding write_to_server
    register-HasCount name s h = elim (register-AllOrNothing T name s) [
      | inl (r, (k, p, e, e', x)) ↦ ap (λ y. y.cnt) x ∙ h
      | inr (r, e) ↦ subst HasCount (sym e) h
    ]

    pub HasCount-IsLibraryKept : IsLibraryKept J (as_library J T) HasCount
    unfolding clib_deregister_client clib_register_action clib_touch_heartbeat
        clib_read_action_request clib_write_action_response tell write_to_server
    HasCount-IsLibraryKept = record {
      registers = register-HasCount;
      deregisters = λ n s h. on_thread-HasCount none _ s h (λ t. h);
      registers_action = λ n s h.
          on_thread-HasCount (negsuc 0) _ s h (λ t. either-HasCount (mem_text n t.actions) _ _ h h);
      touches = λ n i s h.
          on_thread-HasCount (negsuc 0) _ s h (λ t. either-HasCount (mem_text n t.actions) _ _ h h);
      reads = λ timeout s h. on_thread-HasCount none _ s h (λ t.
          bind-keeps HasCount (read_req timeout t)
            (λ got. if got then hand_out J else pure (some (J.empty))) s
            (read_req-HasCount timeout t s h)
            (λ got u k.
              if-keeps HasCount got (hand_out J) (pure (some (J.empty))) u
                (λ _. hand_out-HasCount u k) k));
      writes = λ x s h. on_thread-HasCount none _ s h (λ t. respond-HasCount (J.loads x) t s h);
      polls = clib_poll-HasCount;
      gets_error = λ s h. h;
      gets_error_str = λ s h. h;
    }
