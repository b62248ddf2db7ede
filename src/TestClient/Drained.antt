-- ===== src/TestClient/Drained.antt =====
-- The library of python_plugins/tests/lib/test_client.py as the queue that `handle_server_request` of
-- python_plugins/src/plugin_proc.py reads.
use mathlib.Core.Bool.{false, true}
use mathlib.Core.Option.{some-injective}
use sonic_device_health_prtm.Prelude.Action.{◌>>=◌, Action, bind-raises, bind-returns}
use sonic_device_health_prtm.Prelude.{
  Option, ℕ, ok, ◌≡◌, some, Result, ◌-◌, ok_inj, Bool, none, ◌<◌, ◌+◌, arith, sym, err,
  if◌then◌else◌, ◌∙◌, is_some, ap, refl, Result-cases, inl, inr, subst, ◌≢◌,
}
use sonic_device_health_prtm.Prelude.Int.{pos}
use sonic_device_health_prtm.Json.{JsonModule, Fields, Json, item}
use sonic_device_health_prtm.TestClient.Cache.{read_now, take, CacheData}
use sonic_device_health_prtm.TestClient.Reads.{
  read_from_server, check_body, keep_checked, read_unless, keep_read, hand_request, keep_request,
  give, hand_out, clib_read_action_request, read_req,
}
use sonic_device_health_prtm.TestClient.Calls.{ThreadLocal, Client, TextModule, on_thread}
use sonic_device_health_prtm.TestClient.Services.{
  Services, request_body, is_wanted, req_action_request,
}
use sonic_device_health_prtm.TestClient.Kept.{after_req, hand_out-gives}
use sonic_device_health_prtm.TestClient.Ends.{await-now}
use sonic_device_health_prtm.PluginProc.Requests.{Process, handle_server_request}
use sonic_device_health_prtm.PluginProc.Requests.Queue.{QueuedLibrary, handle_server_request_drains}
use sonic_device_health_prtm.TestClient.Polls.{as_library}

-- The messages that wait for the thread, the one that it keeps included.
abbrev pub waiting : Option ThreadLocal → Services → ℕ
waiting none s = 0
waiting (some t) s =
    (s.svc t.cache_svc).s2c.wr_cnt
    - (s.svc t.cache_svc).s2c.rd_cnt
    + (if is_some t.req then 1 else 0)

take-counts :
    {D : Type 0} (c : CacheData D) (d : D)
    → (read_now c).0 ≡ ok (some d)
    → (c.rd_cnt < c.wr_cnt)
      × ((read_now c).1.rd_cnt ≡ c.rd_cnt + 1)
      × ((read_now c).1.wr_cnt ≡ c.wr_cnt)
unfolding read_now take
take-counts c d e = ground (arith, e)

read_from-counts :
    (k : ℕ) (s : Client) (d : Fields)
    → (read_from_server (pos 0) k s).0 ≡ ok (some d)
    → let c = (s.services.svc k).s2c in
      let c' = ((read_from_server (pos 0) k s).1.services.svc k).s2c in
      (c.rd_cnt < c.wr_cnt) × (c'.rd_cnt ≡ c.rd_cnt + 1) × (c'.wr_cnt ≡ c.wr_cnt)
unfolding read_from_server
read_from-counts k s d e =
    ground (arith, take-counts ((s.services.svc k).s2c) d, await-now s.waits k s, e)

module _ (J : JsonModule) where
  -- What the end of a read leaves, where it has handed out a text that is not empty.
  Taken : ThreadLocal → Services → Result (Option (J.Text)) × Client → Type 0
  Taken t x (r, s) =
      (y : J.Text)
      → r ≡ ok (some y)
      → J.is_empty y ≡ false
      → (s.thread ≡ some (record t { req = none })) × (s.services ≡ x)

  not_blank : (y : J.Text) → ok (some (J.empty)) ≡ ok (some y) → J.is_empty y ≢ false
  not_blank y e f =
      let same = some-injective J.empty y (ok_inj e) in
      ground (arith, sym (J.empty_is_empty) ∙ ap (J.is_empty) same ∙ f)

  blank-Taken : (t : ThreadLocal) (s : Client) → Taken t s.services (ok (some (J.empty)), s)
  unfolding Taken
  blank-Taken t s y e f = absurd (not_blank y e f)

  checked-Taken :
      (t : ThreadLocal) (d : Fields) (v : Json) (w : Result Bool) (s : Client)
      → request_body d ≡ some v
      → Taken t s.services ((keep_checked t d w >>= after_req J) s)
  unfolding Taken keep_checked
  checked-Taken t d v (err x) s b = λ y e f. absurd (ground (arith, e))
  checked-Taken t d v (ok false) s b = blank-Taken t s
  checked-Taken t d v (ok true) s b = λ y e f.
      let t' : ThreadLocal = record t { req = some d } in
      let gives = hand_out-gives J t' d v (record s { thread = some t' }) refl refl b in
      (ap (λ z. z.1.thread) gives, ap (λ z. z.1.services) gives)

  body-Taken :
      (t : ThreadLocal) (d : Fields) (b : Option Json) (s : Client)
      → request_body d ≡ b
      → Taken t s.services ((check_body t d b >>= after_req J) s)
  unfolding check_body
  body-Taken t d none s e = blank-Taken t s
  body-Taken t d (some v) s e = checked-Taken t d v (is_wanted t.actions v) s e

  hand_request-Taken :
      (t : ThreadLocal) (d : Fields) (s : Client) → Taken t s.services (hand_request J t (some d) s)
  unfolding Taken hand_request give
  hand_request-Taken t d s = elim (Result-cases (item req_action_request d)) [
    | inl (v, e) ↦ rw e (λ y f g. (refl, refl))
    | inr (x, e) ↦ rw e (λ y f g. absurd (ground (arith, f)))
  ]

  keep_read-Taken :
      (t : ThreadLocal) (found : Option Fields) (s : Client)
      → Taken t s.services ((keep_read t found >>= after_req J) s)
  unfolding keep_read keep_request
  keep_read-Taken t none s = blank-Taken t s
  keep_read-Taken t (some d) s = body-Taken t d (request_body d) s refl

  -- A read that hands out a text that is not empty leaves fewer messages.
  Fewer : Client → Result (Option (J.Text)) × Client → Type 0
  Fewer s (r, s') =
      (y : J.Text)
      → r ≡ ok (some y)
      → J.is_empty y ≡ false
      → waiting s'.thread s'.services < waiting s.thread s.services

  fewer :
      (t : ThreadLocal) (x : Services) (s s' : Client)
      → s.thread ≡ some t
      → s'.thread ≡ some (record t { req = none })
      → s'.services ≡ x
      → waiting (some (record t { req = none })) x < waiting (some t) s.services
      → waiting s'.thread s'.services < waiting s.thread s.services
  fewer t x s s' e e' same p =
      let new =
        ap (λ o. waiting o s'.services) e' ∙ ap (waiting (some (record t { req = none }))) same in
      let old = ap (λ o. waiting o s.services) e in
      subst (λ n. waiting s'.thread s'.services < n) (sym old)
        (subst (λ n. n < waiting (some t) s.services) (sym new) p)

  kept-Fewer :
      (t : ThreadLocal) (d : Fields) (s : Client)
      → s.thread ≡ some t
      → t.req ≡ some d
      → Fewer s (hand_out J s)
  unfolding Fewer Taken hand_out
  kept-Fewer t d s e r y f g =
      let run =
        ap (λ o. on_thread o none (λ t'. hand_request J t' t'.req) s) e
        ∙ ap (λ o. hand_request J t o s) r in
      let (gone, same) = hand_request-Taken t d s y (sym (ap (λ z. z.0) run) ∙ f) g in
      let one : is_some t.req ≡ true = rw r refl in
      fewer t s.services s (hand_out J s).1 e (ap (λ z. z.1.thread) run ∙ gone)
        (ap (λ z. z.1.services) run ∙ same) (ground (arith, one))

  read-Fewer :
      (t : ThreadLocal) (s : Client)
      → s.thread ≡ some t
      → t.req ≡ none
      → Fewer s (((read_from_server (pos 0) t.cache_svc >>= keep_read t) >>= after_req J) s)
  unfolding Fewer Taken keep_read
  read-Fewer t s e r = λ y f g.
      let m = read_from_server (pos 0) t.cache_svc in
      let s' = (m s).1 in
      elim (Result-cases (m s).0) [
        | inr (x, h) ↦
            let bad : (((m >>= keep_read t) >>= after_req J) s).0 ≡ err x =
              ap (λ z. (((λ _. z) >>= after_req J) s).0) (bind-raises m (keep_read t) s x h) in
            absurd (ground (arith, sym bad ∙ f))
        | inl (none, h) ↦
            let run =
              ap (λ z. (((λ _. z) >>= after_req J) s).0) (bind-returns m (keep_read t) s none h) in
            absurd (not_blank y (sym run ∙ f) g)
        | inl (some d, h) ↦
            let run =
              ap (λ z. ((λ _. z) >>= after_req J) s) (bind-returns m (keep_read t) s (some d) h) in
            let (gone, same) = keep_read-Taken t (some d) s' y (sym (ap (λ z. z.0) run) ∙ f) g in
            let nothing : is_some t.req ≡ false = rw r refl in
            fewer t s'.services s (((m >>= keep_read t) >>= after_req J) s).1 e
              (ap (λ z. z.1.thread) run ∙ gone) (ap (λ z. z.1.services) run ∙ same)
              (ground (arith, nothing, read_from-counts t.cache_svc s d h))
      ]

  registered-Fewer :
      (t : ThreadLocal) (o : Option Fields) (s : Client)
      → s.thread ≡ some t
      → t.req ≡ o
      → Fewer s ((read_unless o (pos 0) t >>= after_req J) s)
  unfolding read_unless
  registered-Fewer t (some d) s e r = kept-Fewer t d s e r
  registered-Fewer t none s e r = read-Fewer t s e r

  read-Fewer_all : (s : Client) → Fewer s (clib_read_action_request J (pos 0) s)
  unfolding clib_read_action_request read_req Fewer
  read-Fewer_all s = go s.thread refl
    where
      m : ThreadLocal → Action Client (Option (J.Text))
      m t = read_req (pos 0) t >>= after_req J

      go : (o : Option ThreadLocal) → s.thread ≡ o → Fewer s (on_thread o none m s)
      go none e = λ y f g. absurd (ground (arith, f))
      go (some t) e = registered-Fewer t t.req s e refl

  module _ (T : TextModule) where
    as_queue : QueuedLibrary J (as_library J T)
    unfolding Fewer
    as_queue = record {
      pending = λ s. waiting s.thread s.services;
      read_takes = λ s y f g. read-Fewer_all s y f g;
    }

    -- In the test mode the loop that serves the server's requests ends: given more fuel than messages
    -- wait for the process, it does not use it up but ends by a read without a request or by an
    -- exception, and more fuel changes neither its result nor the state.
    pub test_mode_drains :
        (fuel k now : ℕ) (p : Process J (as_library J T))
        → waiting p.world.ext.thread p.world.ext.services < fuel
        → ((handle_server_request J (as_library J T) fuel now p).0 ≢ ok false)
          × (handle_server_request J (as_library J T) (k + fuel) now p
              ≡ handle_server_request J (as_library J T) fuel now p)
    unfolding as_queue
    test_mode_drains = handle_server_request_drains J (as_library J T) as_queue
