-- ===== src/TestClient/Delivered.antt =====
-- What a read of python_plugins/tests/lib/test_client.py hands out of the messages that the
-- server has written.
use mathlib.Core.Bool.{false, true}
use sonic_device_health_prtm.Prelude.Action.{◌>>=◌, bind-returns}
use sonic_device_health_prtm.Prelude.{
  List, Result, ℕ, String, Option, Bool, ok, err, ◌≡◌, some, ◌<◌, none, ◌∷◌, arith, refl, [], ap,
  subst, sym, ◌∙◌,
}
use sonic_device_health_prtm.Prelude.Int.{ℤ}
use sonic_device_health_prtm.TestClient.Reads.{
  read_from_server, await, keep_checked, check_body, clib_read_action_request, with_s2c, read_req,
  read_unless, keep_read, keep_request,
}
use sonic_device_health_prtm.Json.{JsonModule, Json, Fields}
use sonic_device_health_prtm.TestClient.Services.{is_wanted, request_body, Services}
use sonic_device_health_prtm.TestClient.Calls.{Select, ThreadLocal, Client}
use sonic_device_health_prtm.TestClient.Cache.Fifo.{Contains, read-Contains}
use sonic_device_health_prtm.TestClient.Kept.{after_req, hand_out-gives, read-registered}
use sonic_device_health_prtm.TestClient.Cache.{read_now}

await-ready :
    (ws : List Select) (timeout : ℤ) (k : ℕ) (s : Client)
    → (s.services.svc k).s2c.rd_cnt < (s.services.svc k).s2c.wr_cnt
    → await ws timeout k s ≡ s
unfolding await
await-ready [] timeout k s p = refl
await-ready (e ∷ es) timeout k s p = ground (arith, p)

-- A read of the oldest message takes just that.
read_from-Contains :
    (timeout : ℤ) (k : ℕ) (s : Client) (m : Fields) (q : List Fields)
    → Contains ((s.services.svc k).s2c) (m ∷ q)
    → ((read_from_server timeout k s).0 ≡ ok (some m))
      × Contains ((read_from_server timeout k s).1.services.svc k).s2c q
unfolding read_from_server
read_from-Contains timeout k s m q v =
    let (r, v', l) = read-Contains m ((s.services.svc k).s2c) q v in
    let still : await s.waits timeout k s ≡ s =
      await-ready s.waits timeout k s (omega (arith, v.counts)) in
    subst
      (λ s'.
        ((read_now ((s'.services.svc k).s2c)).0 ≡ ok (some m))
        × Contains ((with_s2c k (read_now ((s'.services.svc k).s2c)).1 s'.services).svc k).s2c q)
      (sym still) (r, ground (arith, v'))

module _ (J : JsonModule) where
  -- What a process with these actions is handed for a message.
  unfoldable pub answer_checked : Json → Result Bool → Result (Option (J.Text))
  answer_checked v (err e) = err e
  answer_checked v (ok false) = ok (some (J.empty))
  answer_checked v (ok true) = ok (some (J.dumps v))

  unfoldable pub answer_body : List String → Option Json → Result (Option (J.Text))
  unfolding is_wanted answer_checked
  answer_body actions none = ok (some (J.empty))
  answer_body actions (some v) = answer_checked v (is_wanted actions v)

  unfoldable pub answer : List String → Fields → Result (Option (J.Text))
  unfolding request_body answer_body
  answer actions d = answer_body actions (request_body d)

  -- The outcome of the end of a read, in a state whose services are `x`.
  Answered : Result (Option (J.Text)) → Services → Result (Option (J.Text)) × Client → Type 0
  Answered r x (r', s) = (r' ≡ r) × (s.services ≡ x)

  checked-Answered :
      (t : ThreadLocal) (d : Fields) (v : Json) (w : Result Bool) (s : Client)
      → request_body d ≡ some v
      → Answered (answer_checked v w) (s.services) ((keep_checked t d w >>= after_req J) s)
  unfolding Answered keep_checked answer_checked
  checked-Answered t d v (err e) s b = (refl, refl)
  checked-Answered t d v (ok false) s b = (refl, refl)
  checked-Answered t d v (ok true) s b =
      let t' : ThreadLocal = record t { req = some d } in
      let s' : Client = record s { thread = some t' } in
      let gives = hand_out-gives J t' d v s' refl refl b in
      (ap (λ y. y.0) gives, ap (λ y. y.1.services) gives)

  body-Answered :
      (t : ThreadLocal) (d : Fields) (b : Option Json) (s : Client)
      → request_body d ≡ b
      → Answered (answer_body t.actions b) (s.services) ((check_body t d b >>= after_req J) s)
  unfolding Answered check_body answer_body
  body-Answered t d none s e = (refl, refl)
  body-Answered t d (some v) s e = checked-Answered t d v (is_wanted t.actions v) s e

  -- A registered thread that keeps no request, and before which the server has written `m` and then
  -- `q`, reads with any timeout: it is handed the dump of the request in `m` if that is a shutdown or
  -- for one of its actions, else the empty text, or the read raises what the tests of `m` raise; in each
  -- case just `m` is gone.
  pub next_request :
      (timeout : ℤ) (t : ThreadLocal) (s : Client) (m : Fields) (q : List Fields)
      → s.thread ≡ some t
      → t.req ≡ none
      → Contains ((s.services.svc t.cache_svc).s2c) (m ∷ q)
      → let (r, s') = clib_read_action_request J timeout s in
        (r ≡ answer t.actions m) × Contains (s'.services.svc t.cache_svc).s2c q
  unfolding answer Answered read_req read_unless keep_read keep_request
  next_request timeout t s m q e r v =
      let read = read_from_server timeout t.cache_svc in
      let (found, left_over) = read_from-Contains timeout t.cache_svc s m q v in
      let s' = (read s).1 in
      let kept = bind-returns read (keep_read t) s (some m) found in
      let run =
        read-registered J timeout t s e
        ∙ ap (λ o. (read_unless o timeout t >>= after_req J) s) r
        ∙ ap (λ y. ((λ _. y) >>= after_req J) s) kept in
      let (a, same) = body-Answered t m (request_body m) s' refl in
      (
        ap (λ y. y.0) run ∙ a,
        subst (λ x. Contains (x.svc t.cache_svc).s2c q) (sym (ap (λ y. y.1.services) run ∙ same))
            left_over,
      )
