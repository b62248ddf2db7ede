-- ===== src/TestClient/Kept.antt =====
-- The requests that python_plugins/tests/lib/test_client.py keeps for the process, in `th_local.req`,
-- and hands out: `_read_req` and `clib_read_action_request`.
use mathlib.Core.Bool.{false, true}
use sonic_device_health_prtm.Prelude.{
  Option, List, String, Result, some, Bool, ◌≡◌, ℕ, none, ok, ◌∷◌, err, arith, true, [], refl, inl,
  inr, ◌∙◌, Result-cases, subst, sym, ◌⊎◌, ap, if◌then◌else◌,
}
use sonic_device_health_prtm.Prelude.Int.{ℤ}
use sonic_device_health_prtm.Prelude.Action.{bind-returns, bind-raises, ◌>>=◌, Action, pure}
use sonic_device_health_prtm.TestClient.Reads.{
  keep_request, read_from_server, await, read_req, left, post, read_unless, keep_read, keep_checked,
  check_body, hand_out, clib_read_action_request, hand_request, give,
}
use sonic_device_health_prtm.TestClient.Calls.{ThreadLocal, Client, Select, on_thread}
use sonic_device_health_prtm.Json.{Fields, Json, JsonModule, item, find, field, end}
use sonic_device_health_prtm.TestClient.Services.{request_body, is_wanted, req_action_request}

-- The message is a shutdown, or a request for one of the actions.
abbrev pub Wanted : List String → Fields → Type 0
Wanted actions d = (v : Json) × (request_body d ≡ some v) × (is_wanted actions v ≡ ok true)

abbrev pub ReqKept : List String → Option Fields → Type 0
ReqKept actions none = Unit
ReqKept actions (some d) = Wanted actions d

abbrev pub ThreadKept : Option ThreadLocal → Type 0
ThreadKept none = Unit
ThreadKept (some t) = ReqKept t.actions t.req

-- A request that the thread keeps is wanted by it.
abbrev pub IsKept : Client → Type 0
IsKept s = ThreadKept s.thread

pub await-thread :
    (ws : List Select) (timeout : ℤ) (k : ℕ) (s : Client) → (await ws timeout k s).thread ≡ s.thread
unfolding await
await-thread [] timeout k s = refl
await-thread (e ∷ es) timeout k s = ground (
  arith,
  await-thread es (left timeout) k (record s { services = post e.posted s.services; waits = es }),
)

pub read_from-thread :
    (timeout : ℤ) (k : ℕ) (s : Client) → (read_from_server timeout k s).1.thread ≡ s.thread
unfolding read_from_server
read_from-thread timeout k s = await-thread s.waits timeout k s

-- What the thread has kept, once `_read_req` has returned true.
abbrev pub Got : ThreadLocal → Result Bool × Client → Type 0
Got t (ok true, s) =
    (t' : ThreadLocal) × (d : Fields) × (s.thread ≡ some t')
    × (t'.req ≡ some d)
    × (t'.actions ≡ t.actions)
    × Wanted t.actions d
Got t (ok false, s) = s.thread ≡ some t
Got t (err _, s) = s.thread ≡ some t

keep_checked-Got :
    (t : ThreadLocal) (d : Fields) (v : Json) (w : Result Bool) (s : Client)
    → request_body d ≡ some v
    → is_wanted t.actions v ≡ w
    → s.thread ≡ some t
    → Got t (keep_checked t d w s)
unfolding keep_checked
keep_checked-Got t d v (err x) s b f e = e
keep_checked-Got t d v (ok false) s b f e = e
keep_checked-Got t d v (ok true) s b f e =
    (record t { req = some d }, d, refl, refl, refl, (v, b, f))

check_body-Got :
    (t : ThreadLocal) (d : Fields) (b : Option Json) (s : Client)
    → request_body d ≡ b
    → s.thread ≡ some t
    → Got t (check_body t d b s)
unfolding check_body
check_body-Got t d none s b e = e
check_body-Got t d (some v) s b e = keep_checked-Got t d v (is_wanted t.actions v) s b refl e

keep_read-Got :
    (t : ThreadLocal) (found : Option Fields) (s : Client)
    → s.thread ≡ some t
    → Got t (keep_read t found s)
unfolding keep_read keep_request
keep_read-Got t none s e = e
keep_read-Got t (some d) s e = check_body-Got t d (request_body d) s refl e

read_unless-Got :
    (o : Option Fields) (timeout : ℤ) (t : ThreadLocal) (s : Client)
    → t.req ≡ o
    → s.thread ≡ some t
    → ReqKept t.actions o
    → Got t (read_unless o timeout t s)
unfolding read_unless
read_unless-Got (some d) timeout t s r e kept = (t, d, e, r, refl, kept)
read_unless-Got none timeout t s r e kept =
    let m = read_from_server timeout t.cache_svc in
    let same = read_from-thread timeout t.cache_svc s ∙ e in
    elim (Result-cases (m s).0) [
      | inl (found, f) ↦
          subst (Got t) (sym (bind-returns m (keep_read t) s found f))
            (keep_read-Got t found (m s).1 same)
      | inr (x, f) ↦ subst (Got t) (sym (bind-raises m (keep_read t) s x f)) same
    ]

pub read_req-Got :
    (timeout : ℤ) (t : ThreadLocal) (s : Client)
    → s.thread ≡ some t
    → ReqKept t.actions t.req
    → Got t (read_req timeout t s)
unfolding read_req
read_req-Got timeout t s e kept = read_unless-Got t.req timeout t s refl e kept

request_body-item :
    (d : Fields) (v : Json) → request_body d ≡ some v → item req_action_request d ≡ ok v
unfolding request_body item find
request_body-item (field k w end) v e = ground (arith, e)
request_body-item (field k w (field l x fs)) v e = ground (arith, e)
request_body-item end v e = ground (arith, e)

module _ (J : JsonModule) where
  pub hand_out-gives :
      (t : ThreadLocal) (d : Fields) (v : Json) (s : Client)
      → s.thread ≡ some t
      → t.req ≡ some d
      → request_body d ≡ some v
      → hand_out J s ≡ (ok (some (J.dumps v)), record s { thread = some (record t { req = none }) })
  unfolding hand_out hand_request give
  hand_out-gives t d v s e r b =
      ap (λ o. on_thread o none (λ t'. hand_request J t' t'.req) s) e
      ∙ ap (λ o. hand_request J t o s) r
      ∙ ap (λ i. give J t i s) (request_body-item d v b)

  -- The read of a registered thread, behind `_read_req`.
  abbrev pub after_req : Bool → Action Client (Option (J.Text))
  after_req got = if got then hand_out J else pure (some (J.empty))

  pub read-registered :
      (timeout : ℤ) (t : ThreadLocal) (s : Client)
      → s.thread ≡ some t
      → clib_read_action_request J timeout s ≡ (read_req timeout t >>= after_req) s
  unfolding clib_read_action_request
  read-registered timeout t s e =
      ap (λ o. on_thread o none (λ t'. read_req timeout t' >>= after_req) s) e

  -- The result of a read that has kept a request, if any is kept, as it was wanted.
  Handed : List String → Result (Option (J.Text)) → Type 0
  Handed actions (ok none) = ⊥
  Handed actions (ok (some x)) =
      (x ≡ J.empty) ⊎ ((v : Json) × (x ≡ J.dumps v) × (is_wanted actions v ≡ ok true))
  Handed actions (err _) = Unit

  after_req-Handed :
      (t : ThreadLocal) (r : Result Bool) (s : Client)
      → Got t (r, s)
      → Handed t.actions (((λ _. (r, s)) >>= after_req) s).0
  unfolding Handed
  after_req-Handed t (err x) s got = tt
  after_req-Handed t (ok false) s got = inl refl
  after_req-Handed t (ok true) s (t', d, e, r, same, (v, b, w)) =
      subst (λ y. Handed t.actions y.0) (sym (hand_out-gives t' d v s e r b)) (inr (v, refl, w))

  -- To a registered thread whose kept request, if any, is wanted, a read that returns hands out the
  -- empty text, or the dump of a request that is a shutdown or is for an action of the thread.
  pub read_hands_wanted :
      (timeout : ℤ) (t : ThreadLocal) (s : Client) (o : Option (J.Text))
      → s.thread ≡ some t
      → ReqKept t.actions t.req
      → (clib_read_action_request J timeout s).0 ≡ ok o
      → (o ≡ some (J.empty))
        ⊎ ((v : Json) × (o ≡ some (J.dumps v)) × (is_wanted t.actions v ≡ ok true))
  unfolding Handed
  read_hands_wanted timeout t s o e kept h = named o (subst (Handed t.actions) h handed)
    where
      m : Result Bool × Client
      m = read_req timeout t s

      handed : Handed t.actions (clib_read_action_request J timeout s).0
      handed =
          subst (λ y. Handed t.actions y.0) (sym (read-registered timeout t s e))
            (after_req-Handed t m.0 m.1 (read_req-Got timeout t s e kept))

      named :
          (o' : Option (J.Text))
          → Handed t.actions (ok o')
          → (o' ≡ some (J.empty))
            ⊎ ((v : Json) × (o' ≡ some (J.dumps v)) × (is_wanted t.actions v ≡ ok true))
      named none x' = elim x' [ ]
      named (some x) (inl a) = inl (ap some a)
      named (some x) (inr (v, a, w)) = inr (v, ap some a, w)
