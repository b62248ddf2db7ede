-- ===== src/TestClient/Found.antt =====
-- `clib_poll_for_data` of python_plugins/tests/lib/test_client.py and the read that follows it.
use sonic_device_health_prtm.Prelude.{
  Option, ℕ, Result, List, Bool, arith, suc, ◌≡◌, some, ◌∷◌, ok, zero, subst, false, sym, true, [],
  refl, none, err, is_some, or_else, length, ap, ◌∙◌,
}
use sonic_device_health_prtm.Prelude.Int.{ℤ, negsuc, pos}
use sonic_device_health_prtm.Prelude.Action.{◌>>=◌, Action}
use sonic_device_health_prtm.TestClient.Polls.{
  poll_rounds, look, poll_round, poll_select, has_request, clib_poll_for_data,
}
use sonic_device_health_prtm.TestClient.Calls.{ThreadLocal, Client, Select, on_thread}
use sonic_device_health_prtm.TestClient.Kept.{
  IsKept, ReqKept, Got, ThreadKept, Wanted, read_req-Got, read-registered, after_req,
  hand_out-gives,
}
use sonic_device_health_prtm.TestClient.Reads.{
  left, post, read_req, read_unless, clib_read_action_request,
}
use sonic_device_health_prtm.Json.{Fields, JsonModule, Json}
use sonic_device_health_prtm.TestClient.Services.{is_wanted, request_body}

poll_select-thread :
    (ws : List Select) (fds : List ℕ) (timeout : ℤ) (s : Client)
    → (poll_select ws fds timeout s).1.thread ≡ s.thread
unfolding poll_select
poll_select-thread [] fds timeout s = refl
poll_select-thread (e ∷ es) fds timeout s = ground (
  arith,
  poll_select-thread es fds (left timeout)
      (record s { services = post e.posted s.services; waits = es }),
)

pub Got-Kept :
    (t : ThreadLocal) (r : Result Bool) (s : Client)
    → ReqKept t.actions t.req
    → Got t (r, s)
    → IsKept s
Got-Kept t (ok true) s kept (t', d, e, r, same, w) =
    subst ThreadKept (sym e)
      (subst (ReqKept t'.actions) (sym r) (subst (λ a. Wanted a d) (sym same) w))
Got-Kept t (ok false) s kept e = subst ThreadKept (sym e) kept
Got-Kept t (err x) s kept e = subst ThreadKept (sym e) kept

look-Kept : (s : Client) → IsKept s → IsKept (look s).1
unfolding look
look-Kept s kept = go s.thread refl kept
  where
    go :
        (o : Option ThreadLocal)
        → s.thread ≡ o
        → ThreadKept o
        → IsKept (on_thread o false (read_req (pos 0)) s).1
    go none e k = subst ThreadKept (sym e) k
    go (some t) e k =
        Got-Kept t (read_req (pos 0) t s).0 (read_req (pos 0) t s).1 k
          (read_req-Got (pos 0) t s e k)

-- A kept request stays wanted, and where a poll has returned -1 one is kept.
Found : Option (Result (Option ℤ) × Client) → Type 0
Found none = Unit
Found (some (r, s)) = IsKept s × (r ≡ ok (some (negsuc 0)) → has_request s ≡ true)

poll_round-Found :
    (again : Client → Option (Result (Option ℤ) × Client)) (signal : ℕ) (fds : List ℕ) (timeout : ℤ)
    (ws : List Select) (s : Client)
    → IsKept s
    → ((s' : Client) → IsKept s' → Found (again s'))
    → Found (poll_round again signal fds timeout ws s)
unfolding poll_round Found
poll_round-Found again signal fds timeout [] s kept more = (kept, λ e. absurd (ground (arith, e)))
poll_round-Found again signal fds timeout (x ∷ es) s kept more =
    let polled = (poll_select (x ∷ es) (signal ∷ fds) timeout s).1 in
    let kept' : IsKept polled =
      subst ThreadKept (sym (poll_select-thread (x ∷ es) (signal ∷ fds) timeout s)) kept in
    ground (
      arith,
      kept',
      look-Kept polled kept',
      more polled kept',
      more (look polled).1 (look-Kept polled kept'),
    )

poll_rounds-Found :
    (fuel signal : ℕ) (fds : List ℕ) (timeout : ℤ) (s : Client)
    → IsKept s
    → Found (poll_rounds fuel signal fds timeout s)
unfolding poll_rounds Found
poll_rounds-Found zero signal fds timeout s kept = tt
poll_rounds-Found (suc fuel) signal fds timeout s kept =
    poll_round-Found (poll_rounds fuel signal fds timeout) signal fds timeout s.waits s kept
      (poll_rounds-Found fuel signal fds timeout)

pub clib_poll-Found :
    (fds : List ℕ) (timeout : ℤ) (s : Client)
    → IsKept s
    → let (r, s') = clib_poll_for_data fds timeout s in
      IsKept s' × (r ≡ ok (some (negsuc 0)) → has_request s' ≡ true)
unfolding clib_poll_for_data Found
clib_poll-Found fds timeout s kept = go s.thread
  where
    loop : ThreadLocal → Action Client (Option ℤ)
    loop t s' =
        or_else
          (poll_rounds (suc (length s'.waits)) (s'.services.svc t.cache_svc).s2c.signal_rd fds
            timeout s')
          (ok none, s')

    found :
        (o : Option (Result (Option ℤ) × Client)) → Found o → Found (some (or_else o (ok none, s)))
    found none f = (kept, λ e. absurd (ground (arith, e)))
    found (some (r, s')) f = f

    go : (o : Option ThreadLocal) → Found (some (on_thread o none loop s))
    go none = (kept, λ e. absurd (ground (arith, e)))
    go (some t) =
        let signal = (s.services.svc t.cache_svc).s2c.signal_rd in
        let fuel = suc (length s.waits) in
        found (poll_rounds fuel signal fds timeout s)
          (poll_rounds-Found fuel signal fds timeout s kept)

-- A state that keeps a wanted request.
record Keeps (s : Client) : Type 0 where
  thread : ThreadLocal
  message : Fields
  value : Json
  is_thread : s.thread ≡ some thread
  is_req : thread.req ≡ some message
  is_body : request_body message ≡ some value
  is_ok : is_wanted thread.actions value ≡ ok true

has-Keeps : (s : Client) → IsKept s → has_request s ≡ true → Keeps s
has-Keeps s kept has = go s.thread refl kept has
  where
    at :
        (t : ThreadLocal) (o : Option Fields)
        → s.thread ≡ some t
        → t.req ≡ o
        → ReqKept t.actions o
        → is_some o ≡ true
        → Keeps s
    at t none e r k h = absurd (ground (arith, h))
    at t (some d) e r (v, b, w) h = record {
      thread = t;
      message = d;
      value = v;
      is_thread = e;
      is_req = r;
      is_body = b;
      is_ok = w;
    }

    go :
        (o : Option ThreadLocal)
        → s.thread ≡ o
        → ThreadKept o
        → elim o [ none ↦ false | some t ↦ is_some t.req ] ≡ true
        → Keeps s
    go none e k h = absurd (ground (arith, h))
    go (some t) e k h = at t t.req e refl k h

module _ (J : JsonModule) where
  read_kept :
      (wait : ℤ) (t : ThreadLocal) (d : Fields) (v : Json) (s : Client)
      → s.thread ≡ some t
      → t.req ≡ some d
      → request_body d ≡ some v
      → (clib_read_action_request J wait s).0 ≡ ok (some (J.dumps v))
  unfolding read_req read_unless
  read_kept wait t d v s e r b =
      ap (λ y. y.0)
        (read-registered J wait t s e
          ∙ ap (λ o. (read_unless o wait t >>= after_req J) s) r
          ∙ hand_out-gives J t d v s e r b)

  -- Where a poll returns -1, from a state whose kept request, if any, is wanted, the thread is
  -- registered and the next read, with any timeout, hands out the dump of a request that is a shutdown
  -- or is for an action of the thread.
  pub poll_then_read :
      (fds : List ℕ) (timeout wait : ℤ) (s : Client)
      → IsKept s
      → (clib_poll_for_data fds timeout s).0 ≡ ok (some (negsuc 0))
      → let s' = (clib_poll_for_data fds timeout s).1 in
        (t : ThreadLocal) × (v : Json) × (s'.thread ≡ some t)
        × (is_wanted t.actions v ≡ ok true)
        × ((clib_read_action_request J wait s').0 ≡ ok (some (J.dumps v)))
  poll_then_read fds timeout wait s kept h =
      let (k, has) = clib_poll-Found fds timeout s kept in
      let w = has-Keeps (clib_poll_for_data fds timeout s).1 k (has h) in
      (
        w.thread,
        w.value,
        w.is_thread,
        w.is_ok,
        read_kept wait w.thread w.message w.value (clib_poll_for_data fds timeout s).1 w.is_thread
            w.is_req w.is_body,
      )
