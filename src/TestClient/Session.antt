-- ===== src/TestClient/Session.antt =====
-- A process thread that calls the functions of python_plugins/tests/lib/test_client.py in any order.
use mathlib.Core.Bool.{false, true}
use sonic_device_health_prtm.Prelude.{
  String, List, ◌≡◌, ℕ, true, ok, ◌∷◌, ◌++◌, [], arith, Result, Bool, none, returns_by, some, ◌⊎◌,
  false, ap, ok_inj, inl, refl, subst, Option, inr, if◌then◌else◌, sym, err,
}
use sonic_device_health_prtm.Prelude.Int.{ℤ, negsuc}
use sonic_device_health_prtm.Prelude.Action.{◌>>=◌, Action}
use sonic_device_health_prtm.Json.{JsonModule, Json, text, bool, int, arr, index, obj, null, Fields}
use sonic_device_health_prtm.TestClient.Services.{is_wanted, mem_text, is_among, is_known}
use sonic_device_health_prtm.TestClient.Calls.{
  TextModule, Client, clib_register_client, clib_deregister_client, clib_register_action,
  clib_touch_heartbeat, tell, ThreadLocal, if_registered, on_thread,
}
use sonic_device_health_prtm.TestClient.Reads.{
  clib_read_action_request, clib_write_action_response, respond_with, read_req,
}
use sonic_device_health_prtm.TestClient.Polls.{clib_poll_for_data}
use sonic_device_health_prtm.ClibBind.Messages.{is_text}
use sonic_device_health_prtm.Gvars.{initial_gvars}
use sonic_device_health_prtm.TestClient.Kept.{
  ReqKept, IsKept, Got, ThreadKept, after_req, hand_out-gives, read_req-Got, read_hands_wanted,
}
use sonic_device_health_prtm.TestClient.Found.{Got-Kept, clib_poll-Found, poll_then_read}
use sonic_device_health_prtm.TestClient.Registered.{register-AllOrNothing}

-- A call with its arguments.
pub data Use (J : JsonModule) : Type 0 where
  registers : String → Use J
  deregisters : String → Use J
  registers_action : String → Use J
  beats : String → String → Use J
  reads : ℤ → Use J
  responds : J.Text → Use J
  polls : List ℕ → ℤ → Use J

mem_text-append :
    (a : String) (xs ys : List String) → mem_text a xs ≡ true → mem_text a (xs ++ ys) ≡ true
mem_text-append a [] ys e = absurd (ground (arith, e))
mem_text-append a (x ∷ xs) ys e = ground (arith, e, mem_text-append a xs ys)

is_among-append :
    (xs ys : List String) (v : Json) → is_among xs v ≡ true → is_among (xs ++ ys) v ≡ true
is_among-append xs ys (text a) e = mem_text-append a xs ys e
is_among-append xs ys null e = absurd (ground (arith, e))
is_among-append xs ys (bool b) e = absurd (ground (arith, e))
is_among-append xs ys (int n) e = absurd (ground (arith, e))
is_among-append xs ys (arr l) e = absurd (ground (arith, e))
is_among-append xs ys (obj l) e = absurd (ground (arith, e))

is_known-append :
    (xs ys : List String) (v : Json) (b : Bool)
    → is_known xs v b ≡ ok true
    → is_known (xs ++ ys) v b ≡ ok true
is_known-append xs ys v true e = refl
is_known-append xs ys v false e =
    let (a, found, among) =
      returns_by (index initial_gvars.req_action_name v) (λ x. ok (is_among xs x)) true e in
    rw found (ap ok (is_among-append xs ys a (ok_inj among)))

-- What a thread wants, it wants with more actions.
is_wanted-append :
    (xs ys : List String) (v : Json) → is_wanted xs v ≡ ok true → is_wanted (xs ++ ys) v ≡ ok true
unfolding is_wanted
is_wanted-append xs ys v e =
    let shuts = is_text initial_gvars.req_action_type_shutdown in
    let (kind, found, known) =
      returns_by (index "request_type" v) (λ k. is_known xs v (shuts k)) true e in
    rw found (is_known-append xs ys v (shuts kind) known)

module _ (J : JsonModule) (T : TextModule) where
  unfoldable pub use_on : Use J → Client → Client
  use_on (registers name) s = (clib_register_client T name s).1
  use_on (deregisters name) s = (clib_deregister_client name s).1
  use_on (registers_action name) s = (clib_register_action name s).1
  use_on (beats action id) s = (clib_touch_heartbeat action id s).1
  use_on (reads timeout) s = (clib_read_action_request J timeout s).1
  use_on (responds resp) s = (clib_write_action_response J resp s).1
  use_on (polls fds timeout) s = (clib_poll_for_data fds timeout s).1

  -- The calls, the first first.
  on_thread-Kept :
      {A : Type 0} (u : A) (m : ThreadLocal → Action Client A) (s : Client)
      → IsKept s
      → ((t : ThreadLocal) → s.thread ≡ some t → ReqKept t.actions t.req → IsKept (m t s).1)
      → IsKept (if_registered u m s).1
  on_thread-Kept u m s kept f = go s.thread refl kept
    where
      go : (o : Option ThreadLocal) → s.thread ≡ o → ThreadKept o → IsKept (on_thread o u m s).1
      go none e k = subst ThreadKept (sym e) k
      go (some t) e k = f t e k

  ReqKept-append : (xs ys : List String) (o : Option Fields) → ReqKept xs o → ReqKept (xs ++ ys) o
  ReqKept-append xs ys none k = tt
  ReqKept-append xs ys (some d) (v, b, w) = (v, b, is_wanted-append xs ys v w)

  after_req-Kept :
      (t : ThreadLocal) (r : Result Bool) (s : Client)
      → ReqKept t.actions t.req
      → Got t (r, s)
      → IsKept (((λ _. (r, s)) >>= after_req J) s).1
  after_req-Kept t (err x) s k e = Got-Kept t (err x) s k e
  after_req-Kept t (ok false) s k e = Got-Kept t (ok false) s k e
  after_req-Kept t (ok true) s k (t', d, e, r, same, (v, b, w)) =
      subst (λ y. IsKept y.1) (sym (hand_out-gives J t' d v s e r b)) tt

  either-Kept :
      {A : Type 0} (b : Bool) (x y : A × Client)
      → IsKept x.1
      → IsKept y.1
      → IsKept (if b then x else y).1
  either-Kept true x y p q = p
  either-Kept false x y p q = q

  respond_with-Kept :
      (o : Option Json) (t : ThreadLocal) (s : Client) → IsKept s → IsKept (respond_with J t o s).1
  unfolding respond_with tell
  respond_with-Kept none t s kept = kept
  respond_with-Kept (some v) t s kept = kept

  use_on-Kept : (u : Use J) (s : Client) → IsKept s → IsKept (use_on u s)
  unfolding use_on clib_deregister_client clib_register_action clib_touch_heartbeat
      clib_read_action_request clib_write_action_response tell
  use_on-Kept (registers name) s kept = elim (register-AllOrNothing T name s) [
    | inl (r, (k, p, e, e', x)) ↦ subst ThreadKept (sym e') tt
    | inr (r, e) ↦ subst IsKept (sym e) kept
  ]
  use_on-Kept (deregisters name) s kept = on_thread-Kept none _ s kept (λ t e k. tt)
  use_on-Kept (registers_action name) s kept = on_thread-Kept (negsuc 0) _ s kept (λ t e k.
      either-Kept (mem_text name t.actions) _ _ kept (ReqKept-append t.actions (name ∷ []) t.req k))
  use_on-Kept (beats action id) s kept =
      on_thread-Kept (negsuc 0) _ s kept
        (λ t e k. either-Kept (mem_text action t.actions) _ _ kept kept)
  use_on-Kept (reads timeout) s kept =
      on_thread-Kept none (λ t. read_req timeout t >>= after_req J) s kept
        (λ t e k.
          after_req-Kept t (read_req timeout t s).0 (read_req timeout t s).1 k
            (read_req-Got timeout t s e k))
  use_on-Kept (responds resp) s kept =
      on_thread-Kept none _ s kept (λ t e k. respond_with-Kept (J.loads resp) t s kept)
  use_on-Kept (polls fds timeout) s kept = (clib_poll-Found fds timeout s kept).0

  unfoldable pub after : List (Use J) → Client → Client
  unfolding use_on
  after [] s = s
  after (u ∷ us) s = after us (use_on u s)

  after-Kept : (us : List (Use J)) (s : Client) → IsKept s → IsKept (after us s)
  unfolding after
  after-Kept [] s kept = kept
  after-Kept (u ∷ us) s kept = after-Kept us (use_on u s) (use_on-Kept u s kept)

  -- From a thread that has not registered, after any calls of the library in any order and with any
  -- waits: where the thread is registered, a read with any timeout that returns hands out the empty
  -- text, or the dump of a request that is a shutdown or is for an action that the thread has
  -- registered.
  pub session_hands_wanted :
      (us : List (Use J)) (s : Client) (timeout : ℤ) (t : ThreadLocal) (o : Option (J.Text))
      → s.thread ≡ none
      → (after us s).thread ≡ some t
      → (clib_read_action_request J timeout (after us s)).0 ≡ ok o
      → (o ≡ some (J.empty))
        ⊎ ((v : Json) × (o ≡ some (J.dumps v)) × (is_wanted t.actions v ≡ ok true))
  session_hands_wanted us s timeout t o e f h =
      read_hands_wanted J timeout t (after us s) o f
        (subst ThreadKept f (after-Kept us s (subst ThreadKept (sym e) tt))) h

  -- From a thread that has not registered, after any calls of the library in any order and with any
  -- waits: where a poll returns -1, the thread is registered, and the next read, with any timeout, hands
  -- out the dump of a request that is a shutdown or is for an action of the thread.
  pub session_poll_then_read :
      (us : List (Use J)) (s : Client) (fds : List ℕ) (timeout wait : ℤ)
      → s.thread ≡ none
      → (clib_poll_for_data fds timeout (after us s)).0 ≡ ok (some (negsuc 0))
      → let s' = (clib_poll_for_data fds timeout (after us s)).1 in
        (t : ThreadLocal) × (v : Json) × (s'.thread ≡ some t)
        × (is_wanted t.actions v ≡ ok true)
        × ((clib_read_action_request J wait s').0 ≡ ok (some (J.dumps v)))
  session_poll_then_read us s fds timeout wait e h =
      poll_then_read J fds timeout wait (after us s) (after-Kept us s (subst ThreadKept (sym e) tt))
        h
