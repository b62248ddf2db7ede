-- ===== src/PluginProc/Requests/Queue.antt =====
-- The loop of `handle_server_request` in python_plugins/src/plugin_proc.py ends: the server's queue is
-- finite, and each round takes one request off it.
use sonic_device_health_prtm.Prelude.{
  subst, ◌+◌, none, some, ok, err, ℕ, suc, zero, ◌<◌, ◌≡◌, ◌≢◌, false, arith, inl, Bool, inr,
  Result, Bool-cases, Option, refl, Result-cases,
}
use sonic_device_health_prtm.Prelude.Int.{pos}
use sonic_device_health_prtm.Prelude.Action.{◌>>◌, pure, Action}
use sonic_device_health_prtm.Json.{JsonModule}
use sonic_device_health_prtm.ClibBind.Calls.{
  ClibLibrary, read_action_request, World, after_call, parse_request, call, last_error,
}
use sonic_device_health_prtm.PluginProc.Requests.{
  dispatch, handle_server_request, Process, Req, after_read,
}

-- What the loop relies on of the library: `pending` requests are queued, and a read of one that does
-- not wait leaves fewer.
pub record QueuedLibrary (J : JsonModule) (lib : ClibLibrary J) : Type 0 where
  pub pending : lib.State → ℕ
  pub read_takes :
      (x : lib.State) (t : J.Text)
      → (lib.read_action_request (pos 0) x).0 ≡ ok (some t)
      → J.is_empty t ≡ false
      → pending (lib.read_action_request (pos 0) x).1 < pending x

module _ (J : JsonModule) (lib : ClibLibrary J) (q : QueuedLibrary J lib) where
  open q use {pending, read_takes}

  -- A dispatch makes no call of the library.
  dispatch-world :
      (now : ℕ) (req : Req J lib) (p : Process J lib) → (dispatch J lib now req p).1.world ≡ p.world
  unfolding dispatch
  dispatch-world now req p = ground arith

  none_only :
      {A B : Type 0} (m : Action (World lib.State) A) (w : World (lib.State)) (b : B)
      → ((m >> pure none) w).0 ≢ ok (some b)
  none_only m w b h = ground arith

  parse_request-keeps :
      (t : J.Text) (w : World (lib.State)) (req : Req J lib)
      → (parse_request J lib t w).0 ≡ ok (some req)
      → (J.is_empty t ≡ false) × ((parse_request J lib t w).1 ≡ w)
  unfolding parse_request
  parse_request-keeps t w req h = elim (Bool-cases (J.is_empty t)) [
    | inl blank ↦ absurd (none_only (last_error J lib) w req (rw blank at h))
    | inr full ↦ ground (arith, full, h)
  ]

  after_call-takes :
      (w : World (lib.State)) (req : Req J lib)
      → (after_call J lib (call "read_action_request" (lib.read_action_request (pos 0)) w)).0
        ≡ ok (some req)
      → pending
          (after_call J lib (call "read_action_request" (lib.read_action_request (pos 0)) w)).1.ext
        < pending w.ext
  unfolding after_call call
  after_call-takes w req h = elim (Result-cases (lib.read_action_request (pos 0) w.ext).0) [
    | inr (x, e) ↦ absurd (ground (arith, e, h))
    | inl (none, e) ↦ absurd (ground (arith, e, h))
    | inl (some t, e) ↦ ground (
      arith,
      read_takes w.ext t e,
      parse_request-keeps t (record w { ext = (lib.read_action_request (pos 0) w.ext).1 }) req,
    )
  ]

  -- A read that hands out a request takes it off the queue.
  read_action_request-takes :
      (w : World (lib.State)) (req : Req J lib)
      → (read_action_request J lib (pos 0) w).0 ≡ ok (some req)
      → pending (read_action_request J lib (pos 0) w).1.ext < pending w.ext
  unfolding read_action_request
  read_action_request-takes w req h = ground (arith, after_call-takes w req)

  after_read-drains :
      (now : ℕ) (rest : Action (Process J lib) Bool) (ret : Result (Option (Req J lib)))
      (p : Process J lib)
      → ((req : Req J lib)
          → ret ≡ ok (some req)
          → (p' : Process J lib) → p'.world ≡ p.world
          → (rest p').0 ≢ ok false)
      → (after_read J lib now rest ret p).0 ≢ ok false
  unfolding after_read
  after_read-drains now rest (err e) p h f = cc
  after_read-drains now rest (ok none) p h f = cc
  after_read-drains now rest (ok (some req)) p h f =
      ground (arith, h req refl (dispatch J lib now req p).1 (dispatch-world now req p))

  after_read-more :
      (now : ℕ) (more rest : Action (Process J lib) Bool) (ret : Result (Option (Req J lib)))
      (p : Process J lib)
      → ((p' : Process J lib) → (rest p').0 ≢ ok false → more p' ≡ rest p')
      → (after_read J lib now rest ret p).0 ≢ ok false
      → after_read J lib now more ret p ≡ after_read J lib now rest ret p
  unfolding after_read
  after_read-more now more rest (err e) p same ends = refl
  after_read-more now more rest (ok none) p same ends = refl
  after_read-more now more rest (ok (some req)) p same ends = go (dispatch J lib now req p) ends
    where
      go :
          (x : Result (Unit {0}) × Process J lib)
          → (((λ _. x) >> rest) p).0 ≢ ok false
          → ((λ _. x) >> more) p ≡ ((λ _. x) >> rest) p
      go (ok u, p') h = same p' h
      go (err e, p') h = refl

  -- A loop that has ended does not end otherwise on more fuel.
  handle_server_request-more :
      (k fuel now : ℕ) (p : Process J lib)
      → (handle_server_request J lib fuel now p).0 ≢ ok false
      → handle_server_request J lib (k + fuel) now p ≡ handle_server_request J lib fuel now p
  unfolding handle_server_request
  handle_server_request-more k zero now p ends = absurd (ends refl)
  handle_server_request-more k (suc fuel) now p ends =
      let (ret, w) = read_action_request J lib (pos 0) p.world in
      let counted : suc (k + fuel) ≡ k + suc fuel = omega arith in
      subst
        (λ n. handle_server_request J lib n now p ≡ handle_server_request J lib (suc fuel) now p)
        counted
        (after_read-more now (handle_server_request J lib (k + fuel) now)
          (handle_server_request J lib fuel now) ret (record p { world = w })
          (handle_server_request-more k fuel now) ends)

  handle_server_request-ends :
      (fuel now : ℕ) (p : Process J lib)
      → pending p.world.ext < fuel
      → (handle_server_request J lib fuel now p).0 ≢ ok false
  unfolding handle_server_request
  handle_server_request-ends zero now p h = absurd (omega arith)
  handle_server_request-ends (suc fuel) now p h =
      let (ret, w) = read_action_request J lib (pos 0) p.world in
      after_read-drains now (handle_server_request J lib fuel now) ret (record p { world = w })
        (λ req e p' same.
          handle_server_request-ends fuel now p'
            (ground (arith, read_action_request-takes p.world req e)))

  -- Where each read that hands out a request takes a message off those that wait, the loop ends: given
  -- more fuel than messages wait, it does not use it up but ends by a read without a request or by an
  -- exception, and more fuel changes neither its result nor the state.
  pub handle_server_request_drains :
      (fuel k now : ℕ) (p : Process J lib)
      → pending p.world.ext < fuel
      → ((handle_server_request J lib fuel now p).0 ≢ ok false)
        × (handle_server_request J lib (k + fuel) now p ≡ handle_server_request J lib fuel now p)
  handle_server_request_drains fuel k now p h =
      let ends = handle_server_request-ends fuel now p h in
      (ends, handle_server_request-more k fuel now p ends)
