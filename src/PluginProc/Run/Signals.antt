-- ===== src/PluginProc/Run/Signals.antt =====
-- What a signal does to the process of python_plugins/src/plugin_proc.py.
use sonic_device_health_prtm.Prelude.{
  refl, ok, true, ◌≡◌, Result, String, List, err, arith, ℕ, Bool, not, ◌∷◌, ◌&&◌, false,
  if◌then◌else◌, [], subst,
}
use sonic_device_health_prtm.Prelude.Action.{◌>>◌, pure, Action, ◌>>=◌, gets}
use sonic_device_health_prtm.Prelude.Int.{pos, ℤ, negsuc}
use sonic_device_health_prtm.Json.{JsonModule}
use sonic_device_health_prtm.ClibBind.Calls.{
  ClibLibrary, register_client, deregister_client, is_true,
}
use sonic_device_health_prtm.PluginProc.Run.{
  serve, start_loop, finish, main_run, Outcome, Session, returned, poll_loop, main_loop, load_all,
}
use sonic_device_health_prtm.PluginProc.Requests.{handle_shutdown, Process, Req}
use sonic_device_health_prtm.PluginProc.Loading.{give_up, go_on, Host, Loaded}
use sonic_device_health_prtm.PluginProc.State.{Turn, with_world}

module _ (J : JsonModule) (lib : ClibLibrary J) where
  -- What holds of the state in which `main_run` returns: a signal has been answered by a shutdown.
  abbrev IsEnded : Result Outcome × Process J lib → Type 0
  IsEnded (ok (returned (pos _)), p) = p.signal_raised ≡ true → p.shutdown_request ≡ true
  IsEnded _ = Unit

  after-IsEnded :
      {A : Type 0} (r : Result A) (p : Process J lib) (k : A → Action (Process J lib) Outcome)
      → ((a : A) → r ≡ ok a → IsEnded (k a p))
      → IsEnded (elim r [ ok a ↦ k a p | err e ↦ (err e, p) ])
  after-IsEnded (ok a) p k h = h a refl
  after-IsEnded (err e) p k h = tt

  >>=-IsEnded :
      {A : Type 0} (m : Action (Process J lib) A) (k : A → Action (Process J lib) Outcome)
      (p : Process J lib)
      → ((a : A) → (m p).0 ≡ ok a → IsEnded (k a (m p).1))
      → IsEnded ((m >>= k) p)
  >>=-IsEnded m k p h = after-IsEnded (m p).0 (m p).1 k h

  handle_shutdown-sets :
      (p : Process J lib) (u : Unit {0})
      → (handle_shutdown J lib p).0 ≡ ok u
      → (handle_shutdown J lib p).1.shutdown_request ≡ true
  unfolding handle_shutdown
  handle_shutdown-sets p u h = ground (arith, h)

  handle_shutdown-IsEnded :
      (p : Process J lib) → IsEnded ((handle_shutdown J lib >> pure (returned (pos 0))) p)
  handle_shutdown-IsEnded p =
      >>=-IsEnded (handle_shutdown J lib) (λ _. pure (returned (pos 0))) p
        (λ u e raised. handle_shutdown-sets p u e)

  unasked-IsEnded :
      (b : Bool) (p : Process J lib)
      → b ≡ (not p.shutdown_request && p.signal_raised)
      → IsEnded (
          (if b then handle_shutdown J lib >> pure (returned (pos 0)) else pure (returned (pos 0)))
            p)
  unasked-IsEnded true p e = handle_shutdown-IsEnded p
  unasked-IsEnded false p e = λ raised. ground (arith, e, raised)

  finish-IsEnded : (proc_name : String) (p : Process J lib) → IsEnded (finish J lib proc_name p)
  unfolding finish
  finish-IsEnded proc_name p =
      >>=-IsEnded (with_world (deregister_client J lib proc_name))
        (λ _. gets (λ q. not q.shutdown_request && q.signal_raised) >>= λ unasked.
          if unasked
          then handle_shutdown J lib >> pure (returned (pos 0))
          else pure (returned (pos 0)))
        p
        (λ u e.
          let q = (with_world (deregister_client J lib proc_name) p).1 in
          unasked-IsEnded (not q.shutdown_request && q.signal_raised) q refl)

  exited-IsEnded :
      (exited : Bool) (proc_name : String) (p : Process J lib)
      → IsEnded ((if exited then finish J lib proc_name else pure Outcome.running) p)
  exited-IsEnded true proc_name p = finish-IsEnded proc_name p
  exited-IsEnded false proc_name p = tt

  serve-IsEnded :
      (proc_name : String) (turns : List (Turn (Req J lib))) (p : Process J lib)
      → IsEnded (serve J lib proc_name turns p)
  unfolding serve
  serve-IsEnded proc_name turns p =
      >>=-IsEnded (poll_loop J lib turns)
        (λ exited. if exited then finish J lib proc_name else pure Outcome.running) p
        (λ exited e. exited-IsEnded exited proc_name (poll_loop J lib turns p).1)

  pipes-IsEnded :
      (pipes : List (ℕ × String)) (r : Result Outcome × Process J lib) (p : Process J lib)
      → IsEnded r
      → IsEnded (elim pipes [ [] ↦ (ok (returned (negsuc 0)), p) | _ ∷ _ ↦ r ])
  pipes-IsEnded [] r p h = tt
  pipes-IsEnded (x ∷ xs) r p h = h

  start_loop-IsEnded :
      (host : Host) (proc_name : String) (s : Session (Req J lib)) (done : Loaded)
      (p : Process J lib)
      → IsEnded (start_loop J lib host proc_name s done p)
  unfolding start_loop
  start_loop-IsEnded host proc_name s give_up p = tt
  start_loop-IsEnded host proc_name s go_on p =
      pipes-IsEnded p.pipe_list (serve J lib proc_name s.turns p) p
        (serve-IsEnded proc_name s.turns p)

  registered-IsEnded :
      (host : Host) (b : Bool) (proc_name : String) (s : Session (Req J lib)) (p : Process J lib)
      → IsEnded (
          (if b
              then load_all J lib host s >>= start_loop J lib host proc_name s
              else pure (returned (negsuc 0)))
            p)
  registered-IsEnded host true proc_name s p =
      >>=-IsEnded (load_all J lib host s) (start_loop J lib host proc_name s) p
        (λ done e. start_loop-IsEnded host proc_name s done (load_all J lib host s p).1)
  registered-IsEnded host false proc_name s p = tt

  main_run-IsEnded :
      (host : Host) (proc_name : String) (s : Session (Req J lib)) (p : Process J lib)
      → IsEnded (main_run J lib host proc_name s p)
  unfolding main_run
  main_run-IsEnded host proc_name s p =
      >>=-IsEnded (with_world (register_client J lib proc_name))
        (λ ret.
          if is_true ret
          then load_all J lib host s >>= start_loop J lib host proc_name s
          else pure (returned (negsuc 0)))
        (record p { holders = []; pipe_list = [] })
        (λ ret e. registered-IsEnded host (is_true ret) proc_name s _)

  main_loop-stopped :
      (host : Host) (proc_name : String) (ss : List (Session (Req J lib))) (p : Process J lib)
      → p.shutdown_request ≡ true
      → main_loop J lib host proc_name ss p ≡ (ok (0, true), p)
  unfolding main_loop
  main_loop-stopped host proc_name [] p h = ground (arith, h)
  main_loop-stopped host proc_name (s ∷ ss) p h = ground (arith, h)

  -- If `main_run` returns after a signal was raised, whichever of the three it was, `main` ends
  -- behind that one call: it does not call `main_run` again, so SIGHUP reloads nothing.
  pub signal_ends_process :
      (host : Host) (proc_name : String) (s : Session (Req J lib)) (ss : List (Session (Req J lib)))
      (p q : Process J lib) (rc : ℤ)
      → p.shutdown_request ≡ false
      → p.sigterm_raised ≡ false
      → main_run J lib host proc_name s p ≡ (ok (returned rc), q)
      → q.signal_raised ≡ true
      → main_loop J lib host proc_name (s ∷ ss) p ≡ (ok (1, true), q)
  unfolding main_loop
  signal_ends_process host proc_name s ss p q (pos n) up calm ran raised =
      let down = subst IsEnded ran (main_run-IsEnded host proc_name s p) raised in
      ground (arith, up, calm, ran, main_loop-stopped host proc_name ss q down)
  signal_ends_process host proc_name s ss p q (negsuc n) up calm ran raised =
      ground (arith, up, calm, ran)
