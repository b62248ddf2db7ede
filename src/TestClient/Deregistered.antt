-- ===== src/TestClient/Deregistered.antt =====
-- `main_run` of python_plugins/src/plugin_proc.py in the test mode, and the registration of
-- the process that it leaves.
use mathlib.Core.Bool.{true, false}
use sonic_device_health_prtm.Prelude.{
  Result, ◌≡◌, String, List, ok, arith, ap, PyError, ◌∷◌, ◌∙◌, err, subst, [], refl, inl, inr, sym,
  true, none, Bool, Option, if◌then◌else◌, not, ◌&&◌, some, ℕ,
}
use sonic_device_health_prtm.Prelude.Action.{
  Action, ◌>>=◌, bind-cases, pure, ◌>>◌, bind-keeps, gets, if-keeps,
}
use sonic_device_health_prtm.Prelude.Int.{pos, ℤ, negsuc}
use sonic_device_health_prtm.Json.{JsonModule, field, obj, text, end}
use sonic_device_health_prtm.ClibBind.Calls.{
  ClibLibrary, deregister_client, World, register_client, is_true,
}
use sonic_device_health_prtm.PluginProc.State.{Turn, with_world}
use sonic_device_health_prtm.PluginProc.Requests.{handle_shutdown, Process, Req}
use sonic_device_health_prtm.ClibBind.Load.{Binding, validate_dll, is_in}
use sonic_device_health_prtm.PluginProc.Loading.{Host, Loaded, give_up, go_on}
use sonic_device_health_prtm.PluginProc.Run.{
  Session, load_all, poll_loop, start_loop, finish, serve, Outcome, returned, running, main_run,
}
use sonic_device_health_prtm.PluginProc.Run.Whole.{registered_by}
use sonic_device_health_prtm.TestClient.Calls.{
  TextModule, clib_deregister_client, tell, Client, ThreadLocal, on_thread,
}
use sonic_device_health_prtm.TestClient.Polls.{as_library}
use sonic_device_health_prtm.TestClient.Services.{req_deregister_client}
use sonic_device_health_prtm.Gvars.{initial_gvars}
use sonic_device_health_prtm.TestClient.Server.{call-returns}
use sonic_device_health_prtm.PluginProc.Run.OnWorld.{
  load_all-OnWorld, poll_loop-OnWorld, handle_shutdown-world,
}
use sonic_device_health_prtm.ClibBind.Called.{registering, Called-Kept}
use sonic_device_health_prtm.ClibBind.Called.Keeps.{IsBound, IsBound-IsCallKept}

-- What holds of a result behind a call and its continuation.
bind-post :
    {S A B : Type 0} (P : Result B × S → Type 0) (m : Action S A) (k : A → Action S B) (s : S)
    → ((a : A) → (m s).0 ≡ ok a → P (k a (m s).1))
    → ((e : PyError) → P (err e, (m s).1))
    → P ((m >>= k) s)
bind-post P m k s f g = elim (bind-cases m k s) [
  | inl (a, e, run) ↦ subst P (sym run) (f a e)
  | inr (e, run) ↦ subst P (sym run) (g e)
]

module _ (J : JsonModule) (T : TextModule) (host : Host) where
  abbrev lib : ClibLibrary J
  lib = as_library J T

  -- Where a call has returned 0, the thread is not registered.
  Ended : Result Outcome × Process J lib → Type 0
  Ended (r, p) = r ≡ ok (returned (pos 0)) → p.world.ext.thread ≡ none

  clib_deregister-thread :
      (name : String) (s : Client) → (clib_deregister_client name s).1.thread ≡ none
  unfolding clib_deregister_client tell
  clib_deregister-thread name s = go s.thread refl
    where
      m : ThreadLocal → Action Client (Option ℤ)
      m t s' =
          tell none
            (field req_deregister_client (obj (field initial_gvars.req_client_name (text name) end))
              end)
            t (record s' { thread = none })

      go : (o : Option ThreadLocal) → s.thread ≡ o → (on_thread o none m s).1.thread ≡ none
      go none e = e
      go (some t) e = refl

  deregister-thread :
      (b : Binding) (name : String) (w : World Client)
      → validate_dll b ≡ true
      → is_in "deregister_client" b.bound ≡ true
      → w.binding ≡ b
      → (deregister_client J lib name w).1.ext.thread ≡ none
  unfolding deregister_client
  deregister-thread b name w valid bound e =
      let valid' : validate_dll w.binding ≡ true = ap validate_dll e ∙ valid in
      let bound' : is_in "deregister_client" w.binding.bound ≡ true =
        ap (λ c. is_in "deregister_client" c.bound) e ∙ bound in
      let left_by = clib_deregister_client name w.ext in
      let called =
        call-returns "deregister_client" (clib_deregister_client name) w left_by.0 left_by.1 bound'
          refl in
      rw valid' (
        ap (λ y. (((λ _. y) >> pure tt) w).1.ext.thread) called
        ∙ ended left_by.0 left_by.1 (clib_deregister-thread name w.ext))
    where
      ended :
          (r : Result (Option ℤ)) (x : Client)
          → x.thread ≡ none
          → (((λ (_ : World Client). (r, record w { ext = x })) >> pure tt) w).1.ext.thread ≡ none
      ended (ok o) x k = k
      ended (err y) x k = k

  finish-Ended :
      (b : Binding) (name : String) (p : Process J lib)
      → validate_dll b ≡ true
      → is_in "deregister_client" b.bound ≡ true
      → p.world.binding ≡ b
      → Ended (finish J lib name p)
  unfolding finish Ended
  finish-Ended b name p valid bound e = λ _.
      let ends : Action (Process J lib) Outcome = pure (returned (pos 0)) in
      let asks : Action (Process J lib) Outcome = handle_shutdown J lib >> ends in
      let Gone : Process J lib → Type 0 = λ q. q.world.ext.thread ≡ none in
      bind-keeps Gone (with_world (deregister_client J lib name))
        (λ _. gets (λ q. not q.shutdown_request && q.signal_raised) >>= λ unasked.
          if unasked then asks else ends)
        p (deregister-thread b name p.world valid bound e)
        (λ _ q k.
          if-keeps Gone (not q.shutdown_request && q.signal_raised) asks ends q
            (λ _.
              bind-keeps Gone (handle_shutdown J lib) (λ _. ends) q
                (ap (λ w. w.ext.thread) (handle_shutdown-world J lib q) ∙ k) (λ _ _ h. h))
            k)

  serve-Ended :
      (b : Binding) (name : String) (ts : List (Turn (Req J lib))) (p : Process J lib)
      → validate_dll b ≡ true
      → is_in "deregister_client" b.bound ≡ true
      → p.world.binding ≡ b
      → Ended (serve J lib name ts p)
  unfolding serve Ended
  serve-Ended b name ts p valid bound e =
      bind-post Ended (poll_loop J lib ts)
        (λ exited. if exited then finish J lib name else pure running) p
        (λ exited _.
          exits exited (poll_loop J lib ts p).1
            (poll_loop-OnWorld J lib (IsBound J lib b) (IsBound-IsCallKept J lib b) ts p e))
        (λ x f. absurd (ground (arith, f)))
    where
      exits :
          (exited : Bool) (q : Process J lib)
          → q.world.binding ≡ b
          → Ended ((if exited then finish J lib name else pure running) q)
      exits true q k = finish-Ended b name q valid bound k
      exits false q k = λ f. absurd (ground (arith, f))

  start_loop-Ended :
      (b : Binding) (name : String) (s : Session (Req J lib)) (done : Loaded) (p : Process J lib)
      → validate_dll b ≡ true
      → is_in "deregister_client" b.bound ≡ true
      → p.world.binding ≡ b
      → Ended (start_loop J lib host name s done p)
  unfolding start_loop Ended
  start_loop-Ended b name s give_up p valid bound e = λ f. absurd (ground (arith, f))
  start_loop-Ended b name s go_on p valid bound e = go p.pipe_list
    where
      go :
          (l : List (ℕ × String))
          → Ended
              (elim l [ [] ↦ (ok (returned (negsuc 0)), p) | _ ∷ _ ↦ serve J lib name s.turns p ])
      go [] = λ f. absurd (ground (arith, f))
      go (x ∷ xs) = serve-Ended b name s.turns p valid bound e

  -- With the library loaded: where `main_run` returns 0, the thread is not registered any more.
  pub main_run_deregisters :
      (name : String) (s : Session (Req J lib)) (p : Process J lib)
      → validate_dll p.world.binding ≡ true
      → is_in "deregister_client" p.world.binding.bound ≡ true
      → (main_run J lib host name s p).0 ≡ ok (returned (pos 0))
      → (main_run J lib host name s p).1.world.ext.thread ≡ none
  unfolding main_run Ended
  main_run_deregisters name s p valid bound =
      let b = p.world.binding in
      let q = registered_by J lib host name p in
      let held : q.world.binding ≡ b =
        Called-Kept J lib (IsBound J lib b) (IsBound-IsCallKept J lib b) (registering name) refl in
      bind-post Ended (with_world (register_client J lib name))
        (λ ret. if is_true ret then loading else pure (returned (negsuc 0)))
        (record p { holders = []; pipe_list = [] })
        (λ ret _. after_registration (is_true ret) q held) (λ x f. absurd (ground (arith, f)))
    where
      loading : Action (Process J lib) Outcome
      loading = load_all J lib host s >>= start_loop J lib host name s

      after_registration :
          (c : Bool) (q : Process J lib)
          → q.world.binding ≡ p.world.binding
          → Ended ((if c then loading else pure (returned (negsuc 0))) q)
      after_registration true q held =
          bind-post Ended (load_all J lib host s) (start_loop J lib host name s) q
            (λ done _.
              start_loop-Ended p.world.binding name s done (load_all J lib host s q).1 valid bound (
                load_all-OnWorld J lib (IsBound J lib p.world.binding)
                  (IsBound-IsCallKept J lib p.world.binding) host s q held))
            (λ x f. absurd (ground (arith, f)))
      after_registration false q held = λ f. absurd (ground (arith, f))
