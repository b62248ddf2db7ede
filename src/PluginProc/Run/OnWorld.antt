-- ===== src/PluginProc/Run/OnWorld.antt =====
-- What each call of the client library keeps, over the parts of `main_run` of
-- python_plugins/src/plugin_proc.py.
use sonic_device_health_prtm.Prelude.{
  Result, ◌≡◌, String, List, arith, ◌∷◌, Option-cases, subst, [], refl, inl, inr, sym, ok,
}
use sonic_device_health_prtm.Prelude.Dict.{lookup}
use sonic_device_health_prtm.Prelude.Action.{Leaves-same, Leaves-always}
use sonic_device_health_prtm.Json.{JsonModule}
use sonic_device_health_prtm.ClibBind.Calls.{ClibLibrary, World}
use sonic_device_health_prtm.PluginProc.State.{
  deliver, Turn, Signal, signal_handler, run_threads, sighup, sigusr1, sigterm,
}
use sonic_device_health_prtm.PluginProc.Requests.{
  handle_shutdown, Process, Req, on_holder, handle_plugin_holder,
}
use sonic_device_health_prtm.Holder.Defs.{Holder}
use sonic_device_health_prtm.PluginProc.Loading.{Host, add_holder}
use sonic_device_health_prtm.PluginProc.Run.Keep.{
  IsKeptBy, AllowedBy, poll_loop-Leaves, handle_plugin_holder-keeps,
}
use sonic_device_health_prtm.Holder.Methods.{after_calls, send_request, handle_response}
use sonic_device_health_prtm.PluginProc.Run.{
  Session, load_all, poll_loop, round, pass, poll, main_run,
}
use sonic_device_health_prtm.PluginProc.Run.Whole.{
  load_all-state, registered_by, main_run-keeps, loaded_by,
}
use sonic_device_health_prtm.PluginProc.Loading.Keep.{load_plugins-keeps}
use sonic_device_health_prtm.ClibBind.Called.{IsCallKept, Called-Kept, registering}

module _ (J : JsonModule) (lib : ClibLibrary J) where
  on_holder-world :
      {A : Type 0} (name : String) (f : Holder (Req J lib) → Result A × Holder (Req J lib))
      (p : Process J lib)
      → (on_holder J lib name f p).1.world ≡ p.world
  on_holder-world name f p = elim (Option-cases (lookup name p.holders)) [
    | inl missing ↦ ground (arith, missing)
    | inr (h, found) ↦ ground (arith, found)
  ]

  pub handle_shutdown-world : (p : Process J lib) → (handle_shutdown J lib p).1.world ≡ p.world
  unfolding handle_shutdown
  handle_shutdown-world p = ground arith

  deliver-world : (ss : List Signal) (p : Process J lib) → (deliver ss p).world ≡ p.world
  unfolding deliver
  deliver-world [] p = refl
  deliver-world (sighup ∷ ss) p = deliver-world ss (signal_handler sighup p)
  deliver-world (sigusr1 ∷ ss) p = deliver-world ss (signal_handler sigusr1 p)
  deliver-world (sigterm ∷ ss) p = deliver-world ss (signal_handler sigterm p)

  module _ (R : World lib.State → Type 0) (kept : IsCallKept J lib R) where
    abbrev OnWorld : Process J lib → Type 0
    OnWorld p = R p.world

    abbrev AnyTurn : Turn (Req J lib) → Process J lib → Type 0
    AnyTurn t p = Unit {0}

    moved : (p q : Process J lib) → q.world ≡ p.world → OnWorld p → OnWorld q
    moved p q e held = subst R (sym e) held

    OnWorld-IsKeptBy : IsKeptBy J lib AnyTurn OnWorld OnWorld
    OnWorld-IsKeptBy = record {
      stable = record {
        worlds = λ w p c held. Called-Kept J lib R kept c held;
        sends = λ now req name p held.
            moved p (on_holder J lib name (send_request now req) p).1
              (on_holder-world name (send_request now req) p) held;
        shuts = λ p held. moved p (handle_shutdown J lib p).1 (handle_shutdown-world p) held;
      };
      passes = λ t p _ held.
          moved p (pass J lib t p)
            (deliver-world t.signals (record p { holders = run_threads t.threads p.holders })) held;
      stops = λ _ held. held;
      answers = λ t fd name p _ _ _ held.
          Leaves-always OnWorld OnWorld (handle_plugin_holder J lib name (poll J lib t p).1)
            (λ _ k. k)
            (handle_plugin_holder-keeps J lib OnWorld name (λ w q c k. Called-Kept J lib R kept c k)
              (λ q.
                moved q (on_holder J lib name handle_response q).1
                  (on_holder-world name handle_response q))
              (λ calls q.
                moved q (on_holder J lib name (λ h. (ok tt, after_calls calls h)) q).1
                  (on_holder-world name (λ h. (ok tt, after_calls calls h)) q))
              (poll J lib t p).1 held);
    }

    any_turns : (ts : List (Turn (Req J lib))) (p : Process J lib) → AllowedBy J lib AnyTurn ts p
    any_turns [] p = tt
    any_turns (t ∷ ts) p = (tt, any_turns ts (round J lib t p).1)

    pub poll_loop-OnWorld :
        (ts : List (Turn (Req J lib))) (p : Process J lib)
        → OnWorld p
        → OnWorld (poll_loop J lib ts p).1
    poll_loop-OnWorld ts p held =
        Leaves-same OnWorld (poll_loop J lib ts p) (
          poll_loop-Leaves J lib AnyTurn OnWorld OnWorld OnWorld-IsKeptBy ts p (any_turns ts p)
            held)

    module _ (host : Host) where
      add_holder-world :
          (name : String) (h : Holder (Req J lib)) (p : Process J lib)
          → (add_holder J lib host name h p).1.world ≡ p.world
      unfolding add_holder
      add_holder-world name h p = ground arith

      pub load_all-OnWorld :
          (s : Session (Req J lib)) (p : Process J lib)
          → OnWorld p
          → OnWorld (load_all J lib host s p).1
      load_all-OnWorld s p held = subst OnWorld (load_all-state J lib host s p) (
          load_plugins-keeps J lib host OnWorld (λ w q c k. Called-Kept J lib R kept c k)
            (λ name path conf h q w e v k.
              moved q (add_holder J lib host name h q).1 (add_holder-world name h q) k)
            s.actions_conf s.plugins p held)

      pub main_run-OnWorld :
          (name : String) (s : Session (Req J lib)) (p : Process J lib)
          → OnWorld p
          → OnWorld (main_run J lib host name s p).1
      main_run-OnWorld name s p held =
          let q = registered_by J lib host name p in
          let k : OnWorld q = Called-Kept J lib R kept (registering name) held in
          main_run-keeps J lib host AnyTurn OnWorld OnWorld-IsKeptBy name s p
            (any_turns s.turns (loaded_by J lib host name s p)) k (load_all-OnWorld s q k)
