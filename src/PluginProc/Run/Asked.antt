-- ===== src/PluginProc/Run/Asked.antt =====
-- What a call of `main_run` of python_plugins/src/plugin_proc.py has told its plugins when it has been
-- asked to shut down.
pub mod Holders
use sonic_device_health_prtm.Prelude.{
  String, ◌≡◌, arith, true, Option-cases, All, inl, inr, ◌∷◌, [], false, List, Result, Result-cases,
  ap, sym, subst, ◌∙◌, refl, ok,
}
use sonic_device_health_prtm.Prelude.Dict.{AllValues, lookup}
use sonic_device_health_prtm.Prelude.Action.{Leaves-always}
use sonic_device_health_prtm.Holder.Methods.{send_request, handle_response, set_pipe, after_calls}
use sonic_device_health_prtm.Holder.Defs.{Holder}
use sonic_device_health_prtm.PluginProc.Requests.Keep.{handle_shutdown-Holds, on_holder-Holds}
use sonic_device_health_prtm.PluginProc.Requests.Shutdown.{
  handle_shutdown_asks_all, AllValid, AllAsked,
}
use sonic_device_health_prtm.PluginProc.State.{
  run_threads, sighup, sigusr1, sigterm, deliver, Turn, Signal, signal_handler,
}
use sonic_device_health_prtm.Json.{JsonModule}
use sonic_device_health_prtm.ClibBind.Calls.{ClibLibrary}
use sonic_device_health_prtm.PluginProc.Requests.{
  Process, Req, handle_shutdown, on_holder, handle_plugin_holder,
}
use sonic_device_health_prtm.PluginProc.Loading.{Host, add_holder}
use sonic_device_health_prtm.PluginProc.Run.Keep.{IsKeptBy, AllowedBy, handle_plugin_holder-keeps}
use sonic_device_health_prtm.PluginProc.Run.Asked.Holders.{
  after_calls-SamePlugin, IsAsked, HasPlugin, SamePlugin, send_request-SamePlugin,
  handle_response-SamePlugin, plugin-HasPlugin, plugin-IsAsked, HasPlugin-IsKept,
  run_threads-AllValues,
}
use sonic_device_health_prtm.PluginProc.Run.{poll, Session, pass, load_all, main_run}
use sonic_device_health_prtm.PluginProc.Run.Whole.{
  loaded_by, registered_by, load_all-state, main_run-keeps,
}
use sonic_device_health_prtm.PluginProc.Loading.Keep.{load_plugins-keeps}
use sonic_device_health_prtm.PluginProc.Loading.Valid.{load_plugins-AllValid}

module _ (J : JsonModule) (lib : ClibLibrary J) where
  -- Every holder has its plugin, and once the shutdown is asked for, every plugin has been told.
  IsSettled : Process J lib → Type 0
  IsSettled p =
      AllValues HasPlugin p.holders × (p.shutdown_request ≡ true → AllValues IsAsked p.holders)

  -- The request threads do not assign to `self.plugin`.
  abbrev pub KeepsPlugins : Turn (Req J lib) → Process J lib → Type 0
  KeepsPlugins t p = All (λ e. e.1.plugin ≡ (t.threads e.0 e.1).plugin) p.holders

  on_holder-flag :
      {A : Type 0} (name : String) (f : Holder (Req J lib) → Result A × Holder (Req J lib))
      (p : Process J lib)
      → (on_holder J lib name f p).1.shutdown_request ≡ p.shutdown_request
  on_holder-flag name f p = elim (Option-cases (lookup name p.holders)) [
    | inl missing ↦ ground (arith, missing)
    | inr (h, found) ↦ ground (arith, found)
  ]

  on_holder-IsSettled :
      {A : Type 0} (name : String) (f : Holder (Req J lib) → Result A × Holder (Req J lib))
      (p : Process J lib)
      → SamePlugin f
      → IsSettled p
      → IsSettled (on_holder J lib name f p).1
  unfolding IsSettled SamePlugin
  on_holder-IsSettled name f p same (valid, told) = (
    on_holder-Holds J lib HasPlugin name f p (λ h _. plugin-HasPlugin h (f h).1 (same h)) valid,
    λ asked.
        on_holder-Holds J lib IsAsked name f p (λ h _. plugin-IsAsked h (f h).1 (same h))
          (told (sym (on_holder-flag name f p) ∙ asked)),
  )

  handle_shutdown-IsSettled :
      (p : Process J lib) → IsSettled p → IsSettled (handle_shutdown J lib p).1
  unfolding IsSettled HasPlugin IsAsked
  handle_shutdown-IsSettled p (valid, told) = (
    handle_shutdown-Holds J lib HasPlugin HasPlugin-IsKept p valid,
    λ _. (handle_shutdown_asks_all J lib p valid).1,
  )

  deliver-IsSettled :
      (ss : List Signal) (p : Process J lib) → IsSettled p → IsSettled (deliver ss p)
  unfolding deliver IsSettled
  deliver-IsSettled [] p held = held
  deliver-IsSettled (sighup ∷ ss) p held = deliver-IsSettled ss (signal_handler sighup p) held
  deliver-IsSettled (sigusr1 ∷ ss) p held = deliver-IsSettled ss (signal_handler sigusr1 p) held
  deliver-IsSettled (sigterm ∷ ss) p held = deliver-IsSettled ss (signal_handler sigterm p) held

  pass-IsSettled :
      (t : Turn (Req J lib)) (p : Process J lib)
      → KeepsPlugins t p
      → IsSettled p
      → IsSettled (pass J lib t p)
  unfolding IsSettled
  pass-IsSettled t p same (valid, told) =
      deliver-IsSettled t.signals (record p { holders = run_threads t.threads p.holders })
        (
          run_threads-AllValues HasPlugin t.threads p.holders plugin-HasPlugin same valid,
          λ asked.
              run_threads-AllValues IsAsked t.threads p.holders plugin-IsAsked same (told asked),
        )

  IsSettled-IsKeptBy : IsKeptBy J lib KeepsPlugins IsSettled IsSettled
  unfolding IsSettled
  IsSettled-IsKeptBy = record {
    stable = record {
      worlds = λ _ _ _ held. held;
      sends = λ now req name p.
          on_holder-IsSettled name (send_request now req) p (send_request-SamePlugin now req);
      shuts = handle_shutdown-IsSettled;
    };
    passes = pass-IsSettled;
    stops = λ _ held. held;
    answers = λ t fd name p _ _ _ held.
        Leaves-always IsSettled IsSettled (handle_plugin_holder J lib name (poll J lib t p).1)
          (λ _ k. k)
          (handle_plugin_holder-keeps J lib IsSettled name (λ _ _ _ k. k)
            (λ q.
              on_holder-IsSettled name handle_response q (handle_response-SamePlugin (Req J lib)))
            (λ calls q.
              on_holder-IsSettled name (λ h. (ok tt, after_calls calls h)) q
                (after_calls-SamePlugin (Req J lib) calls))
            (poll J lib t p).1 held);
  }

  module _ (host : Host) where
    add_holder-flag :
        (name : String) (h : Holder (Req J lib)) (q : Process J lib)
        → (add_holder J lib host name h q).1.shutdown_request ≡ q.shutdown_request
    unfolding add_holder
    add_holder-flag name h q =
        elim (Result-cases
          (set_pipe (host.os_pipe q.pipes_made).0 (host.os_pipe q.pipes_made).1 h)) [
            | inl (h', e) ↦ ground (arith, e)
            | inr (x, e) ↦ ground (arith, e)
          ]

    load_all-flag :
        (s : Session (Req J lib)) (p : Process J lib)
        → (load_all J lib host s p).1.shutdown_request ≡ p.shutdown_request
    load_all-flag s p =
        ap (λ (q : Process J lib). q.shutdown_request) (sym (load_all-state J lib host s p))
        ∙ load_plugins-keeps J lib host (λ q. q.shutdown_request ≡ p.shutdown_request)
            (λ _ _ _ k. k) (λ name _ _ h q _ _ _ k. add_holder-flag name h q ∙ k) s.actions_conf
            s.plugins p refl

    loaded-IsSettled :
        (proc_name : String) (s : Session (Req J lib)) (p : Process J lib)
        → p.shutdown_request ≡ false
        → IsSettled (loaded_by J lib host proc_name s p)
    unfolding IsSettled HasPlugin
    loaded-IsSettled proc_name s p calm =
        let q = registered_by J lib host proc_name p in
        (
          subst (λ (r : Process J lib). AllValid r.holders) (load_all-state J lib host s q)
              (load_plugins-AllValid J lib host s.actions_conf s.plugins q tt),
          λ asked. absurd (ground (arith, asked, load_all-flag s q, calm)),
        )

    -- If the request threads leave the plugins of their holders in place on the schedule, and
    -- `main_run`, however it ends, leaves `shutdown_request` set, which was not set before, then every
    -- holder has its plugin and every plugin has been told to shut down.
    pub main_run_asks_all :
        (proc_name : String) (s : Session (Req J lib)) (p : Process J lib)
        → p.shutdown_request ≡ false
        → AllowedBy J lib KeepsPlugins s.turns (loaded_by J lib host proc_name s p)
        → (main_run J lib host proc_name s p).1.shutdown_request ≡ true
        → AllValid (main_run J lib host proc_name s p).1.holders
          × AllAsked (main_run J lib host proc_name s p).1.holders
    unfolding IsSettled HasPlugin IsAsked
    main_run_asks_all proc_name s p calm allowed asked =
        let (valid, told) =
          main_run-keeps J lib host KeepsPlugins IsSettled IsSettled-IsKeptBy proc_name s p allowed
            (tt, λ _. tt) (loaded-IsSettled proc_name s p calm) in
        (valid, told asked)
