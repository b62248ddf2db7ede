-- ===== src/PluginProc/Run/Reached.antt =====
-- The holders of the process of python_plugins/src/plugin_proc.py between two rounds of its poll loop,
-- against the interleavings of `Holder.Threads`.
use sonic_device_health_prtm.Prelude.{
  String, List, All, ℕ, ◌≡◌, ◌∷◌, subst, [], refl, ok, sym, some, ◌<◌, Option-cases, inl, inr, none,
  err, PyError, Result, arith,
}
use sonic_device_health_prtm.Prelude.Dict.{
  Dict, AllValues, lookup, insert-AllValues, lookup-AllValues,
}
use sonic_device_health_prtm.Prelude.Action.{Leaves}
use sonic_device_health_prtm.Prelude.Int.{pos}
use sonic_device_health_prtm.PluginProc.Requests.Handled.{handled_with, handle_plugin_holder-found}
use sonic_device_health_prtm.Holder.Threads.Reach.{
  handled-Reachable, handled-calls, Reachable, ThreadRun-Reachable, send_request-Reachable,
  shutdown-Reachable,
}
use sonic_device_health_prtm.Holder.Defs.{Call, Holder}
use sonic_device_health_prtm.Holder.Methods.{after_calls, handle_response}
use sonic_device_health_prtm.ClibBind.Calls.{World, ClibLibrary}
use sonic_device_health_prtm.PluginProc.Requests.{handle_plugin_holder, perform_all, Process, Req}
use sonic_device_health_prtm.Json.{JsonModule}
use sonic_device_health_prtm.PluginProc.Requests.Keep.{IsKept, Holds, Holds-IsStable}
use sonic_device_health_prtm.Holder.Threads.Work.{ThreadRun}
use sonic_device_health_prtm.PluginProc.State.{
  deliver, Turn, Signal, signal_handler, find_pipe, run_threads, sighup, sigusr1, sigterm,
}
use sonic_device_health_prtm.PluginProc.Run.{pass, poll}
use sonic_device_health_prtm.PluginProc.Run.Keep.{IsKeptBy, AllowedBy}

pub Reachable-IsKept : {R : Type 0} → IsKept {R = R} Reachable
Reachable-IsKept = record {
  sends = send_request-Reachable;
  shuts = λ h h' e r. shutdown-Reachable h h' e r;
}

run_threads-AllValues :
    {R : Type 0} (f : String → Holder R → Holder R) (d : Dict (Holder R))
    → All (λ e. ThreadRun e.1 (f e.0 e.1)) d
    → AllValues Reachable d
    → AllValues Reachable (run_threads f d)
run_threads-AllValues f [] work all = tt
run_threads-AllValues f ((name, h) ∷ d) work all =
    (ThreadRun-Reachable work.0 all.0, run_threads-AllValues f d work.1 all.1)

module _ (J : JsonModule) (lib : ClibLibrary J) where
  abbrev AllReachable : Process J lib → Type 0
  AllReachable = Holds J lib Reachable

  abbrev pub Always : Process J lib → Type 0
  Always p = Unit {0}

  abbrev Leaving : Result (Unit {0}) × Process J lib → Type 0
  Leaving x = Leaves AllReachable Always x

  deliver-holders : (ss : List Signal) (p : Process J lib) → (deliver ss p).holders ≡ p.holders
  unfolding deliver
  deliver-holders [] p = refl
  deliver-holders (sighup ∷ ss) p = deliver-holders ss (signal_handler sighup p)
  deliver-holders (sigusr1 ∷ ss) p = deliver-holders ss (signal_handler sigusr1 p)
  deliver-holders (sigterm ∷ ss) p = deliver-holders ss (signal_handler sigterm p)

  -- Each request thread that works during the turn makes steps of its own.
  abbrev pub Works : Turn (Req J lib) → Process J lib → Type 0
  Works t p = All (λ e. ThreadRun e.1 (t.threads e.0 e.1)) p.holders

  -- The poll reports a descriptor only if the pipe behind it holds data.
  abbrev pub IsReadable : Turn (Req J lib) → Process J lib → Type 0
  IsReadable t p =
      (fd : ℕ) (name : String) (h : Holder (Req J lib))
      → (poll J lib t p).0 ≡ ok (pos fd)
      → find_pipe fd (pass J lib t p).pipe_list ≡ some name
      → lookup name (pass J lib t p).holders ≡ some h
      → 0 < h.pipe

  -- What the request threads and the poll can do in a turn.
  abbrev pub CanHappen : Turn (Req J lib) → Process J lib → Type 0
  CanHappen t p = Works t p × IsReadable t p

  -- A schedule that the request threads and the poll can have.
  abbrev pub Legal : List (Turn (Req J lib)) → Process J lib → Type 0
  Legal = AllowedBy J lib CanHappen

  pass-AllReachable :
      (t : Turn (Req J lib)) (p : Process J lib)
      → Works t p
      → AllReachable p
      → AllReachable (pass J lib t p)
  pass-AllReachable t p work all =
      subst (AllValues Reachable)
        (sym (deliver-holders t.signals (record p { holders = run_threads t.threads p.holders })))
        (run_threads-AllValues t.threads p.holders work all)

  -- The call of a holder's `handle_response` with its pipe readable.
  handle_plugin_holder-AllReachable :
      (name : String) (p : Process J lib)
      → ((h : Holder (Req J lib)) → lookup name p.holders ≡ some h → 0 < h.pipe)
      → AllReachable p
      → Leaves AllReachable Always (handle_plugin_holder J lib name p)
  unfolding handle_plugin_holder
  handle_plugin_holder-AllReachable name p readable all =
      elim (Option-cases (lookup name p.holders)) [
        | inl missing ↦ subst Leaving (raised missing) tt
        | inr (h, found) ↦
            let r = lookup-AllValues Reachable name h p.holders all found in
            let (calls, e, k) = handled-Reachable h r (readable h found) in
            let (made, left) = handled-calls h calls e in
            let h' = (handle_response h).1 in
            subst Leaving (sym (handle_plugin_holder-found J lib name h h' calls p found made))
              (ends name calls h' p (perform_all J lib calls p.world) all (subst Reachable left k))
      ]
    where
      raised :
          lookup name p.holders ≡ none
          → (err (PyError.key_error name), p) ≡ handle_plugin_holder J lib name p
      raised missing = ground (arith, missing)

      ends :
          (name : String) (calls : List Call) (h : Holder (Req J lib)) (p : Process J lib)
          (x : Result (Unit {0}) × World lib.State)
          → AllReachable p
          → Reachable (after_calls calls h)
          → Leaving (handled_with J lib name calls h p x)
      ends name calls h p (ok u, w) all k =
          insert-AllValues Reachable name (after_calls calls h) p.holders k all
      ends name calls h p (err e, w) all k = tt

  pub Reachable-IsKeptBy : IsKeptBy J lib CanHappen AllReachable Always
  Reachable-IsKeptBy = record {
    stable = Holds-IsStable J lib Reachable Reachable-IsKept;
    passes = λ t p allowed. pass-AllReachable t p allowed.0;
    stops = λ _ _. tt;
    answers = λ t fd name p allowed e found all.
        handle_plugin_holder-AllReachable name (poll J lib t p).1
          (λ h there. allowed.1 fd name h e found there) all;
  }
