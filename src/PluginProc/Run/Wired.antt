-- ===== src/PluginProc/Run/Wired.antt =====
-- The descriptors that `main_run` of python_plugins/src/plugin_proc.py polls and the holders that it
-- calls for them.
use sonic_device_health_prtm.Prelude.Dict.{
  Dict, contains, lookup, contains-insert, insert, contains-insert_self,
}
use sonic_device_health_prtm.Prelude.{
  String, List, ℕ, All, ◌≡◌, ◌∷◌, arith, Bool-cases, true, Result-cases, All-map, [], ◌==◌, inl,
  inr, subst, false, Result, refl, Option-cases, PyError, err, ◌+◌, ok,
}
use sonic_device_health_prtm.Prelude.Action.{Leaves-always}
use sonic_device_health_prtm.PluginProc.Requests.{
  shutdown_all, Req, Process, handle_shutdown, on_holder, handle_plugin_holder,
}
use sonic_device_health_prtm.PluginProc.State.{
  Proc, run_threads, Turn, deliver, Signal, signal_handler, sighup, sigusr1, sigterm,
}
use sonic_device_health_prtm.Holder.Defs.{Holder}
use sonic_device_health_prtm.PluginProc.Loading.{add_pipe, Host, add_holder}
use sonic_device_health_prtm.Holder.Methods.{
  shutdown, send_request, set_pipe, handle_response, after_calls,
}
use sonic_device_health_prtm.Json.{JsonModule}
use sonic_device_health_prtm.ClibBind.Calls.{ClibLibrary}
use sonic_device_health_prtm.PluginProc.Run.Keep.{IsKeptBy, AllowedBy, handle_plugin_holder-keeps}
use sonic_device_health_prtm.PluginProc.Run.{pass, Session, load_all, round, main_run, poll}
use sonic_device_health_prtm.PluginProc.Run.Whole.{
  load_all-state, main_run-keeps, loaded_by, registered_by,
}
use sonic_device_health_prtm.PluginProc.Loading.Keep.{load_plugins-keeps}

-- Each descriptor in `pipe_list` has its holder in `active_plugin_holders`.
abbrev pub IsWired : {R E : Type 0} → Proc R E → Type 0
IsWired p = All (λ e. contains e.1 p.holders ≡ true) p.pipe_list

-- Every key of `d` is one of `d'`.
Covers : {V : Type 0} → Dict V → Dict V → Type 0
Covers d d' = (k : String) → contains k d ≡ true → contains k d' ≡ true

wired_by :
    {V : Type 0} (pipes : List (ℕ × String)) (d d' : Dict V)
    → Covers d d'
    → All (λ e. contains e.1 d ≡ true) pipes
    → All (λ e. contains e.1 d' ≡ true) pipes
unfolding Covers
wired_by pipes d d' covers wired = All-map pipes (λ e. covers e.1) wired

shutdown_all-Covers : {R : Type 0} (d : Dict (Holder R)) → Covers d (shutdown_all d).1
unfolding Covers shutdown_all
shutdown_all-Covers [] k h = h
shutdown_all-Covers ((name, h) ∷ d) k there = elim (Result-cases (shutdown h)) [
  | inl (h', e) ↦ ground (arith, e, there, shutdown_all-Covers d k)
  | inr (x, e) ↦ ground (arith, e, there)
]

run_threads-Covers :
    {R : Type 0} (f : String → Holder R → Holder R) (d : Dict (Holder R))
    → Covers d (run_threads f d)
unfolding Covers
run_threads-Covers f [] k h = h
run_threads-Covers f ((name, h) ∷ d) k there = ground (arith, there, run_threads-Covers f d k)

add_pipe-All :
    (P : String → Type 0) (fd : ℕ) (name : String) (pipes : List (ℕ × String))
    → P name
    → All (λ e. P e.1) pipes
    → All (λ e. P e.1) (add_pipe fd name pipes)
add_pipe-All P fd name [] new all = (new, tt)
add_pipe-All P fd name ((k, n) ∷ pipes) new all = elim (Bool-cases (k == fd)) [
  | inl same ↦ subst (All (λ e. P e.1)) (replaced same) (new, all.1)
  | inr other ↦
      subst (All (λ e. P e.1)) (kept other) (all.0, add_pipe-All P fd name pipes new all.1)
]
  where
    replaced : (k == fd) ≡ true → ((fd, name) ∷ pipes) ≡ add_pipe fd name ((k, n) ∷ pipes)
    replaced same = ground (arith, same)

    kept : (k == fd) ≡ false → ((k, n) ∷ add_pipe fd name pipes) ≡ add_pipe fd name ((k, n) ∷ pipes)
    kept other = ground (arith, other)

module _ (J : JsonModule) (lib : ClibLibrary J) where
  Wired : Process J lib → Type 0
  Wired p = IsWired p

  -- The holders are covered and the descriptors are the same.
  Widens : Process J lib → Process J lib → Type 0
  Widens p q = Covers p.holders q.holders × (p.pipe_list ≡ q.pipe_list)

  Widens-Wired : (p q : Process J lib) → Widens p q → Wired p → Wired q
  unfolding Wired Widens
  Widens-Wired p q (covers, same) wired =
      subst (All (λ e. contains e.1 q.holders ≡ true)) same
        (wired_by p.pipe_list p.holders q.holders covers wired)

  on_holder-Widens :
      {A : Type 0} (name : String) (f : Holder (Req J lib) → Result A × Holder (Req J lib))
      (p : Process J lib)
      → Widens p (on_holder J lib name f p).1
  unfolding Widens Covers
  on_holder-Widens name f p = elim (Option-cases (lookup name p.holders)) [
    | inl missing ↦ ((λ k there. ground (arith, missing, there)), ground (arith, missing))
    | inr (h, found) ↦ (
      (λ k there. ground (arith, found, contains-insert k name (f h).1 p.holders there)),
      ground (arith, found),
    )
  ]

  handle_shutdown-Widens : (p : Process J lib) → Widens p (handle_shutdown J lib p).1
  unfolding Widens Covers handle_shutdown
  handle_shutdown-Widens p = elim (Result-cases (shutdown_all p.holders).0) [
    | inl (u, e) ↦
        ((λ k there. ground (arith, e, shutdown_all-Covers p.holders k there)), ground (arith, e))
    | inr (x, e) ↦
        ((λ k there. ground (arith, e, shutdown_all-Covers p.holders k there)), ground (arith, e))
  ]

  deliver-Widens : (ss : List Signal) (p q : Process J lib) → Widens p q → Widens p (deliver ss q)
  unfolding deliver Widens
  deliver-Widens [] p q w = w
  deliver-Widens (sighup ∷ ss) p q w = deliver-Widens ss p (signal_handler sighup q) w
  deliver-Widens (sigusr1 ∷ ss) p q w = deliver-Widens ss p (signal_handler sigusr1 q) w
  deliver-Widens (sigterm ∷ ss) p q w = deliver-Widens ss p (signal_handler sigterm q) w

  pass-Widens : (t : Turn (Req J lib)) (p : Process J lib) → Widens p (pass J lib t p)
  unfolding Widens
  pass-Widens t p =
      deliver-Widens t.signals p (record p { holders = run_threads t.threads p.holders })
        (run_threads-Covers t.threads p.holders, refl)

  -- Any turn at all.
  AnyTurn : Turn (Req J lib) → Process J lib → Type 0
  AnyTurn t p = Unit {0}

  all_allowed : (ts : List (Turn (Req J lib))) (p : Process J lib) → AllowedBy J lib AnyTurn ts p
  unfolding AnyTurn
  all_allowed [] p = tt
  all_allowed (t ∷ ts) p = (tt, all_allowed ts (round J lib t p).1)

  Wired-IsKeptBy : IsKeptBy J lib AnyTurn Wired Wired
  unfolding Wired
  Wired-IsKeptBy = record {
    stable = record {
      worlds = λ _ _ _ wired. wired;
      sends = λ now req name p.
          Widens-Wired p (on_holder J lib name (send_request now req) p).1
            (on_holder-Widens name (send_request now req) p);
      shuts = λ p. Widens-Wired p (handle_shutdown J lib p).1 (handle_shutdown-Widens p);
    };
    passes = λ t p _. Widens-Wired p (pass J lib t p) (pass-Widens t p);
    stops = λ _ held. held;
    answers = λ t fd name p _ _ _ held.
        Leaves-always Wired Wired (handle_plugin_holder J lib name (poll J lib t p).1) (λ _ k. k)
          (handle_plugin_holder-keeps J lib Wired name (λ _ _ _ k. k)
            (λ q.
              Widens-Wired q (on_holder J lib name handle_response q).1
                (on_holder-Widens name handle_response q))
            (λ calls q.
              Widens-Wired q (on_holder J lib name (λ h. (ok tt, after_calls calls h)) q).1
                (on_holder-Widens name (λ h. (ok tt, after_calls calls h)) q))
            (poll J lib t p).1 held);
  }

  module _ (host : Host) where
    add_holder-Wired :
        (name : String) (h : Holder (Req J lib)) (p : Process J lib)
        → Wired p
        → Wired (add_holder J lib host name h p).1
    unfolding add_holder Wired Covers
    add_holder-Wired name h p wired =
        let (r, w) = host.os_pipe p.pipes_made in
        elim (Result-cases (set_pipe r w h)) [
          | inr (x, e) ↦ subst IsWired (left e) wired
          | inl (h', e) ↦ subst IsWired (added h' e) (
              add_pipe-All (λ n. contains n (insert name h' p.holders) ≡ true) r name p.pipe_list
                (contains-insert_self name h' p.holders)
                (wired_by p.pipe_list p.holders (insert name h' p.holders)
                  (λ k. contains-insert k name h' p.holders) wired))
        ]
      where
        left :
            {x : PyError}
            → set_pipe (host.os_pipe p.pipes_made).0 (host.os_pipe p.pipes_made).1 h ≡ err x
            → record p { pipes_made = p.pipes_made + 1 } ≡ (add_holder J lib host name h p).1
        left e = ground (arith, e)

        added :
            (h' : Holder (Req J lib))
            → set_pipe (host.os_pipe p.pipes_made).0 (host.os_pipe p.pipes_made).1 h ≡ ok h'
            → record p {
              pipes_made = p.pipes_made + 1;
              holders = insert name h' p.holders;
              pipe_list = add_pipe (host.os_pipe p.pipes_made).0 name p.pipe_list;
            }
              ≡ (add_holder J lib host name h p).1
        added h' e = ground (arith, e)

    load_all-Wired :
        (s : Session (Req J lib)) (p : Process J lib) → Wired p → Wired (load_all J lib host s p).1
    unfolding Wired
    load_all-Wired s p wired = subst Wired (load_all-state J lib host s p) (
        load_plugins-keeps J lib host Wired (λ _ _ _ k. k)
          (λ name _ _ h q _ _ _. add_holder-Wired name h q) s.actions_conf s.plugins p wired)

    -- Whatever the configuration lists, the request threads and the server do, and the poll reports,
    -- and however `main_run` ends: each descriptor in its `pipe_list` has its holder in
    -- `active_plugin_holders`.
    pub main_run-IsWired :
        (proc_name : String) (s : Session (Req J lib)) (p : Process J lib)
        → IsWired (main_run J lib host proc_name s p).1
    unfolding Wired
    main_run-IsWired proc_name s p =
        main_run-keeps J lib host AnyTurn Wired Wired-IsKeptBy proc_name s p
          (all_allowed s.turns (loaded_by J lib host proc_name s p)) tt
          (load_all-Wired s (registered_by J lib host proc_name p) tt)
