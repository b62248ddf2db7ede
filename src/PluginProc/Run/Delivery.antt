-- ===== src/PluginProc/Run/Delivery.antt =====
-- `main_run` of python_plugins/src/plugin_proc.py as a whole: what the loading, the poll loop, the
-- request threads and the shutdown together make of the holders.
use sonic_device_health_prtm.Prelude.Dict.{Dict, AllValues, lookup, insert, lookup-AllValues}
use sonic_device_health_prtm.Prelude.{
  String, [], ◌∷◌, ◌≡◌, some, subst, false, ◌<◌, ◌-◌, none, ap, ◌∙◌, ok, err, Result, refl,
}
use sonic_device_health_prtm.Prelude.Action.{Leaves-ok}
use sonic_device_health_prtm.PluginProc.Requests.Handled.{handled_with, handle_plugin_holder-found}
use sonic_device_health_prtm.Json.{JsonModule}
use sonic_device_health_prtm.ClibBind.Calls.{ClibLibrary, World}
use sonic_device_health_prtm.PluginProc.Loading.{Host}
use sonic_device_health_prtm.PluginProc.Requests.{Process, Req, handle_plugin_holder, perform_all}
use sonic_device_health_prtm.PluginProc.Run.{main_run, load_all, Session, Outcome}
use sonic_device_health_prtm.Holder.Defs.{Holder, is_alive, write_action_response}
use sonic_device_health_prtm.PluginProc.Requests.Keep.{Holds}
use sonic_device_health_prtm.Holder.Threads.Reach.{Reachable, fresh-Reachable, Reachable-delivers}
use sonic_device_health_prtm.PluginProc.Run.Reached.{Legal, CanHappen, Reachable-IsKeptBy, Always}
use sonic_device_health_prtm.Holder.Threads.System.{IsFresh}
use sonic_device_health_prtm.PluginProc.Loading.Valid.{load_plugins-IsFresh}
use sonic_device_health_prtm.ClibBind.Messages.{ActionResponse}
use sonic_device_health_prtm.Holder.Methods.{after_calls}
use sonic_device_health_prtm.PluginProc.Run.Whole.{
  loaded_by, main_run-Leaves, registered_by, load_all-state,
}

-- The holder, its pipe drained, behind the call that writes its response: the call has returned, or
-- has raised.
abbrev pub sent_or_kept : {R : Type 0} → Result (Unit {0}) → Holder R → Holder R
sent_or_kept (ok _) h = record h { pipe = h.pipe - 100; response = none; req_end = 0 }
sent_or_kept (err _) h = record h { pipe = h.pipe - 100 }

module _ (J : JsonModule) (lib : ClibLibrary J) (host : Host) where
  AllReachable : Process J lib → Type 0
  AllReachable = Holds J lib Reachable

  fresh-AllReachable : (d : Dict (Holder (Req J lib))) → AllValues IsFresh d → AllValues Reachable d
  fresh-AllReachable [] all = tt
  fresh-AllReachable ((name, h) ∷ d) all = (fresh-Reachable h all.0, fresh-AllReachable d all.1)

  load_all-IsFresh :
      (s : Session (Req J lib)) (p : Process J lib)
      → AllValues IsFresh p.holders
      → AllValues IsFresh (load_all J lib host s p).1.holders
  load_all-IsFresh s p all =
      subst (λ (q : Process J lib). AllValues IsFresh q.holders) (load_all-state J lib host s p)
        (load_plugins-IsFresh J lib host s.actions_conf s.plugins p all)

  -- Where it returns or runs on, `main_run` leaves each holder in a state that some interleaving of
  -- its two threads reaches, if the request threads and the poll can behave as the schedule says.
  pub main_run-AllReachable :
      (proc_name : String) (s : Session (Req J lib)) (p : Process J lib) (o : Outcome)
      → Legal J lib s.turns (loaded_by J lib host proc_name s p)
      → (main_run J lib host proc_name s p).0 ≡ ok o
      → Holds J lib Reachable (main_run J lib host proc_name s p).1
  unfolding AllReachable
  main_run-AllReachable proc_name s p o legal ends =
      Leaves-ok AllReachable (Always J lib) (main_run J lib host proc_name s p) o
        (main_run-Leaves J lib host (CanHappen J lib) AllReachable (Always J lib)
          (Reachable-IsKeptBy J lib) proc_name s p legal tt
          (fresh-AllReachable (loaded_by J lib host proc_name s p).holders
            (load_all-IsFresh s (registered_by J lib host proc_name p) tt)))
        ends

  -- Let `p'` be the state in which `main_run` returns, or in which it runs on when the schedule ends,
  -- on a schedule that the request threads and the poll can have and on which no plugin returns None.
  -- When in `p'` the thread of a holder has ended and its response is unsent, the holder's pipe is
  -- readable, and `handle_plugin_holder` writes exactly this response and gives what the call gives:
  -- the pipe is drained, and the response and `req_end` are reset if the call returns and stay as
  -- they are if it raises.
  pub main_run_delivers :
      (proc_name : String) (s : Session (Req J lib)) (p p' : Process J lib) (o : Outcome)
      (name : String) (h : Holder (Req J lib)) (r : ActionResponse)
      → Legal J lib s.turns (loaded_by J lib host proc_name s p)
      → main_run J lib host proc_name s p ≡ (ok o, p')
      → lookup name p'.holders ≡ some h
      → is_alive h.thread ≡ false
      → h.response ≡ some r
      → (0 < h.pipe)
        × (handle_plugin_holder J lib name p' ≡ (
            let (sent, w) = perform_all J lib (write_action_response r ∷ []) p'.world in
            (
              sent,
              record p' { world = w; holders = insert name (sent_or_kept sent h) p'.holders },
            )))
  unfolding after_calls
  main_run_delivers proc_name s p p' o name h r legal ends found dead has =
      let reached = main_run-AllReachable proc_name s p o legal (ap (λ x. x.0) ends) in
      let held = subst (Holds J lib Reachable) (ap (λ x. x.1) ends) reached in
      let reach = lookup-AllValues Reachable name h p'.holders held found in
      let (readable, sends) = Reachable-delivers h r reach dead has in
      let calls = write_action_response r ∷ [] in
      (
        readable,
        handle_plugin_holder-found J lib name h (record h { pipe = h.pipe - 100 }) calls p' found
              sends
            ∙ written name h r p' (perform_all J lib calls p'.world),
      )
    where
      written :
          (name : String) (h : Holder (Req J lib)) (r : ActionResponse) (p' : Process J lib)
          (x : Result (Unit {0}) × World lib.State)
          → handled_with J lib name
              (write_action_response r ∷ [])
              (record h { pipe = h.pipe - 100 })
              p'
              x
            ≡ (
              x.0,
              record p' { world = x.1; holders = insert name (sent_or_kept x.0 h) p'.holders },
            )
      written name h r p' (ok u, w) = refl
      written name h r p' (err e, w) = refl
