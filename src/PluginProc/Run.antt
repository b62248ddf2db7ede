-- ===== src/PluginProc/Run.antt =====
-- `main_run` and `main` of python_plugins/src/plugin_proc.py. Each round of the poll loop takes the next
-- `Turn` of a schedule; a schedule that ends leaves the process running.
pub mod Signals
pub mod Production
pub mod Keep
pub mod OnWorld
pub mod Whole
pub mod Reached
pub mod Delivery
pub mod Wired
pub mod Asked
use sonic_device_health_prtm.Prelude.{
  ℕ, String, Bool, true, false, not, Option, none, some, List, [], ◌∷◌, ◌==◌, if◌then◌else◌, ◌&&◌,
  ok, err, ◌||◌, ◌+◌, Result,
}
use sonic_device_health_prtm.Prelude.Int.{ℤ, pos, negsuc}
use sonic_device_health_prtm.Prelude.Action.{Action, pure, gets, modify, ◌>>=◌, ◌>>◌}
use sonic_device_health_prtm.Prelude.Dict.{Dict}
use sonic_device_health_prtm.Json.{Json, JsonModule}
use sonic_device_health_prtm.ClibBind.Load.{Dll, c_lib_init, clib_bind_names}
use sonic_device_health_prtm.ClibBind.Calls.{
  ClibLibrary, register_client, deregister_client, poll_for_data, is_true, is_zero,
}
use sonic_device_health_prtm.PluginProc.State.{
  Turn, with_world, deliver, find_pipe, keys, run_threads,
}
use sonic_device_health_prtm.PluginProc.Requests.{
  Req, Process, handle_shutdown, handle_server_request, handle_plugin_holder,
}
use sonic_device_health_prtm.PluginProc.Loading.{Host, Loaded, go_on, give_up, load_plugins}

-- How a call ends when the schedule is used up: it returned a value, or it runs on.
pub data Outcome : Type 0 where
  returned : ℤ → Outcome
  running : Outcome

-- What one round of the poll loop decides.
pub data Round : Type 0 where
  again leave stuck : Round

-- What one call of `main_run` finds: the configuration files, and the turns of its poll loop.
pub record Session (Req : Type 0) : Type 0 where
  pub plugins : Dict Json
  pub actions_conf : Json
  pub turns : List (Turn Req)

module _ (J : JsonModule) (lib : ClibLibrary J) where
  -- What happens while the process is in its poll.
  abbrev pub pass : Turn (Req J lib) → Process J lib → Process J lib
  pass t p = deliver t.signals (record p { holders = run_threads t.threads p.holders })

  -- The branch for the server: the request loop, then the test of `shutdown_request`.
  unfoldable pub on_server : Turn (Req J lib) → Action (Process J lib) Round
  on_server t = do
    empty ← handle_server_request J lib t.reads t.now
    stop ← gets (λ p. p.shutdown_request)
    pure (if empty then (if stop then leave else again) else stuck)

  -- The branch for a descriptor: one that is not in `pipe_list` is only logged.
  unfoldable pub on_descriptor : ℕ → Action (Process J lib) Round
  on_descriptor fd p = elim (find_pipe fd p.pipe_list) [
    | none ↦ (ok again, p)
    | some name ↦ (handle_plugin_holder J lib name >> pure again) p
  ]

  -- The branches on the result of the poll: -1 is the server, -2 the timeout.
  unfoldable pub on_poll : Turn (Req J lib) → ℤ → Action (Process J lib) Round
  unfolding on_server on_descriptor
  on_poll t (pos fd) = on_descriptor fd
  on_poll t (negsuc n) = if n == 0 then on_server t else (if n == 1 then pure again else pure leave)

  -- `poll_for_data` with POLL_TIMEOUT.
  abbrev pub poll : Turn (Req J lib) → Action (Process J lib) ℤ
  poll t p = let p' = pass t p in with_world (poll_for_data J lib (keys p'.pipe_list) (pos 2)) p'

  -- One round of the loop.
  unfoldable pub round : Turn (Req J lib) → Action (Process J lib) Round
  unfolding on_poll
  round t = do ret ← poll t; on_poll t ret

  -- `while not signal_raised`; false if the loop runs on.
  unfoldable pub poll_loop : List (Turn (Req J lib)) → Action (Process J lib) Bool
  poll_loop [] p = (ok p.signal_raised, p)
  poll_loop (t ∷ ts) p = elim p.signal_raised [
    | true ↦ (ok true, p)
    | false ↦
        (let (r, p') = round t p in
          elim r [
            | err e ↦ (err e, p')
            | ok leave ↦ (ok true, p')
            | ok stuck ↦ (ok false, p')
            | ok again ↦ poll_loop ts p'
          ])
  ]

  -- The end of `main_run`, behind the loop.
  unfoldable pub finish : String → Action (Process J lib) Outcome
  finish proc_name = do
    with_world (deregister_client J lib proc_name)
    unasked ← gets (λ p. not p.shutdown_request && p.signal_raised)
    if unasked then handle_shutdown J lib >> pure (returned (pos 0)) else pure (returned (pos 0))

  -- `main_run` behind the loading.
  unfoldable pub serve : String → List (Turn (Req J lib)) → Action (Process J lib) Outcome
  unfolding finish
  serve proc_name turns = do
    exited ← poll_loop turns
    if exited then finish proc_name else pure running

  module _ (host : Host) where
    -- The `try` statement of `main_run`: an exception ends the loading and is only logged.
    unfoldable pub load_all : Session (Req J lib) → Action (Process J lib) Loaded
    load_all s p =
        let (r, p') = load_plugins J lib host s.actions_conf s.plugins p in
        elim r [ ok done ↦ (ok done, p') | err _ ↦ (ok go_on, p') ]

    -- The tests behind the loading.
    unfoldable pub start_loop :
        String → Session (Req J lib) → Loaded → Action (Process J lib) Outcome
    start_loop proc_name s give_up p = (ok (returned (negsuc 0)), p)
    start_loop proc_name s go_on p = elim p.pipe_list [
      | [] ↦ (ok (returned (negsuc 0)), p)
      | _ ∷ _ ↦ serve proc_name s.turns p
    ]

    -- `main_run`, once the configuration is available; its dictionaries start empty.
    unfoldable pub main_run : String → Session (Req J lib) → Action (Process J lib) Outcome
    unfolding load_all start_loop
    main_run proc_name s = do
      modify (λ p. record p { holders = []; pipe_list = [] })
      ret ← with_world (register_client J lib proc_name)
      if is_true ret then (load_all s >>= start_loop proc_name s) else pure (returned (negsuc 0))

    -- The loop of `main`: the number of calls of `main_run`, and whether the process has ended.
    unfoldable pub main_loop :
        String → List (Session (Req J lib)) → Action (Process J lib) (ℕ × Bool)
    main_loop proc_name [] p = (ok (0, p.shutdown_request || p.sigterm_raised), p)
    main_loop proc_name (s ∷ ss) p = elim (p.shutdown_request || p.sigterm_raised) [
      | true ↦ (ok (0, true), p)
      | false ↦
          (let (r, p') = main_run proc_name s p in
            elim r [
              | err e ↦ (err e, p')
              | ok running ↦ (ok (1, false), p')
              | ok (returned rc) ↦
                  if is_zero rc && not p'.sigusr1_raised
                  then (main_loop proc_name ss >>= λ (k, ended). pure (k + 1, ended)) p'
                  else (ok (1, true), p')
            ])
    ]

    -- `main` behind the set-up of paths and log. `found` is what `ctypes.CDLL` gives, `test_init` what
    -- the import of the test double and its `clib_init` give.
    unfoldable pub main :
        Option Dll
        → Result Bool
        → String
        → List (Session (Req J lib))
        → Action (Process J lib) (ℕ × Bool)
    unfolding main_loop
    main found test_init proc_name sessions p =
        let (r, b) = c_lib_init clib_bind_names found test_init p.world.binding in
        let p' = record p { world = record (p.world) { binding = b } } in
        elim r [
          | err e ↦ (err e, p')
          | ok ready ↦ if ready then main_loop proc_name sessions p' else (ok (0, true), p')
        ]
