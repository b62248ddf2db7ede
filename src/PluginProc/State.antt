-- ===== src/PluginProc/State.antt =====
-- The variables of the main thread of python_plugins/src/plugin_proc.py, and its environment.
use sonic_device_health_prtm.Prelude.{
  ℕ, String, Bool, true, Option, none, some, List, [], ◌∷◌, ◌==◌, if◌then◌else◌,
}
use sonic_device_health_prtm.Prelude.Action.{Action}
use sonic_device_health_prtm.Prelude.Dict.{Dict}
use sonic_device_health_prtm.Holder.Defs.{Holder}
use sonic_device_health_prtm.ClibBind.Calls.{World}

-- `signal.SIGHUP`, `signal.SIGUSR1`, `signal.SIGTERM`: those that the handler is registered for.
pub data Signal : Type 0 where
  sighup sigusr1 sigterm : Signal

-- The module variables and the locals `active_plugin_holders` and `pipe_list` of `main_run`.
pub record Proc (Req Ext : Type 0) : Type 0 where
  pub world : World Ext
  pub holders : Dict (Holder Req)
  pub pipe_list : List (ℕ × String)
  pub pipes_made : ℕ
  pub signal_raised : Bool
  pub sigusr1_raised : Bool
  pub sigterm_raised : Bool
  pub shutdown_request : Bool

-- What goes on while the main thread polls: the request threads change their holders, signals come
-- in, and time passes. `reads` bounds the requests that the server has sent until the next poll.
pub record Turn (Req : Type 0) : Type 0 where
  pub threads : String → Holder Req → Holder Req
  pub signals : List Signal
  pub now : ℕ
  pub reads : ℕ

module _ {Req Ext : Type 0} where
  -- A call into clib_bind.
  abbrev pub with_world : {A : Type 0} → Action (World Ext) A → Action (Proc Req Ext) A
  with_world m p = let (r, w) = m p.world in (r, record p { world = w })

  -- `signal_handler`
  unfoldable pub signal_handler : Signal → Proc Req Ext → Proc Req Ext
  signal_handler sighup p = record p { signal_raised = true }
  signal_handler sigusr1 p = record p { signal_raised = true; sigusr1_raised = true }
  signal_handler sigterm p = record p { signal_raised = true; sigterm_raised = true }

  unfoldable pub deliver : List Signal → Proc Req Ext → Proc Req Ext
  unfolding signal_handler
  deliver [] p = p
  deliver (s ∷ ss) p = deliver ss (signal_handler s p)

-- `pipe_list[fd]`
abbrev pub find_pipe : ℕ → List (ℕ × String) → Option String
find_pipe fd [] = none
find_pipe fd ((k, name) ∷ rest) = if k == fd then some name else find_pipe fd rest

-- `list(pipe_list.keys())`
abbrev pub keys : List (ℕ × String) → List ℕ
keys [] = []
keys ((k, _) ∷ rest) = k ∷ keys rest

-- Every holder after its own thread's work.
abbrev pub run_threads :
    {Req : Type 0} → (String → Holder Req → Holder Req) → Dict (Holder Req) → Dict (Holder Req)
run_threads f [] = []
run_threads f ((name, h) ∷ rest) = (name, f name h) ∷ run_threads f rest
