-- ===== src/Holder/Defs.antt =====
-- The attributes of `LoMPluginHolder` in python_plugins/src/plugin_proc.py.
use sonic_device_health_prtm.Prelude.{ℕ, String, Bool, true, false, Option, none, some, ◌==◌}
use sonic_device_health_prtm.Json.{Json}
use sonic_device_health_prtm.ClibBind.Messages.{ActionResponse}

-- What a loaded plugin object shows to its holder.
pub record Plugin : Type 0 where
  pub get_name : String
  pub valid : Bool
  pub shutdown_flag : Bool

-- Where the request thread stands: in the plugin's `request`, in the two halves of
-- `do_touch_heartbeat`, and after each statement of `_run_request`.
pub data Thread : Type 0 where
  not_started running : Thread
  touched : Json → Thread  -- before `self.instance_id = instance_id`
  identified : Thread  -- before `self._raise_signal()` of the heartbeat
  responded : Thread  -- before `self.req_end = time.time()`
  stamped : Thread  -- before `self._raise_signal()` of the completion
  finished : Thread

-- `pipe` counts the bytes that are in the pipe. `instance_id` does not exist before the first touch.
pub record Holder (Req : Type 0) : Type 0 where
  pub name : String
  pub plugin : Option Plugin
  pub fds : Option (ℕ × ℕ)
  pub pipe : ℕ
  pub thr : Bool
  pub thread : Thread
  pub response : Option ActionResponse
  pub last_request : Option Req
  pub req_start : ℕ
  pub req_end : ℕ
  pub touch : Option ℕ
  pub touch_sent : Option ℕ
  pub instance_id : Option Json
  pub action_pause : Option Json

-- `self.thr.is_alive()`
abbrev pub is_alive : Thread → Bool
is_alive not_started = false
is_alive finished = false
is_alive _ = true

-- `a == b` for timestamps that may be None.
abbrev pub same_touch : Option ℕ → Option ℕ → Bool
same_touch none none = true
same_touch (some a) (some b) = a == b
same_touch _ _ = false

-- The calls of clib_bind that a holder makes.
pub data Call : Type 0 where
  touch_heartbeat : String → Json → Call
  write_action_response : ActionResponse → Call

-- The fields as `__init__` sets them before the plugin is loaded.
unfoldable pub blank : {Req : Type 0} → Option Json → Holder Req
blank pause = record {
  name = "";
  plugin = none;
  fds = none;
  pipe = 0;
  thr = false;
  thread = not_started;
  response = none;
  last_request = none;
  req_start = 0;
  req_end = 0;
  touch = none;
  touch_sent = none;
  instance_id = none;
  action_pause = pause;
}
