-- ===== src/Holder/Threads/System.antt =====
-- The main thread and the request thread of one `LoMPluginHolder` of
-- python_plugins/src/plugin_proc.py, interleaved in any order. The calls to the library return;
-- `signal_end` is the write to the pipe and the end of the thread behind it.
use sonic_device_health_prtm.Prelude.{
  ℕ, ◌+◌, ◌-◌, ◌<◌, ◌≡◌, Bool, true, false, Option, none, some, List, [], ◌∷◌, ◌++◌, is_some,
  PyError,
}
use sonic_device_health_prtm.Json.{Json}
use sonic_device_health_prtm.ClibBind.Messages.{ActionResponse}
use sonic_device_health_prtm.Holder.Defs.{
  not_started, running, touched, identified, responded, stamped, finished, Holder, is_alive,
  same_touch, Call, touch_heartbeat, write_action_response,
}

-- Where the main thread stands with this holder: the next statement of `handle_response`,
-- `send_heartbeat` or `send_request`; `idle` is the poll, or work on another holder.
pub data Main : Type 0 where
  idle : Main
  draining : Main  -- `self._drain_signal()`
  drained : Main  -- `if not self.req_end`
  beating : Main  -- `if self.touchSent != self.touch`
  copying : Main  -- `self.touchSent = self.touch`
  sending : Main  -- `clib_bind.touch_heartbeat(self.name, self.instance_id)`
  ended : Main  -- `if self.response == None`
  writing : Main  -- `clib_bind.write_action_response(self.response)`
  clearing : Main  -- `self.response = None`
  resetting : Main  -- `self.req_end = 0`
  checking : Main  -- `if self.response` of `send_request`
  starting : Main  -- the assignments and `self.thr.start()` of `send_request`
  crashed : PyError → Main

-- `wire` is what the main thread has sent to the server. `submitted` and `returned` record what was
-- handed to the plugin and what it returned, the latest last.
pub record System (Req : Type 0) : Type 0 where
  pub holder : Holder Req
  pub main : Main
  pub wire : List Call
  pub submitted : List Req
  pub returned : List (Option ActionResponse)

module _ {Req : Type 0} where
  -- One access by one of the threads. With `answers` true the plugin never returns None.
  pub data Step (answers : Bool) (s : System Req) : System Req → Type 0 where
    -- the main thread: `handle_response`, when the poll has found the pipe readable
    wake : s.main ≡ idle → 0 < s.holder.pipe → Step answers s (record s { main = draining })
    drain :
        s.main ≡ draining
        → Step answers s
            (record s { holder = record (s.holder) { pipe = s.holder.pipe - 100 }; main = drained })
    not_ended :
        s.main ≡ drained → s.holder.req_end ≡ 0 → Step answers s (record s { main = beating })
    is_ended : s.main ≡ drained → 0 < s.holder.req_end → Step answers s (record s { main = ended })
    no_beat :
        s.main ≡ beating
        → same_touch s.holder.touch_sent s.holder.touch ≡ true
        → Step answers s (record s { main = idle })
    beat :
        s.main ≡ beating
        → same_touch s.holder.touch_sent s.holder.touch ≡ false
        → Step answers s (record s { main = copying })
    copy :
        s.main ≡ copying
        → Step answers s (record s {
          holder = record (s.holder) { touch_sent = s.holder.touch };
          main = sending;
        })
    send :
        (id : Json)
        → s.main ≡ sending
        → s.holder.instance_id ≡ some id
        → Step answers s
            (record s { main = idle; wire = s.wire ++ (touch_heartbeat s.holder.name id ∷ []) })
    no_instance :
        s.main ≡ sending
        → s.holder.instance_id ≡ none
        → Step answers s (record s { main = crashed (PyError.attribute_error "instance_id") })
    no_response :
        s.main ≡ ended → s.holder.response ≡ none → Step answers s (record s { main = idle })
    has_response :
        (r : ActionResponse)
        → s.main ≡ ended
        → s.holder.response ≡ some r
        → Step answers s (record s { main = writing })
    write :
        (r : ActionResponse)
        → s.main ≡ writing
        → s.holder.response ≡ some r
        → Step answers s
            (record s { main = clearing; wire = s.wire ++ (write_action_response r ∷ []) })
    clear :
        s.main ≡ clearing
        → Step answers s
            (record s { holder = record (s.holder) { response = none }; main = resetting })
    reset :
        s.main ≡ resetting
        → Step answers s (record s { holder = record (s.holder) { req_end = 0 }; main = idle })
    -- the main thread: `send_request`
    busy :
        s.main ≡ idle
        → s.holder.thr ≡ true
        → is_alive s.holder.thread ≡ true
        → Step answers s (record s { main = crashed (PyError.name_error "take") })
    join :
        s.main ≡ idle
        → s.holder.thr ≡ true
        → is_alive s.holder.thread ≡ false
        → Step answers s (record s { holder = record (s.holder) { thr = false }; main = checking })
    no_thread : s.main ≡ idle → s.holder.thr ≡ false → Step answers s (record s { main = checking })
    refuse :
        s.main ≡ checking
        → is_some s.holder.response ≡ true
        → Step answers s (record s { main = idle })
    accept :
        s.main ≡ checking
        → is_some s.holder.response ≡ false
        → Step answers s (record s { main = starting })
    start :
        (now : ℕ) (req : Req)
        → s.main ≡ starting
        → Step answers s (record s {
          holder = record (s.holder) {
            req_start = now;
            last_request = some req;
            thr = true;
            thread = running;
          };
          main = idle;
          submitted = s.submitted ++ (req ∷ []);
        })
    -- the request thread: `do_touch_heartbeat`, called by the plugin
    touch_now :
        (now : ℕ) (id : Json)
        → s.holder.thread ≡ running
        → Step answers s
            (record s { holder = record (s.holder) { touch = some now; thread = touched id } })
    identify :
        (id : Json)
        → s.holder.thread ≡ touched id
        → Step answers s
            (record s { holder = record (s.holder) { instance_id = some id; thread = identified } })
    signal_beat :
        s.holder.thread ≡ identified
        → Step answers s
            (record s { holder = record (s.holder) { pipe = s.holder.pipe + 5; thread = running } })
    -- the request thread: the plugin returns, and `_run_request` goes on
    answer :
        (r : ActionResponse)
        → s.holder.thread ≡ running
        → Step answers s (record s {
          holder = record (s.holder) { response = some r; thread = responded };
          returned = s.returned ++ (some r ∷ []);
        })
    answer_none :
        answers ≡ false
        → s.holder.thread ≡ running
        → Step answers s (record s {
          holder = record (s.holder) { response = none; thread = responded };
          returned = s.returned ++ (none ∷ []);
        })
    -- an exception of the plugin ends the thread
    request_raises :
        s.holder.thread ≡ running
        → Step answers s (record s { holder = record (s.holder) { thread = finished } })
    stamp :
        (now : ℕ)
        → 0 < now
        → s.holder.thread ≡ responded
        → Step answers s
            (record s { holder = record (s.holder) { req_end = now; thread = stamped } })
    signal_end :
        s.holder.thread ≡ stamped
        → Step answers s (record s {
          holder = record (s.holder) { pipe = s.holder.pipe + 5; thread = finished };
        })

  -- The holder as `main_run` leaves it before the loop: `h` has run no request.
  abbrev pub initial : Holder Req → System Req
  initial h = record { holder = h; main = idle; wire = []; submitted = []; returned = [] }

  pub data Steps (answers : Bool) (s : System Req) : System Req → Type 0 where
    here : Steps answers s s
    next : {t u : System Req} → Steps answers s t → Step answers t u → Steps answers s u

  -- A holder that has not run a request yet, whatever plugin and pipe it was given.
  abbrev pub IsFresh : Holder Req → Type 0
  IsFresh h =
      (h.pipe ≡ 0)
      × (h.thr ≡ false)
      × (h.thread ≡ not_started)
      × (h.response ≡ none)
      × (h.req_end ≡ 0)
      × (h.touch ≡ none)
      × (h.touch_sent ≡ none)
      × (h.instance_id ≡ none)
