-- ===== src/Holder/Threads/Reach.antt =====
-- The states of a `LoMPluginHolder` between two calls of its methods by the main thread, and what each
-- method of python_plugins/src/plugin_proc.py makes of them.
use sonic_device_health_prtm.Prelude.{
  Bool, ℕ, Option, ◌<◌, ap, List, ◌≡◌, true, refl, ok, PyError, err, Result, subst, sym, arith,
  Result-cases, inl, inr, ◌∙◌, false, some, ◌∷◌, [], ◌-◌, is_some,
}
use sonic_device_health_prtm.Holder.Defs.{Holder, Plugin, Call, is_alive, write_action_response}
use sonic_device_health_prtm.Holder.Methods.{
  send_request, handle_response, handled, after_calls, shutdown,
}
use sonic_device_health_prtm.Holder.Threads.System.{
  System, IsFresh, Steps, initial, Step, here, next, idle, wake, drain, not_ended, is_ended,
  no_beat, beat, copy, send, no_instance, no_response, has_response, write, clear, reset, busy,
  join, no_thread, refuse, accept, start, touch_now, identify, signal_beat, answer_none,
  request_raises, stamp, signal_end, crashed,
}
use sonic_device_health_prtm.Holder.Threads.Refinement.{
  send_request_runs, handle_response_runs, Lands, Submits,
}
use sonic_device_health_prtm.Holder.Threads.Instance.{no_instance_error}
use sonic_device_health_prtm.ClibBind.Messages.{ActionResponse}
use sonic_device_health_prtm.Holder.Threads.Wakeup.{no_lost_wakeup, unsent_stamped}
use sonic_device_health_prtm.Holder.Threads.Work.{append, ThreadRun}

-- No step reads or writes `plugin`.
replug : {Req : Type 0} → Option Plugin → System Req → System Req
replug q s = record s { holder = record (s.holder) { plugin = q } }

replug-Step :
    {Req : Type 0} {a : Bool} {s t : System Req} (q : Option Plugin)
    → Step a s t
    → Step a (replug q s) (replug q t)
unfolding replug
replug-Step q (wake e p) = wake e p
replug-Step q (drain e) = drain e
replug-Step q (not_ended e p) = not_ended e p
replug-Step q (is_ended e p) = is_ended e p
replug-Step q (no_beat e p) = no_beat e p
replug-Step q (beat e p) = beat e p
replug-Step q (copy e) = copy e
replug-Step q (send id e p) = send id e p
replug-Step q (no_instance e p) = no_instance e p
replug-Step q (no_response e p) = no_response e p
replug-Step q (has_response r e p) = has_response r e p
replug-Step q (write r e p) = write r e p
replug-Step q (clear e) = clear e
replug-Step q (reset e) = reset e
replug-Step q (busy e p d) = busy e p d
replug-Step q (join e p d) = join e p d
replug-Step q (no_thread e p) = no_thread e p
replug-Step q (refuse e p) = refuse e p
replug-Step q (accept e p) = accept e p
replug-Step q (start now req e) = start now req e
replug-Step q (touch_now now id e) = touch_now now id e
replug-Step q (identify id e) = identify id e
replug-Step q (signal_beat e) = signal_beat e
replug-Step q (Step.answer r e) = Step.answer r e
replug-Step q (answer_none e p) = answer_none e p
replug-Step q (request_raises e) = request_raises e
replug-Step q (stamp now p e) = stamp now p e
replug-Step q (signal_end e) = signal_end e

replug-Steps :
    {Req : Type 0} {a : Bool} {s t : System Req} (q : Option Plugin)
    → Steps a s t
    → Steps a (replug q s) (replug q t)
replug-Steps q here = here
replug-Steps q (next r st) = next (replug-Steps q r) (replug-Step q st)

-- `h` is what some interleaving has made of a fresh holder, the main thread being in its poll, with a
-- plugin that never returns None.
pub record Reachable {Req : Type 0} (h : Holder Req) : Type 0 where
  pub first : Holder Req
  pub fresh : IsFresh first
  pub state : System Req
  pub run : Steps true (initial first) state
  pub polls : state.main ≡ idle
  pub same : state.holder ≡ h

module _ {Req : Type 0} where
  pub fresh-Reachable : (h : Holder Req) → IsFresh h → Reachable h
  fresh-Reachable h fresh = record {
    first = h;
    fresh = fresh;
    state = initial h;
    run = here;
    polls = refl;
    same = refl;
  }

  -- A further run that ends in the poll.
  onward :
      {h h' : Holder Req} (r : Reachable h) (t : System Req)
      → Steps true r.state t
      → t.main ≡ idle
      → t.holder ≡ h'
      → Reachable h'
  onward r t run e d = record {
    first = r.first;
    fresh = r.fresh;
    state = t;
    run = append r.run run;
    polls = e;
    same = d;
  }

  pub ThreadRun-Reachable : {h h' : Holder Req} → ThreadRun h h' → Reachable h → Reachable h'
  unfolding ThreadRun
  ThreadRun-Reachable work r =
      let (t, run, e, d) = work r.state r.polls r.same in onward r t run e d

  send_request-raises :
      (now : ℕ) (req : Req) (h : Holder Req) (x : PyError)
      → (send_request now req h).0 ≡ err x
      → (send_request now req h).1 ≡ h
  unfolding send_request
  send_request-raises now req h x e = ground (arith, e)

  -- The request is taken or refused, or the check of the thread raises and changes nothing.
  pub send_request-Reachable :
      (now : ℕ) (req : Req) (h : Holder Req) → Reachable h → Reachable (send_request now req h).1
  send_request-Reachable now req h r =
      let s = r.state in
      let (t, run, lands) = send_request_runs now req s r.polls in
      let x : Result (Unit {0}) × Holder Req = send_request now req s.holder in
      subst (λ g. Reachable (send_request now req g).1) r.same
        (elim (Result-cases x.0) [
          | inl (u, e) ↦
              let l = subst (λ y. Submits s req (y, x.1) t) e lands in onward r t run l.0 l.1
          | inr (y, e) ↦ subst Reachable (sym (send_request-raises now req s.holder y e ∙ r.same)) r
        ])

  handled-raises :
      (h : Holder Req) (x : PyError)
      → (handled h).0 ≡ err x
      → x ≡ PyError.attribute_error "instance_id"
  unfolding handled
  handled-raises h x e = ground (arith, e)

  -- `handle_response` on a readable pipe raises nothing but what the library does.
  pub handled-Reachable :
      (h : Holder Req)
      → Reachable h
      → 0 < h.pipe
      → (calls : List Call) × ((handled h).0 ≡ ok calls) × Reachable (handled h).1
  handled-Reachable h r p =
      let s = r.state in
      let (t, run, lands) =
        handle_response_runs s r.polls (subst (λ g. 0 < g.pipe) (sym r.same) p) in
      let x : Result (List Call) × Holder Req = handled s.holder in
      subst (λ g. (calls : List Call) × ((handled g).0 ≡ ok calls) × Reachable (handled g).1) r.same
        (elim (Result-cases x.0) [
          | inl (calls, e) ↦
              let l = subst (λ y. Lands s (y, x.1) t) e lands in (calls, e, onward r t run l.0 l.1)
          | inr (y, e) ↦
              let l = subst (λ z. Lands s (z, x.1) t) e lands in
              let why = ap crashed (handled-raises s.holder y e) in
              absurd
                (no_instance_error r.first r.fresh (append r.run run) "instance_id" (l.0 ∙ why))
        ])

  -- The calls that `handle_response` makes, and what it leaves behind them.
  pub handled-calls :
      (h : Holder Req) (calls : List Call)
      → (handled h).0 ≡ ok calls
      → (handle_response h ≡ (ok calls, (handle_response h).1))
        × ((handled h).1 ≡ after_calls calls (handle_response h).1)
  unfolding handled
  handled-calls h calls e = elim (Result-cases (handle_response h).0) [
    | inl (cs, r) ↦ (ground (arith, e, r), ground (arith, e, r))
    | inr (x, r) ↦ absurd (ground (arith, e, r))
  ]

  pub replug-Reachable :
      (h : Holder Req) (q : Option Plugin) → Reachable h → Reachable (record h { plugin = q })
  unfolding replug
  replug-Reachable h q r = record {
    first = record (r.first) { plugin = q };
    fresh = r.fresh;
    state = replug q r.state;
    run = replug-Steps q r.run;
    polls = r.polls;
    same = ap {A = Holder Req} (λ g. record g { plugin = q }) r.same;
  }

  pub shutdown-Reachable : (h h' : Holder Req) → shutdown h ≡ ok h' → Reachable h → Reachable h'
  unfolding shutdown
  shutdown-Reachable h h' e r = subst Reachable (ground (arith, e)) (replug-Reachable h h'.plugin r)

  -- An ended thread's unsent response is signalled, and `handle_response` calls for its sending.
  pub Reachable-delivers :
      (h : Holder Req) (r : ActionResponse)
      → Reachable h
      → is_alive h.thread ≡ false
      → h.response ≡ some r
      → (0 < h.pipe)
        × (handle_response h
            ≡ (ok (write_action_response r ∷ []), record h { pipe = h.pipe - 100 }))
  unfolding handle_response
  Reachable-delivers h r reach dead has =
      let s = reach.state in
      let dead' = ap {A = Holder Req} (λ g. is_alive g.thread) reach.same ∙ dead in
      let unsent : is_some s.holder.response ≡ true =
        ap {A = Holder Req} (λ g. is_some g.response) reach.same ∙ ap is_some has in
      let readable = no_lost_wakeup reach.first reach.fresh reach.run reach.polls dead' unsent in
      let stamped = unsent_stamped reach.first reach.fresh reach.run reach.polls dead' unsent in
      let stamped' : 0 < h.req_end = subst (λ g. 0 < g.req_end) reach.same stamped in
      (subst (λ g. 0 < g.pipe) reach.same readable, ground (arith, stamped', has))
