-- ===== src/ClibBind/Called.antt =====
-- What a call of a wrapper of python_plugins/src/clib_bind.py makes of its module and of the library.
pub mod Keeps
use mathlib.Core.Bool.{true, false}
use sonic_device_health_prtm.Prelude.{
  String, List, ℕ, Result, Option, err, ok, some, none, Bool, if◌then◌else◌, Result-cases, true,
  inl, inr,
}
use sonic_device_health_prtm.Prelude.Int.{ℤ}
use sonic_device_health_prtm.Prelude.Action.{bind-keeps, pure, lift, ◌>>◌, ◌>>=◌}
use sonic_device_health_prtm.Json.{JsonModule, Json}
use sonic_device_health_prtm.ClibBind.Calls.{
  ClibLibrary, World, register_client, deregister_client, register_action, perform,
  read_action_request, poll_for_data, send_touch, call, after_call, parse_request, send_response,
  last_error, boolean, is_zero, encode, is_success, answered, Client,
}
use sonic_device_health_prtm.Holder.Defs.{touch_heartbeat, write_action_response, Call}
use sonic_device_health_prtm.ClibBind.Load.{name, validate_dll, clib_bind_names}
use sonic_device_health_prtm.ClibBind.Messages.{new_request, ActionRequest, response_text}

module _ (J : JsonModule) (lib : ClibLibrary J) where
  -- The second state is what one of the wrappers, or none, has left of the first.
  pub data Called (w : World lib.State) : World lib.State → Type 0 where
    not_called : Called w w
    registering : (name : String) → Called w (register_client J lib name w).1
    deregistering : (name : String) → Called w (deregister_client J lib name w).1
    registering_action : (name : String) → Called w (register_action J lib name w).1
    performing : (c : Call) → Called w (perform J lib c w).1
    reading : (timeout : ℤ) → Called w (read_action_request J lib timeout w).1
    polling : (fds : List ℕ) (timeout : ℤ) → Called w (poll_for_data J lib fds timeout w).1

  -- A predicate on the module's variables and the library's state that each call of the library keeps.
  pub record IsCallKept (P : World lib.State → Type 0) : Type 0 where
    pub registers :
        (n : String) (w : World lib.State)
        → P w
        → P (call "register_client" (lib.register_client n) w).1
    pub deregisters :
        (n : String) (w : World lib.State)
        → P w
        → P (call "deregister_client" (lib.deregister_client n) w).1
    pub registers_action :
        (n : String) (w : World lib.State)
        → P w
        → P (call "register_action" (lib.register_action n) w).1
    pub touches :
        (n i : String) (w : World lib.State)
        → P w
        → P (call "touch_heartbeat" (lib.touch_heartbeat n i) w).1
    pub reads :
        (timeout : ℤ) (w : World lib.State)
        → P w
        → P (call "read_action_request" (lib.read_action_request timeout) w).1
    pub writes :
        (t : J.Text) (w : World lib.State)
        → P w
        → P (call "write_action_response" (lib.write_action_response t) w).1
    pub polls :
        (fds : List ℕ) (timeout : ℤ) (w : World lib.State)
        → P w
        → P (call "poll_for_data" (lib.poll_for_data fds timeout) w).1
    pub gets_error : (w : World lib.State) → P w → P (call "get_last_error" lib.get_last_error w).1
    pub gets_error_str :
        (w : World lib.State) → P w → P (call "get_last_error_str" lib.get_last_error_str w).1

  module _ (P : World lib.State → Type 0) (kept : IsCallKept P) where
    either-Kept :
        {A : Type 0} (c : Bool) (x y : A × World lib.State)
        → P x.1
        → P y.1
        → P (if c then x else y).1
    either-Kept true x y p q = p
    either-Kept false x y p q = q

    last_error-Kept : (w : World lib.State) → P w → P (last_error J lib w).1
    unfolding last_error
    last_error-Kept w e =
        bind-keeps P (call "get_last_error" lib.get_last_error) text_then w (kept.gets_error w e)
          (λ e' v h.
            bind-keeps P (call "get_last_error_str" lib.get_last_error_str) (λ _. pure e') v
              (kept.gets_error_str v h) (λ _ _ k. k))
      where
        text_then : ℤ → Client J lib ℤ
        text_then e' = call "get_last_error_str" lib.get_last_error_str >> pure e'

    parse_request-Kept : (t : J.Text) (w : World lib.State) → P w → P (parse_request J lib t w).1
    unfolding parse_request
    parse_request-Kept t w e =
        either-Kept (J.is_empty t) _ _
          (bind-keeps P (last_error J lib) (λ _. blank) w (last_error-Kept w e) (λ _ _ h. h))
          (elim (Result-cases (new_request J w.binding.gvars t)) [
            | inl (q, f) ↦ rw f e
            | inr (x, f) ↦ rw f e
          ])
      where
        blank : Client J lib (Option (ActionRequest (J.Text)))
        blank = pure none

    after_call-Kept :
        (r : Result (Option (J.Text))) (w : World lib.State) → P w → P (after_call J lib (r, w)).1
    unfolding after_call
    after_call-Kept (err x) w e = e
    after_call-Kept (ok none) w e = e
    after_call-Kept (ok (some t)) w e = parse_request-Kept t w e

    answered-Kept : (o : Option ℤ) (w : World lib.State) → P w → P (answered J lib o w).1
    unfolding answered
    answered-Kept none w e = e
    answered-Kept (some n) w e = e

    beat-Kept :
        (action : String) (id : Json) (w : World lib.State)
        → P w
        → P (send_touch J lib action id w).1
    unfolding send_touch
    beat-Kept action id w e =
        either-Kept (validate_dll w.binding) _ _
          (bind-keeps P touches (λ ret. pure (boolean (is_zero ret))) w
            (bind-keeps P (lift (encode id))
              (λ i. call "touch_heartbeat" (lib.touch_heartbeat action i)) w e
              (λ i v h. kept.touches action i v h))
            (λ _ _ h. h))
          e
      where
        touches : Client J lib ℤ
        touches = lift (encode id) >>= λ i. call "touch_heartbeat" (lib.touch_heartbeat action i)

    -- What each call keeps, each wrapper keeps.
    pub Called-Kept : {w w' : World lib.State} → Called w w' → P w → P w'
    unfolding register_client deregister_client register_action perform send_response
        read_action_request poll_for_data
    Called-Kept not_called e = e
    Called-Kept {w} (registering name) e =
        either-Kept (validate_dll w.binding) _ _
          (bind-keeps P (call "register_client" (lib.register_client name))
            (λ ret. pure (boolean (is_zero ret))) w (kept.registers name w e) (λ _ _ h. h))
          e
    Called-Kept {w} (deregistering name) e =
        either-Kept (validate_dll w.binding) _ _
          (bind-keeps P (call "deregister_client" (lib.deregister_client name)) (λ _. pure tt) w
            (kept.deregisters name w e) (λ _ _ h. h))
          e
    Called-Kept {w} (registering_action name) e =
        either-Kept (validate_dll w.binding) _ _
          (bind-keeps P (call "register_action" (lib.register_action name))
            (λ ret. pure (boolean (is_zero ret))) w (kept.registers_action name w e) (λ _ _ h. h))
          e
    Called-Kept {w} (performing (touch_heartbeat name id)) e =
        bind-keeps P (send_touch J lib name id) (λ _. pure tt) w (beat-Kept name id w e)
          (λ _ _ h. h)
    Called-Kept {w} (performing (write_action_response r)) e =
        bind-keeps P (send_response J lib r) (λ _. pure tt) w
          (either-Kept (validate_dll w.binding) _ _
            (bind-keeps P
              (call "write_action_response"
                (lib.write_action_response (response_text J w.binding.gvars r)))
              (λ ret. pure (is_success ret)) w (kept.writes (response_text J w.binding.gvars r) w e)
              (λ _ _ h. h))
            e)
          (λ _ _ h. h)
    Called-Kept {w} (reading timeout) e =
        let called = call "read_action_request" (lib.read_action_request timeout) w in
        either-Kept (validate_dll w.binding) _ _
          (after_call-Kept called.0 called.1 (kept.reads timeout w e)) e
    Called-Kept {w} (polling fds timeout) e =
        either-Kept (validate_dll w.binding) _ _
          (bind-keeps P
            (lift (if w.binding.gvars.test_run then ok tt else name clib_bind_names "c_int"))
            (λ _. polls >>= answered J lib) w e
            (λ _ v h.
              bind-keeps P polls (answered J lib) v (kept.polls fds timeout v h)
                (λ o u k. answered-Kept o u k)))
          e
      where
        polls : Client J lib (Option ℤ)
        polls = call "poll_for_data" (lib.poll_for_data fds timeout)
