-- ===== src/ClibBind/Called/Keeps.antt =====
-- The variables of python_plugins/src/clib_bind.py, and what the client library keeps of its state, over a
-- call of a wrapper.
use sonic_device_health_prtm.Prelude.{String, ◌≡◌, List, ℕ, arith, Bool-cases, inl, inr}
use sonic_device_health_prtm.Prelude.Int.{ℤ}
use sonic_device_health_prtm.Prelude.Action.{Action}
use sonic_device_health_prtm.Json.{JsonModule}
use sonic_device_health_prtm.ClibBind.Load.{Binding, is_in}
use sonic_device_health_prtm.ClibBind.Called.{IsCallKept}
use sonic_device_health_prtm.ClibBind.Calls.{ClibLibrary, World, call}

module _ (J : JsonModule) (lib : ClibLibrary J) where
  module _ (b : Binding) where
    abbrev pub IsBound : World lib.State → Type 0
    IsBound w = w.binding ≡ b

    call-IsBound :
        {A : Type 0} (symbol : String) (f : Action lib.State A) (w : World lib.State)
        → IsBound w
        → IsBound (call symbol f w).1
    unfolding call
    call-IsBound symbol f w e = elim (Bool-cases (is_in symbol w.binding.bound)) [
      | inl bound ↦ ground (arith, bound, e)
      | inr unbound ↦ ground (arith, unbound, e)
    ]

    pub IsBound-IsCallKept : IsCallKept J lib IsBound
    IsBound-IsCallKept = record {
      registers = λ n w. call-IsBound "register_client" (lib.register_client n) w;
      deregisters = λ n w. call-IsBound "deregister_client" (lib.deregister_client n) w;
      registers_action = λ n w. call-IsBound "register_action" (lib.register_action n) w;
      touches = λ n i w. call-IsBound "touch_heartbeat" (lib.touch_heartbeat n i) w;
      reads = λ timeout w. call-IsBound "read_action_request" (lib.read_action_request timeout) w;
      writes = λ t w. call-IsBound "write_action_response" (lib.write_action_response t) w;
      polls = λ fds timeout w. call-IsBound "poll_for_data" (lib.poll_for_data fds timeout) w;
      gets_error = λ w. call-IsBound "get_last_error" lib.get_last_error w;
      gets_error_str = λ w. call-IsBound "get_last_error_str" lib.get_last_error_str w;
    }

  -- What each call of the library keeps of its own state.
  pub record IsLibraryKept (Q : lib.State → Type 0) : Type 0 where
    pub registers : (n : String) (x : lib.State) → Q x → Q (lib.register_client n x).1
    pub deregisters : (n : String) (x : lib.State) → Q x → Q (lib.deregister_client n x).1
    pub registers_action : (n : String) (x : lib.State) → Q x → Q (lib.register_action n x).1
    pub touches : (n i : String) (x : lib.State) → Q x → Q (lib.touch_heartbeat n i x).1
    pub reads : (timeout : ℤ) (x : lib.State) → Q x → Q (lib.read_action_request timeout x).1
    pub writes : (t : J.Text) (x : lib.State) → Q x → Q (lib.write_action_response t x).1
    pub polls :
        (fds : List ℕ) (timeout : ℤ) (x : lib.State) → Q x → Q (lib.poll_for_data fds timeout x).1
    pub gets_error : (x : lib.State) → Q x → Q (lib.get_last_error x).1
    pub gets_error_str : (x : lib.State) → Q x → Q (lib.get_last_error_str x).1

  module _ (Q : lib.State → Type 0) (kept : IsLibraryKept Q) where
    abbrev pub InState : World lib.State → Type 0
    InState w = Q w.ext

    call-InState :
        {A : Type 0} (symbol : String) (f : Action lib.State A) (w : World lib.State)
        → ((x : lib.State) → Q x → Q (f x).1)
        → InState w
        → InState (call symbol f w).1
    unfolding call
    call-InState symbol f w step q = elim (Bool-cases (is_in symbol w.binding.bound)) [
      | inl bound ↦ rw bound (step w.ext q)
      | inr unbound ↦ rw unbound q
    ]

    pub InState-IsCallKept : IsCallKept J lib InState
    InState-IsCallKept = record {
      registers =
          λ n w. call-InState "register_client" (lib.register_client n) w (kept.registers n);
      deregisters =
          λ n w. call-InState "deregister_client" (lib.deregister_client n) w (kept.deregisters n);
      registers_action =
          λ n w. call-InState "register_action" (lib.register_action n) w (kept.registers_action n);
      touches =
          λ n i w. call-InState "touch_heartbeat" (lib.touch_heartbeat n i) w (kept.touches n i);
      reads = λ timeout w.
          call-InState "read_action_request" (lib.read_action_request timeout) w
            (kept.reads timeout);
      writes = λ t w.
          call-InState "write_action_response" (lib.write_action_response t) w (kept.writes t);
      polls = λ fds timeout w.
          call-InState "poll_for_data" (lib.poll_for_data fds timeout) w (kept.polls fds timeout);
      gets_error = λ w. call-InState "get_last_error" lib.get_last_error w kept.gets_error;
      gets_error_str =
          λ w. call-InState "get_last_error_str" lib.get_last_error_str w kept.gets_error_str;
    }
