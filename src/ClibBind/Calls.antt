-- ===== src/ClibBind/Calls.antt =====
-- The wrappers of python_plugins/src/clib_bind.py round the client library's calls. The library itself
-- is the interface `ClibLibrary`; its state is the server connection.
use sonic_device_health_prtm.Prelude.{
  ℕ, String, Bool, true, false, Option, none, some, List, Result, ok, err, PyError, if◌then◌else◌,
  ◌==◌,
}
use sonic_device_health_prtm.Prelude.Int.{ℤ, pos, negsuc}
use sonic_device_health_prtm.Prelude.Action.{Action, pure, lift, ◌>>=◌, ◌>>◌, gets, raise}
use sonic_device_health_prtm.Json.{Json, text, JsonModule}
use sonic_device_health_prtm.ClibBind.Load.{Binding, is_in, validate_dll, clib_bind_names, name}
use sonic_device_health_prtm.ClibBind.Messages.{
  ActionRequest, new_request, ActionResponse, response_text,
}
use sonic_device_health_prtm.Holder.Defs.{touch_heartbeat, write_action_response, Call}

-- What a registering wrapper returns: a Boolean, or the tuple `(False, {})`, which is true as a value.
pub data Reply : Type 0 where
  boolean : Bool → Reply
  pair : Reply

abbrev pub is_true : Reply → Bool
is_true (boolean b) = b
is_true pair = true

-- `v.encode("utf-8")`: only a text has the method.
abbrev pub encode : Json → Result String
encode (text s) = ok s
encode other = err (PyError.attribute_error "encode")

abbrev pub is_zero : ℤ → Bool
is_zero (pos n) = n == 0
is_zero (negsuc _) = false

-- `ret == 0` of a code that may be None.
abbrev pub is_success : Option ℤ → Bool
is_success none = false
is_success (some n) = is_zero n

-- The client library. A call of it returns, or raises, as Python code in its place can. Where the
-- result is an option, the call may return None: ctypes gives that for a text that is NULL. Of the
-- codes but the poll's only the difference from 0 is read.
pub record ClibLibrary (J : JsonModule) : Type 1 where
  pub State : Type 0
  pub register_client : String → Action State ℤ
  pub deregister_client : String → Action State (Option ℤ)
  pub register_action : String → Action State ℤ
  pub touch_heartbeat : String → String → Action State ℤ
  pub read_action_request : ℤ → Action State (Option (J.Text))
  pub write_action_response : J.Text → Action State (Option ℤ)
  pub poll_for_data : List ℕ → ℤ → Action State (Option ℤ)
  pub get_last_error : Action State ℤ
  pub get_last_error_str : Action State (J.Text)

-- The module variables of clib_bind, and the library's state.
pub record World (Ext : Type 0) : Type 0 where
  pub binding : Binding
  pub ext : Ext

-- A call through a pointer that `c_lib_init` has not set is a call of None.
unfoldable pub call : {Ext A : Type 0} → String → Action Ext A → Action (World Ext) A
call symbol f w =
    if is_in symbol w.binding.bound
    then (let (r, x) = f w.ext in (r, record w { ext = x }))
    else (err PyError.type_error, w)

-- The common shape of `register_client` and `register_action`.
abbrev if_loaded : {Ext : Type 0} → Action (World Ext) ℤ → Action (World Ext) Reply
if_loaded m w =
    if validate_dll w.binding then (m >>= λ ret. pure (boolean (is_zero ret))) w else (ok pair, w)

module _ (J : JsonModule) (lib : ClibLibrary J) where
  abbrev pub Client : Type 0 → Type 0
  Client = Action (World lib.State)

  unfoldable pub register_client : String → Client Reply
  unfolding call validate_dll
  register_client proc_id = if_loaded (call "register_client" (lib.register_client proc_id))

  unfoldable pub register_action : String → Client Reply
  unfolding call validate_dll
  register_action action = if_loaded (call "register_action" (lib.register_action action))

  -- It returns None, or the tuple; nothing reads that.
  unfoldable pub deregister_client : String → Client (Unit {0})
  unfolding call validate_dll
  deregister_client proc_id w =
      if validate_dll w.binding
      then (call "deregister_client" (lib.deregister_client proc_id) >> pure tt) w
      else (ok tt, w)

  unfoldable pub send_touch : String → Json → Client Reply
  unfolding call validate_dll
  send_touch action instance_id =
      if_loaded
        (do id ← lift (encode instance_id); call "touch_heartbeat" (lib.touch_heartbeat action id))

  -- `get_last_error`, of which the code is tested.
  unfoldable pub last_error : Client ℤ
  unfolding call
  last_error = do
    e ← call "get_last_error" lib.get_last_error
    call "get_last_error_str" lib.get_last_error_str
    pure e

  -- `read_action_request` on the text that was read; `none` is `(False, None)`.
  unfoldable pub parse_request : J.Text → Client (Option (ActionRequest (J.Text)))
  unfolding call last_error
  parse_request req w =
      if J.is_empty req
      then (last_error >> pure none) w
      else elim (new_request J w.binding.gvars req) [ err e ↦ (err e, w) | ok q ↦ (ok (some q), w) ]

  -- `.decode("utf-8")` of what was read, and the rest: None has no such method.
  unfoldable pub after_call :
      Result (Option (J.Text)) × World lib.State
      → Result (Option (ActionRequest (J.Text))) × World lib.State
  after_call (err e, w) = (err e, w)
  after_call (ok none, w) = (err (PyError.attribute_error "decode"), w)
  after_call (ok (some t), w) = parse_request t w

  unfoldable pub read_action_request : ℤ → Client (Option (ActionRequest (J.Text)))
  unfolding call validate_dll after_call
  read_action_request timeout w =
      if validate_dll w.binding
      then after_call (call "read_action_request" (lib.read_action_request timeout) w)
      else (ok none, w)

  -- `write_action_response`; `response_text` is `res.value()`.
  unfoldable pub send_response : ActionResponse → Client Bool
  unfolding call validate_dll
  send_response res w =
      if validate_dll w.binding
      then (do
        g ← gets (λ w'. w'.binding.gvars)
        ret ← call "write_action_response" (lib.write_action_response (response_text J g res))
        pure (is_success ret))
          w
      else (ok false, w)

  -- An answer of None raises where the caller compares it with a number.
  unfoldable pub answered : Option ℤ → Client ℤ
  answered none = raise PyError.type_error
  answered (some ret) = pure ret

  -- `poll_for_data`. Without the library it returns False, which is the number 0. Outside the test
  -- mode it evaluates `c_int`.
  unfoldable pub poll_for_data : List ℕ → ℤ → Client ℤ
  unfolding call validate_dll answered
  poll_for_data fds timeout w =
      if validate_dll w.binding
      then (do
        lift (if w.binding.gvars.test_run then ok tt else name clib_bind_names "c_int")
        ret ← call "poll_for_data" (lib.poll_for_data fds timeout)
        answered ret)
          w
      else (ok (pos 0), w)

  -- A call that a holder makes, whose result it ignores.
  unfoldable pub perform : Call → Client (Unit {0})
  unfolding send_touch send_response
  perform (touch_heartbeat name id) = send_touch name id >> pure tt
  perform (write_action_response r) = send_response r >> pure tt
