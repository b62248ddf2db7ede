-- ===== src/PluginProc/Requests.antt =====
-- `handle_shutdown`, `handle_server_request` and `handle_plugin_holder` of
-- python_plugins/src/plugin_proc.py.
pub mod Shutdown
pub mod Dispatch
pub mod Queue
pub mod Stable
pub mod Keep
pub mod Handled
use sonic_device_health_prtm.Prelude.{
  ℕ, zero, suc, String, Bool, true, false, none, some, List, [], ◌∷◌, if◌then◌else◌, Result, ok,
  err, PyError, Option,
}
use sonic_device_health_prtm.Prelude.Int.{pos}
use sonic_device_health_prtm.Prelude.Action.{Action, pure, ◌>>=◌, ◌>>◌}
use sonic_device_health_prtm.Prelude.Dict.{Dict, lookup, insert}
use sonic_device_health_prtm.Json.{arr, obj, Json, text, JsonModule}
use sonic_device_health_prtm.Holder.Defs.{Holder, Call}
use sonic_device_health_prtm.Holder.Methods.{
  shutdown, send_request, handle_response, is_valid, after_calls,
}
use sonic_device_health_prtm.ClibBind.Messages.{ActionRequest, is_shutdown}
use sonic_device_health_prtm.ClibBind.Calls.{ClibLibrary, read_action_request, perform, World}
use sonic_device_health_prtm.PluginProc.State.{Proc, with_world}

-- The loop of `handle_shutdown`: the holders behind the first that raises are not asked.
unfoldable pub shutdown_all :
    {Req : Type 0} → Dict (Holder Req) → Result (Unit {0}) × Dict (Holder Req)
shutdown_all [] = (ok tt, [])
shutdown_all ((name, h) ∷ rest) =
    let (r, rest') = shutdown_all rest in
    elim (shutdown h) [ err e ↦ (err e, (name, h) ∷ rest) | ok h' ↦ (r, (name, h') ∷ rest') ]

module _ (J : JsonModule) (lib : ClibLibrary J) where
  abbrev pub Req : Type 0
  Req = ActionRequest (J.Text)

  abbrev pub Process : Type 0
  Process = Proc Req (lib.State)

  unfoldable pub handle_shutdown : Action Process (Unit {0})
  unfolding shutdown_all
  handle_shutdown p =
      let (r, holders) = shutdown_all p.holders in
      elim r [
        | ok _ ↦ (ok tt, record p { holders = holders; shutdown_request = true })
        | err e ↦ (err e, record p { holders = holders })
      ]

  -- A method of the holder in `active_plugin_holders[name]`.
  abbrev pub on_holder :
      {A : Type 0} → String → (Holder Req → Result A × Holder Req) → Action Process A
  on_holder name f p = elim (lookup name p.holders) [
    | none ↦ (err (PyError.key_error name), p)
    | some h ↦ (let (r, h') = f h in (r, record p { holders = insert name h' p.holders }))
  ]

  -- The branches behind `is_shutdown`, for the value of `req.action_name`. Both error branches format
  -- the undefined `action_name`. A list or a dict is no key.
  unfoldable pub dispatch_action : ℕ → Req → Json → Action Process (Unit {0})
  dispatch_action now req (text name) p = elim (lookup name p.holders) [
    | none ↦ (err (PyError.name_error "action_name"), p)
    | some h ↦
        if is_valid h
        then on_holder name (send_request now req) p
        else (err (PyError.name_error "action_name"), p)
  ]
  dispatch_action now req (arr _) p = (err PyError.type_error, p)
  dispatch_action now req (obj _) p = (err PyError.type_error, p)
  dispatch_action now req other p = (err (PyError.name_error "action_name"), p)

  -- The body of the loop of `handle_server_request`. A request that is neither of type shutdown nor
  -- of type action has no attribute `action_name`.
  unfoldable pub dispatch : ℕ → Req → Action Process (Unit {0})
  unfolding dispatch_action handle_shutdown
  dispatch now req p =
      if is_shutdown p.world.binding.gvars req then handle_shutdown p else elim req.fields [
        | none ↦ (err (PyError.attribute_error "action_name"), p)
        | some f ↦ dispatch_action now req f.action_name p
      ]

  -- The rest of a round of `handle_server_request`, by what was read, and the rounds behind it.
  unfoldable pub after_read : ℕ → Action Process Bool → Result (Option Req) → Action Process Bool
  after_read now rest (err e) p = (err e, p)
  after_read now rest (ok none) p = (ok true, p)
  after_read now rest (ok (some req)) p = (dispatch now req >> rest) p

  -- The loop of `handle_server_request`, for as many requests as the fuel: true when a read has given
  -- no request, which ends the loop, and false when the fuel is used up before.
  unfoldable pub handle_server_request : ℕ → ℕ → Action Process Bool
  handle_server_request zero now p = (ok false, p)
  handle_server_request (suc fuel) now p =
      let (ret, w) = read_action_request J lib (pos 0) p.world in
      after_read now (handle_server_request fuel now) ret (record p { world = w })

  -- The calls that a holder has made, in order, each up to the first that raises.
  unfoldable pub perform_all : List Call → Action (World lib.State) (Unit {0})
  perform_all [] = pure tt
  perform_all (c ∷ cs) = perform J lib c >> perform_all cs

  -- `handle_plugin_holder(active_plugin_holders[name])`: `handle_response` of the holder, whose
  -- response and `req_end` stay as they are when the call to the library raises.
  unfoldable pub handle_plugin_holder : String → Action Process (Unit {0})
  unfolding perform_all
  handle_plugin_holder name = do
    calls ← on_holder name handle_response
    with_world (perform_all calls)
    on_holder name (λ h. (ok tt, after_calls calls h))
