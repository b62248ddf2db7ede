-- ===== src/PluginProc/Requests/Stable.antt =====
-- What the functions of python_plugins/src/plugin_proc.py that handle requests keep of the process,
-- whether they return or raise.
use sonic_device_health_prtm.Prelude.{
  none, ℕ, suc, String, Result, Bool, ◌≡◌, Option, err, subst, Bool-cases, ok, Option-cases, zero,
  some, inl, PyError, arith, inr, sym,
}
use sonic_device_health_prtm.Prelude.Action.{Action, bind-keeps}
use sonic_device_health_prtm.Prelude.Int.{pos}
use sonic_device_health_prtm.Prelude.Dict.{lookup}
use sonic_device_health_prtm.Json.{JsonModule, Json, text, arr, obj, bool, int, null}
use sonic_device_health_prtm.ClibBind.Calls.{ClibLibrary, World, read_action_request}
use sonic_device_health_prtm.PluginProc.Requests.{
  Process, handle_server_request, dispatch, dispatch_action, after_read, Req, on_holder,
  handle_shutdown,
}
use sonic_device_health_prtm.Holder.Methods.{send_request, is_valid}
use sonic_device_health_prtm.ClibBind.Messages.{is_shutdown}
use sonic_device_health_prtm.PluginProc.Requests.Dispatch.{dispatch-action, dispatch_action-found}
use sonic_device_health_prtm.ClibBind.Called.{reading, Called}

module _ (J : JsonModule) (lib : ClibLibrary J) where
  -- A predicate on the process that each change by a request keeps.
  pub record IsStable (Q : Process J lib → Type 0) : Type 0 where
    pub worlds :
        (w : World lib.State) (p : Process J lib)
        → Called J lib p.world w
        → Q p
        → Q (record p { world = w })
    pub sends :
        (now : ℕ) (req : Req J lib) (name : String) (p : Process J lib)
        → Q p
        → Q (on_holder J lib name (send_request now req) p).1
    pub shuts : (p : Process J lib) → Q p → Q (handle_shutdown J lib p).1

module _ (J : JsonModule) (lib : ClibLibrary J) (Q : Process J lib → Type 0)
    (stable : IsStable J lib Q) where
  dispatch_action-keeps :
      (now : ℕ) (req : Req J lib) (v : Json) (p : Process J lib)
      → Q p
      → Q (dispatch_action J lib now req v p).1
  unfolding dispatch_action
  dispatch_action-keeps now req (text name) p all = elim (Option-cases (lookup name p.holders)) [
    | inl missing ↦ moved (err (PyError.name_error "action_name"), p) (ground (arith, missing)) all
    | inr (h, found) ↦ elim (Bool-cases (is_valid h)) [
      | inl v ↦
          moved (on_holder J lib name (send_request now req) p)
            (sym (dispatch_action-found J lib now req name h p found v))
            (stable.sends now req name p all)
      | inr v ↦ moved (err (PyError.name_error "action_name"), p) (ground (arith, found, v)) all
    ]
  ]
    where
      moved :
          (x : Result (Unit {0}) × Process J lib)
          → x ≡ dispatch_action J lib now req (text name) p
          → Q x.1
          → Q (dispatch_action J lib now req (text name) p).1
      moved x e held = subst (λ y. Q y.1) e held
  dispatch_action-keeps now req (arr _) p all = all
  dispatch_action-keeps now req (obj _) p all = all
  dispatch_action-keeps now req null p all = all
  dispatch_action-keeps now req (bool _) p all = all
  dispatch_action-keeps now req (int _) p all = all

  pub dispatch-keeps :
      (now : ℕ) (req : Req J lib) (p : Process J lib) → Q p → Q (dispatch J lib now req p).1
  unfolding dispatch
  dispatch-keeps now req p all = elim (Bool-cases (is_shutdown p.world.binding.gvars req)) [
    | inl stop ↦ moved (handle_shutdown J lib p) (ground (arith, stop)) (stable.shuts p all)
    | inr go ↦ elim (Option-cases req.fields) [
      | inl bare ↦
          moved (err (PyError.attribute_error "action_name"), p) (ground (arith, go, bare)) all
      | inr (f, e) ↦
          moved (dispatch_action J lib now req f.action_name p)
            (sym (dispatch-action J lib now req f p go e))
            (dispatch_action-keeps now req f.action_name p all)
    ]
  ]
    where
      moved :
          (x : Result (Unit {0}) × Process J lib)
          → x ≡ dispatch J lib now req p
          → Q x.1
          → Q (dispatch J lib now req p).1
      moved x e held = subst (λ y. Q y.1) e held

  after_read-keeps :
      (now : ℕ) (rest : Action (Process J lib) Bool) (ret : Result (Option (Req J lib)))
      (p : Process J lib)
      → ((q : Process J lib) → Q q → Q (rest q).1)
      → Q p
      → Q (after_read J lib now rest ret p).1
  unfolding after_read
  after_read-keeps now rest (err e) p step all = all
  after_read-keeps now rest (ok none) p step all = all
  after_read-keeps now rest (ok (some req)) p step all =
      bind-keeps Q (dispatch J lib now req) (λ _. rest) p (dispatch-keeps now req p all)
        (λ _ q held. step q held)

  pub handle_server_request-keeps :
      (fuel now : ℕ) (p : Process J lib) → Q p → Q (handle_server_request J lib fuel now p).1
  unfolding handle_server_request
  handle_server_request-keeps zero now p all = all
  handle_server_request-keeps (suc fuel) now p all =
      let (ret, w) = read_action_request J lib (pos 0) p.world in
      after_read-keeps now (handle_server_request J lib fuel now) ret (record p { world = w })
        (handle_server_request-keeps fuel now) (stable.worlds w p (reading (pos 0)) all)
