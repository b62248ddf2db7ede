-- ===== src/Actions/LinkSafety/Unchecked.antt =====
-- What the counts of up and down interfaces do to the answer of
-- python_plugins/src/vendors/sonic/actions/link_safety.py.
use sonic_device_health_prtm.Actions.LinkSafety
use sonic_device_health_prtm.Actions.LinkDown
use sonic_device_health_prtm.Prelude.{
  Result, String, Option, ℕ, ok, some, err, ◌≡◌, Bool, none, ◌<◌, ◌+◌, if◌then◌else◌, arith,
  Result-cases, inr, inl,
}
use sonic_device_health_prtm.Prelude.Int.{ℤ, pos, negsuc}
use sonic_device_health_prtm.Json.{JsonModule, Json, index, item, truthy}
use sonic_device_health_prtm.ClibBind.Messages.{
  ActionResponse, new_request, ActionFields, ActionRequest, request_fields, action_fields,
}
use sonic_device_health_prtm.Gvars.{Gvars}
use sonic_device_health_prtm.Actions.LinkSafety.{percent_text}
use sonic_device_health_prtm.Actions.Reported.{reported_ifname}

abbrev pub code_of : Result ActionResponse → Option ℤ
code_of (ok r) = some r.result_code
code_of (err _) = none

module _ (J : JsonModule) (loads : String → Option Json) (dumps : Json → String)
    (shown : ℕ → ℕ → String) (digits : ℕ → String) where
  open J use {Text}

  -- A request that `ActionRequest.__init__` accepts has its context in its text.
  new_request-context :
      (g : Gvars) (str_data : Text) (r : ActionRequest Text) (f : ActionFields)
      → new_request J g str_data ≡ ok r
      → r.fields ≡ some f
      → LinkSafety.context_of J loads dumps shown digits g.req_context str_data ≡ ok f.context
  unfolding new_request request_fields action_fields LinkSafety.context_of index item
  new_request-context g str_data r f h e = ground (arith, h, e)

  answer-code :
      (req : ActionFields) (up down : ℕ) (p : LinkSafety.Plugin) (b : Bool)
      → 0 < up + down
      → code_of (LinkSafety.answer J loads dumps shown digits "" req up down p b)
        ≡ some (if b then pos 0 else negsuc 0)
  unfolding LinkSafety.answer percent_text
  answer-code req up down p b h = ground (arith, h)

  -- Whatever the counts of interfaces that are up and down, if there is one, and whatever the
  -- minimum, the link safety plugin answers a request that `ActionRequest.__init__` has accepted
  -- with the same code as the link down plugin does, or both raise.
  pub request_allows_down :
      (shown_value : Json → String) (g : Gvars) (str_data : Text) (r : ActionRequest Text)
      (f : ActionFields) (up down : ℕ) (p : LinkSafety.Plugin) (q : LinkDown.Plugin)
      → new_request J g str_data ≡ ok r
      → r.fields ≡ some f
      → 0 < up + down
      → code_of (LinkSafety.request J loads dumps shown digits g.req_context str_data f up down p)
        ≡ code_of (LinkDown.request loads dumps shown_value f q).0
  unfolding LinkSafety.request LinkDown.request
  request_allows_down shown_value g str_data r f up down p q h e some_port =
      let ctx = new_request-context g str_data r f h e in
      elim (Result-cases (reported_ifname loads f.context)) [
        | inr (x, raises) ↦ ground (arith, ctx, raises)
        | inl (v, reads) ↦ ground (arith, ctx, reads, answer-code f up down p (truthy v) some_port)
      ]
