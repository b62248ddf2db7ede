-- ===== src/Actions/LinkSafety.antt =====
-- `LoMPlugin` of python_plugins/src/vendors/sonic/actions/link_safety.py. The shell is seen through
-- the two counts that its commands print; `shown` and `digits` are the texts
-- of the percentage and of the minimum.
pub mod Unchecked
use sonic_device_health_prtm.Prelude.{
  true, String, false, ℕ, Bool, Result, Option, if◌then◌else◌, ◌+◌, or_raise, ◌==◌, err, PyError,
  ok, leb, ◌*◌, ◌>>=◌, concat,
}
use sonic_device_health_prtm.Prelude.Int.{pos, negsuc}
use sonic_device_health_prtm.Json.{JsonModule, Json, get_or, obj, truthy, Fields}
use sonic_device_health_prtm.Actions.Reported.{reported_ifname, respond}
use sonic_device_health_prtm.ClibBind.Messages.{ActionFields, ActionResponse}

-- The attributes but for the handle of the event library, which nothing uses.
pub record Plugin : Type 0 where
  pub name : String
  pub min : ℕ
  pub shutdown_flag : Bool

-- `__init__`
abbrev pub new_plugin : Plugin
new_plugin = record { name = "link_safety"; min = 80; shutdown_flag = false }

-- `shutdown`
abbrev pub shutdown : Plugin → Plugin
shutdown p = record p { shutdown_flag = true }

-- The text for a reported interface, `up` interfaces being up and `down` being down. The percentage
-- 100 * up / (up + down) is compared without the division.
unfoldable pub percent_text : (ℕ → ℕ → String) → (ℕ → String) → Plugin → ℕ → ℕ → Result String
percent_text shown digits p up down =
    if up + down == 0
    then err PyError.zero_division_error
    else ok (
        if leb (p.min * (up + down)) (100 * up)
        then concat p.name (
            concat ": Has "
              (concat (shown up (up + down)) (concat "% up. Min: " (concat (digits p.min) "%"))))
        else "")

module _ (J : JsonModule) (loads : String → Option Json) (dumps : Json → String)
    (shown : ℕ → ℕ → String) (digits : ℕ → String) (req_context : String) where
  open J use {Text}

  -- The context, from the text of the request.
  unfoldable pub context_of : Text → Result Json
  context_of str_data = do
    d ← or_raise (J.loads str_data) PyError.json_decode_error
    get_or (obj Fields.end) req_context d

  -- The `if` statement and what follows it.
  unfoldable pub answer : ActionFields → ℕ → ℕ → Plugin → Bool → Result ActionResponse
  unfolding percent_text
  answer req up down p true =
      percent_text shown digits p up down >>= λ ret_str. ok (respond p.name req (pos 0) ret_str)
  answer req up down p false = ok (
      respond p.name req (negsuc 0)
        (concat p.name (concat ": Missing ifname ctx=" (dumps req.context))))

  -- `request`, for a request with its text and attributes and the counts that the two commands
  -- print.
  unfoldable pub request : Text → ActionFields → ℕ → ℕ → Plugin → Result ActionResponse
  unfolding context_of reported_ifname answer
  request str_data req up down p = do
    ctx ← context_of str_data
    ifname ← reported_ifname loads ctx
    answer req up down p (truthy ifname)
