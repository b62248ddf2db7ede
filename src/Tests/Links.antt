-- ===== src/Tests/Links.antt =====
-- The link down and link safety plugins on a report about Ethernet4.
use sonic_device_health_prtm.Actions.LinkDown
use sonic_device_health_prtm.Actions.LinkSafety
use sonic_device_health_prtm.Actions.LinkFlap
use sonic_device_health_prtm.ClibBind.Messages
use Prim.Native.Char.{code}
use sonic_device_health_prtm.Prelude.Int.{ℤ, pos, negsuc}
use sonic_device_health_prtm.Prelude.{
  String, ℕ, ◌≡◌, Option, suc, if◌then◌else◌, ◌∷◌, none, zero, [], some, refl, ok, arith, ◌==◌,
}
use sonic_device_health_prtm.Tests.Process.{json}
use sonic_device_health_prtm.Tests.Flaps.{flapping, request_fields}
use sonic_device_health_prtm.Json.{Json, Fields, obj, text, field, int, index, item, end, find}
use sonic_device_health_prtm.ClibBind.Messages.{
  new_request, ActionRequest, ActionFields, action_fields,
}
use sonic_device_health_prtm.Actions.LinkFlap.{flap_data}
use sonic_device_health_prtm.Actions.Reported.{respond}
use sonic_device_health_prtm.Actions.LinkDown.Mitigation.{request_shuts_flapping}
use sonic_device_health_prtm.Actions.LinkSafety.Unchecked.{code_of, request_allows_down}
use sonic_device_health_prtm.Gvars.{initial_gvars}

-- A text for the data about Ethernet4: a sign, and two numbers in unary.
tally : ℕ → String → String
tally zero rest = String.◌∷◌ "." rest
tally (suc n) rest = String.◌∷◌ "a" (tally n rest)

untally : String → ℕ × String
untally String.[] = (0, "")
untally (String.◌∷◌ c s) =
    let (n, rest) = untally s in if code c == b'a' then (suc n, rest) else (0, s)

untally-tally : (n : ℕ) (rest : String) → untally (tally n rest) ≡ (n, rest)
unfolding untally tally
untally-tally zero rest = refl
untally-tally (suc n) rest = simp (untally-tally n rest)

flap_text : Json → String
flap_text (obj (field _ _ (field _ (int (pos n)) (field _ (int (pos c)) _)))) =
    String.◌∷◌ "+" (tally n (tally c ""))
flap_text (obj (field _ _ (field _ (int (negsuc n)) (field _ (int (pos c)) _)))) =
    String.◌∷◌ "-" (tally n (tally c ""))
flap_text other = ""

flap_loads : String → Option Json
flap_loads String.[] = none
flap_loads (String.◌∷◌ c s) =
    let (n, rest) = untally s in
    some (flap_data "Ethernet4" (if code c == b'+' then pos n else negsuc n) (untally rest).0)

flap_loads-flap_text :
    (interval : ℤ) (cnt : ℕ)
    → flap_loads (flap_text (flap_data "Ethernet4" interval cnt))
      ≡ some (flap_data "Ethernet4" interval cnt)
unfolding flap_loads flap_text
flap_loads-flap_text (pos n) cnt = simp (untally-tally)
flap_loads-flap_text (negsuc n) cnt = simp (untally-tally)

abbrev plain_text : Json → String
plain_text (text s) = s
plain_text other = ""

abbrev reported : Fields
reported =
    field "link_flap"
      (LinkFlap.flap_response flap_text LinkFlap.new_plugin request_fields "Ethernet4"
        (pos 10)).action_data
      end

abbrev down_fields : ActionFields
down_fields = record request_fields { action_name = text "link_down"; context = obj reported }

request_shuts_flapping_example :
    let (resp, commands) =
      LinkDown.request flap_loads flap_text plain_text down_fields LinkDown.new_plugin in
    (commands ≡ "sudo config int shutdown Ethernet4" ∷ [])
    × (resp ≡ ok (respond "link_down" down_fields (pos 0) "Brought down link Ethernet4"))
unfolding LinkFlap.request LinkFlap.receive LinkFlap.down_of LinkFlap.on_down LinkFlap.flap_response
    find
request_shuts_flapping_example =
    request_shuts_flapping flap_loads flap_text plain_text (λ s. refl) request_fields down_fields
      flapping LinkFlap.new_plugin LinkDown.new_plugin
      (LinkFlap.flap_response flap_text LinkFlap.new_plugin request_fields "Ethernet4" (pos 10))
      "Ethernet4" reported flap_loads-flap_text refl refl refl refl refl

abbrev down_json : Json
down_json = obj (
    field "request_type" (text "action") (
      field "action_name" (text "link_down") (
        field "instance_id" (text "inst_0") (
          field "anomaly_instance_id" (text "inst_0") (
            field "anomaly_key" (text "")
              (field "context" (obj reported) (field "timeout" (int (pos 0)) end)))))))

abbrev down_request : ActionRequest (Option Json)
down_request = record { str_data = some down_json; kind = text "action"; fields = some down_fields }

-- One interface of ten is up, far less than the minimum of 80 percent.
request_allows_down_example :
    code_of (
      LinkSafety.request json flap_loads flap_text
        (λ _ _. "10")
        (λ _. "80")
        "context"
        (some down_json)
        down_fields
        1
        9
        LinkSafety.new_plugin)
    ≡ code_of (LinkDown.request flap_loads flap_text plain_text down_fields LinkDown.new_plugin).0
unfolding new_request Messages.request_fields action_fields index item find
request_allows_down_example =
    request_allows_down json flap_loads flap_text (λ _ _. "10") (λ _. "80") plain_text initial_gvars
      (some down_json) down_request down_fields 1 9 LinkSafety.new_plugin LinkDown.new_plugin refl
      refl (ground arith)
