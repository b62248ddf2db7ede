-- ===== src/Tests/Flaps.antt =====
-- The link flap plugin on short sequences of events.
use sonic_device_health_prtm.Prelude.{ℕ, List, String, true, ◌∷◌, false, [], ◌≡◌, refl}
use sonic_device_health_prtm.Prelude.Int.{pos}
use sonic_device_health_prtm.Actions.LinkFlap.{
  Input, request, on_down, new_plugin, receive, down_of, flap_response, answered,
}
use sonic_device_health_prtm.ClibBind.Messages.{ActionFields}
use sonic_device_health_prtm.Json.{Json, text, obj, end, int}
use sonic_device_health_prtm.Actions.LinkFlap.Detection.{Tracks, detect, request_detects}
use sonic_device_health_prtm.Actions.LinkFlap.Bounds.{IsBounded, request-IsBounded}

abbrev down : String → ℕ → Input
down name now = record {
  event = record {
    received = true;
    key = "sonic-events-swss:if-state";
    params = ("ifname", name) ∷ ("status", "down") ∷ [];
  };
  now = now;
  stop = false;
}

abbrev timeout : ℕ → Input
timeout now = record {
  event = record { received = false; key = ""; params = [] };
  now = now;
  stop = false;
}

abbrev pub request_fields : ActionFields
request_fields = record {
  action_name = text "link_flap";
  instance_id = text "inst_0";
  anomaly_instance_id = text "inst_0";
  anomaly_key = text "";
  context = obj end;
  timeout = int (pos 0);
}

abbrev plain : Json → String
plain _ = "{}"

-- Ethernet4 goes down at 100, 130 and 140: only the last two are close enough. Ethernet8 at 135 does
-- not count.
abbrev pub flapping : List Input
flapping =
    down "Ethernet4" 100
    ∷ timeout 110
    ∷ down "Ethernet4" 130
    ∷ down "Ethernet8" 135
    ∷ down "Ethernet4" 140
    ∷ []

flapping_reported :
    let (reply, beats, _) = request plain request_fields flapping new_plugin in
    (reply ≡ answered (flap_response plain new_plugin request_fields "Ethernet4" (pos 10)))
    × (beats ≡ 4)
unfolding request receive down_of on_down flap_response
flapping_reported = (refl, refl)

new-Tracks : Tracks plain request_fields new_plugin []
new-Tracks = record { tuned = (refl, refl); named = refl; up = refl; keeps = λ i. refl }

request_detects_example :
    let (reply, beats, _) = request plain request_fields flapping new_plugin in
    (reply ≡ (detect plain request_fields flapping []).0)
    × (beats ≡ (detect plain request_fields flapping []).1)
request_detects_example = request_detects plain request_fields flapping new_plugin [] new-Tracks

request-IsBounded_example : IsBounded 2 (request plain request_fields flapping new_plugin).2
request-IsBounded_example = request-IsBounded plain request_fields 2 flapping new_plugin (refl, tt)
