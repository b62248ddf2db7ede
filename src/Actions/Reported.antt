-- ===== src/Actions/Reported.antt =====
-- What link_down.py and link_safety.py of python_plugins/src/vendors/sonic/actions read of the data
-- that the link flap plugin has reported.
use sonic_device_health_prtm.Prelude.{
  String, Option, ◌≡◌, Result, some, or_raise, ℕ, PyError, err, ok, ◌>>=◌,
}
use sonic_device_health_prtm.Prelude.Int.{ℤ}
use sonic_device_health_prtm.ClibBind.Messages.{ActionFields, ActionResponse}
use sonic_device_health_prtm.Json.{Json, text, get_or, Fields, find, obj}
use sonic_device_health_prtm.Actions.LinkFlap.{flap_data}

-- `json.loads(v)` of a loaded value.
abbrev pub loads_value : (String → Option Json) → Json → Result Json
loads_value loads (text s) = or_raise (loads s) PyError.json_decode_error
loads_value loads other = err PyError.type_error

-- `json.loads(ctx.get("link_flap", "{}")).get("ifname", "")`
unfoldable pub reported_ifname : (String → Option Json) → Json → Result Json
reported_ifname loads ctx = do
  flap ← get_or (text "{}") "link_flap" ctx
  link_data ← loads_value loads flap
  get_or (text "") "ifname" link_data

-- A response without data: the last line of `request`.
abbrev pub respond : String → ActionFields → ℤ → String → ActionResponse
respond name req ret ret_str = record {
  action_name = text name;
  instance_id = req.instance_id;
  anomaly_instance_id = req.anomaly_instance_id;
  anomaly_key = req.anomaly_key;
  action_data = text "";
  result_code = ret;
  result_str = ret_str;
}

-- Read back, the data of a report give its interface.
pub reported_ifname-flap_data :
    (loads : String → Option Json) (dumps : Json → String) (ctx : Fields) (ifname : String)
    (interval : ℤ) (cnt : ℕ)
    → loads (dumps (flap_data ifname interval cnt)) ≡ some (flap_data ifname interval cnt)
    → find "link_flap" ctx ≡ some (text (dumps (flap_data ifname interval cnt)))
    → reported_ifname loads (obj ctx) ≡ ok (text ifname)
unfolding reported_ifname find
reported_ifname-flap_data loads dumps ctx ifname interval cnt back h = simp (h, back)
