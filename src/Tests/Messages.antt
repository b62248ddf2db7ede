-- ===== src/Tests/Messages.antt =====
-- A response under the attribute names of python_plugins/src/gvars.py.
use sonic_device_health_prtm.Prelude.Int.{pos}
use sonic_device_health_prtm.Prelude.{◌≡◌, some, ok, refl}
use sonic_device_health_prtm.ClibBind.Messages.{
  ActionResponse, response_json, response_text, ActionFields, new_request,
}
use sonic_device_health_prtm.ClibBind.Messages.ReadBack.{
  response_read_back, request_object, request_read_back,
}
use sonic_device_health_prtm.Tests.Process.{json}
use sonic_device_health_prtm.Json.{text, index, int, obj, end}
use sonic_device_health_prtm.Gvars.{initial_gvars}

abbrev response : ActionResponse
response = record {
  action_name = text "link_flap";
  instance_id = text "inst_0";
  anomaly_instance_id = text "inst_0";
  anomaly_key = text "Ethernet4";
  action_data = text "{}";
  result_code = pos 0;
  result_str = "";
}

response_read_back_example :
    let v = response_json initial_gvars response in
    (json.loads (response_text json initial_gvars response) ≡ some v)
    × (index "action_name" v ≡ ok (text "link_flap"))
    × (index "request_type" v ≡ ok (text "action"))
    × (index "instance_id" v ≡ ok (text "inst_0"))
    × (index "anomaly_instance_id" v ≡ ok (text "inst_0"))
    × (index "anomaly_key" v ≡ ok (text "Ethernet4"))
    × (index "action_data" v ≡ ok (text "{}"))
    × (index "result_code" v ≡ ok (int (pos 0)))
    × (index "result_str" v ≡ ok (text ""))
response_read_back_example = response_read_back json initial_gvars response (
  (refl, (refl, (refl, (refl, (refl, (refl, (refl, tt))))))),
  (
    (refl, (refl, (refl, (refl, (refl, (refl, tt)))))),
    (
      (refl, (refl, (refl, (refl, (refl, tt))))),
      (
        (refl, (refl, (refl, (refl, tt)))),
        ((refl, (refl, (refl, tt))), ((refl, (refl, tt)), ((refl, tt), (tt, tt)))),
      ),
    ),
  ),
)

abbrev asked : ActionFields
asked = record {
  action_name = text "link_down";
  instance_id = text "inst_1";
  anomaly_instance_id = text "inst_0";
  anomaly_key = text "Ethernet4";
  context = obj end;
  timeout = int (pos 30);
}

request_read_back_example :
    new_request json initial_gvars (some (request_object initial_gvars asked))
    ≡ ok (record {
      str_data = some (request_object initial_gvars asked);
      kind = text "action";
      fields = some asked;
    })
request_read_back_example = request_read_back json initial_gvars asked (
  (refl, (refl, (refl, (refl, (refl, (refl, tt)))))),
  (
    (refl, (refl, (refl, (refl, (refl, tt))))),
    (
      (refl, (refl, (refl, (refl, tt)))),
      ((refl, (refl, (refl, tt))), ((refl, (refl, tt)), ((refl, tt), (tt, tt)))),
    ),
  ),
)
