-- ===== src/ClibBind/Messages.antt =====
-- `ActionRequest` and `ActionResponse` of python_plugins/src/clib_bind.py.
pub mod ReadBack
use sonic_device_health_prtm.Prelude.{
  String, Bool, false, if◌then◌else◌, str_eq, Result, ok, PyError, ◌>>=◌, or_raise, Option, none,
  some,
}
use sonic_device_health_prtm.Prelude.Int.{ℤ}
use sonic_device_health_prtm.Json.{Json, int, text, obj, end, field, index, JsonModule}
use sonic_device_health_prtm.Gvars.{Gvars}

-- The attributes that only a request of type action has.
pub record ActionFields : Type 0 where
  pub action_name : Json
  pub instance_id : Json
  pub anomaly_instance_id : Json
  pub anomaly_key : Json
  pub context : Json
  pub timeout : Json

-- `str_data` is the text as it came; the attributes of a shutdown request do not exist.
pub record ActionRequest (Text : Type 0) : Type 0 where
  pub str_data : Text
  pub kind : Json
  pub fields : Option ActionFields

-- `v == s` for a loaded value and a text.
abbrev pub is_text : String → Json → Bool
is_text s (text t) = str_eq t s
is_text s other = false

-- `ActionRequest.is_shutdown`
unfoldable pub is_shutdown : Gvars → {Text : Type 0} → ActionRequest Text → Bool
is_shutdown g req = is_text g.req_action_type_shutdown req.kind

-- The arguments of `ActionResponse.__init__`.
pub record ActionResponse : Type 0 where
  pub action_name : Json
  pub instance_id : Json
  pub anomaly_instance_id : Json
  pub anomaly_key : Json
  pub action_data : Json
  pub result_code : ℤ
  pub result_str : String

-- The dictionary that a response dumps.
unfoldable pub response_json : Gvars → ActionResponse → Json
response_json g r = obj (
    field g.req_action_name r.action_name (
      field g.req_action_type (text g.req_action_type_action) (
        field g.req_instance_id r.instance_id (
          field g.req_anomaly_instance_id r.anomaly_instance_id (
            field g.req_anomaly_key r.anomaly_key (
              field g.req_action_data r.action_data (
                field g.req_result_code (int r.result_code)
                  (field g.req_result_str (text r.result_str) end))))))))

-- The attributes that `ActionRequest.__init__` reads of the loaded object.
unfoldable pub action_fields : Gvars → Json → Result ActionFields
action_fields g v = do
  a ← index g.req_action_name v
  i ← index g.req_instance_id v
  n ← index g.req_anomaly_instance_id v
  k ← index g.req_anomaly_key v
  c ← index g.req_context v
  t ← index g.req_timeout v
  ok (record {
    action_name = a;
    instance_id = i;
    anomaly_instance_id = n;
    anomaly_key = k;
    context = c;
    timeout = t;
  })

-- The `if` of `ActionRequest.__init__`.
unfoldable pub request_fields : Gvars → Json → Json → Result (Option ActionFields)
unfolding action_fields
request_fields g kind v =
    if is_text g.req_action_type_action kind
    then (action_fields g v >>= λ a. ok (some a))
    else ok none

module _ (J : JsonModule) where
  open J use {Text, dumps, loads}

  -- `ActionRequest.__init__`
  unfoldable pub new_request : Gvars → Text → Result (ActionRequest Text)
  unfolding request_fields
  new_request g sdata = do
    v ← or_raise (loads sdata) PyError.json_decode_error
    kind ← index g.req_action_type v
    fields ← request_fields g kind v
    ok (record { str_data = sdata; kind = kind; fields = fields })

  -- `ActionResponse.__init__` and `value`: the dumped text.
  unfoldable pub response_text : Gvars → ActionResponse → Text
  response_text g r = dumps (response_json g r)
