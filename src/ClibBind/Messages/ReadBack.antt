-- ===== src/ClibBind/Messages/ReadBack.antt =====
-- Messages between the engine and `ActionRequest` and `ActionResponse` of
-- python_plugins/src/clib_bind.py.
use sonic_device_health_prtm.Prelude.{
  String, List, [], ◌∷◌, ◌≡◌, false, some, ok, All, str_eq, eq_refl, arith,
}
use sonic_device_health_prtm.Json.{JsonModule, index, find, item, text, int, Json, obj, field, end}
use sonic_device_health_prtm.Gvars.{Gvars}
use sonic_device_health_prtm.ClibBind.Messages.{
  ActionResponse, response_json, response_text, new_request, ActionFields, request_fields,
  action_fields,
}

-- The attribute names of a response.
abbrev pub response_names : Gvars → List String
response_names g =
    g.req_action_name ∷ g.req_action_type ∷ g.req_instance_id ∷ g.req_anomaly_instance_id
    ∷ g.req_anomaly_key ∷ g.req_action_data ∷ g.req_result_code ∷ g.req_result_str ∷ []

-- The attribute names of an action request.
abbrev pub request_names : Gvars → List String
request_names g =
    g.req_action_type ∷ g.req_action_name ∷ g.req_instance_id ∷ g.req_anomaly_instance_id
    ∷ g.req_anomaly_key ∷ g.req_context ∷ g.req_timeout ∷ []

-- The object that the engine sends for an action request.
abbrev pub request_object : Gvars → ActionFields → Json
request_object g f = obj (
    field g.req_action_type (text g.req_action_type_action) (
      field g.req_action_name f.action_name (
        field g.req_instance_id f.instance_id (
          field g.req_anomaly_instance_id f.anomaly_instance_id (
            field g.req_anomaly_key f.anomaly_key
              (field g.req_context f.context (field g.req_timeout f.timeout end)))))))

abbrev pub IsDistinct : List String → Type 0
IsDistinct [] = Unit {0}
IsDistinct (n ∷ ns) = All (λ m. str_eq n m ≡ false) ns × IsDistinct ns

module _ (J : JsonModule) where
  -- When the attribute names that the client library gives are distinct, the text of a response loads
  -- as an object in which each attribute of the response stands under its name.
  pub response_read_back :
      (g : Gvars) (r : ActionResponse)
      → IsDistinct (response_names g)
      → let v = response_json g r in
        (J.loads (response_text J g r) ≡ some v)
        × (index g.req_action_name v ≡ ok r.action_name)
        × (index g.req_action_type v ≡ ok (text g.req_action_type_action))
        × (index g.req_instance_id v ≡ ok r.instance_id)
        × (index g.req_anomaly_instance_id v ≡ ok r.anomaly_instance_id)
        × (index g.req_anomaly_key v ≡ ok r.anomaly_key)
        × (index g.req_action_data v ≡ ok r.action_data)
        × (index g.req_result_code v ≡ ok (int r.result_code))
        × (index g.req_result_str v ≡ ok (text r.result_str))
  unfolding response_text response_json index item find
  response_read_back g r (n, (t, (i, (a, (k, (d, (c, _))))))) = (
    J.loads-dumps (response_json g r),
    simp eq_refl,
    simp (n.0, eq_refl),
    simp (n.1.0, t.0, eq_refl),
    simp (n.1.1.0, t.1.0, i.0, eq_refl),
    simp (n.1.1.1.0, t.1.1.0, i.1.0, a.0, eq_refl),
    simp (n.1.1.1.1.0, t.1.1.1.0, i.1.1.0, a.1.0, k.0, eq_refl),
    simp (n.1.1.1.1.1.0, t.1.1.1.1.0, i.1.1.1.0, a.1.1.0, k.1.0, d.0, eq_refl),
    simp (n.1.1.1.1.1.1.0, t.1.1.1.1.1.0, i.1.1.1.1.0, a.1.1.1.0, k.1.1.0, d.1.0, c.0, eq_refl),
  )

  -- When the attribute names are distinct, `ActionRequest.__init__` accepts the text of an action
  -- request, and its attributes are what the engine has sent.
  pub request_read_back :
      (g : Gvars) (f : ActionFields)
      → IsDistinct (request_names g)
      → let sdata = J.dumps (request_object g f) in
        new_request J g sdata
        ≡ ok (record { str_data = sdata; kind = text g.req_action_type_action; fields = some f })
  unfolding new_request request_fields action_fields index item find
  request_read_back g f (t, (n, (i, (a, (k, (c, _)))))) = ground (
    arith,
    J.loads-dumps (request_object g f),
    eq_refl g.req_action_type_action,
    eq_refl g.req_action_type,
    eq_refl g.req_action_name,
    eq_refl g.req_instance_id,
    eq_refl g.req_anomaly_instance_id,
    eq_refl g.req_anomaly_key,
    eq_refl g.req_context,
    eq_refl g.req_timeout,
    t.0,
    t.1.0,
    n.0,
    t.1.1.0,
    n.1.0,
    i.0,
    t.1.1.1.0,
    n.1.1.0,
    i.1.0,
    a.0,
    t.1.1.1.1.0,
    n.1.1.1.0,
    i.1.1.0,
    a.1.0,
    k.0,
    t.1.1.1.1.1.0,
    n.1.1.1.1.0,
    i.1.1.1.0,
    a.1.1.0,
    k.1.0,
    c.0,
  )
