-- ===== src/Tests/Events.antt =====
-- The publisher of events on a sequence of calls in SONiC.
use sonic_device_health_prtm.Publisher
use sonic_device_health_prtm.Prelude.{
  List, String, true, ◌≡◌, some, none, [], ok, ◌∷◌, refl, ◌++◌, length,
}
use sonic_device_health_prtm.Publisher.{Publisher, publish_init, params_of, remote}
use sonic_device_health_prtm.Json.{Json, Fields, field, text, obj, end}
use sonic_device_health_prtm.Publisher.Lifetime.{
  after_calls, events_of, event, deinit, init, calls_publish, PublisherCall,
}

abbrev fresh : Publisher String
fresh = record { handle = none; published = []; logged = [] }

abbrev json_text : Json → String
json_text _ = "{}"

abbrev value_text : Json → String
value_text (text s) = s
value_text other = "?"

-- After `publish_init("LoM")`.
abbrev ready : Publisher String
ready = record { handle = some (remote "LoM"); published = []; logged = [] }

ready_set_up : publish_init true (λ src. src) json_text value_text "LoM" fresh ≡ (ok tt, ready)
unfolding publish_init
ready_set_up = refl

abbrev link : Fields
link = field "ifname" (text "Ethernet4") (field "ctx" (obj end) end)

abbrev calls : List PublisherCall
calls = event "flap" link ∷ deinit ∷ init "other" ∷ event "down" link ∷ []

calls_publish_example :
    let q = after_calls true (λ src. src) json_text value_text calls ready in
    (q.published ≡ [] ++ events_of true (λ src. src) json_text value_text calls)
    × (q.handle ≡ some (remote "LoM"))
calls_publish_example =
    calls_publish true (λ src. src) json_text value_text calls ready (remote "LoM") refl

published_params :
    events_of true (λ src. src) json_text value_text (event "flap" link ∷ [])
    ≡ ("flap", ("ifname", "Ethernet4") ∷ ("ctx", "{}") ∷ []) ∷ []
unfolding params_of
published_params = refl

-- `main` publishes its ten events and raises nothing.
main_publishes :
    let (r, q) = Publisher.main true (λ src. src) json_text value_text (λ _. "n") fresh in
    (r ≡ ok tt) × (length q.published ≡ 10)
unfolding Publisher.main
main_publishes = (refl, refl)
