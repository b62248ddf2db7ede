-- ===== src/Actions/LinkFlap.antt =====
-- `LoMPlugin` of python_plugins/src/vendors/sonic/actions/link_flap.py. What the event library hands
-- over, and `json.dumps` into a text value, are parameters.
pub mod Window
pub mod Detection
pub mod Bounds
use sonic_device_health_prtm.Prelude.{
  ℕ, suc, String, Bool, true, false, Option, none, some, List, [], ◌∷◌, ◌++◌, length, ltb, ◌==◌,
  if◌then◌else◌, str_eq, Result, ok, err, PyError, ◌&&◌, ◌||◌,
}
use sonic_device_health_prtm.Prelude.Int.{ℤ, pos, sub_ℕ, leb_ℤ}
use sonic_device_health_prtm.Prelude.Dict.{Dict, lookup, insert}
use sonic_device_health_prtm.Json.{Json, int, text, obj, end, field}
use sonic_device_health_prtm.ClibBind.Messages.{ActionFields, ActionResponse}

-- The attributes that `request` uses.
pub record Plugin : Type 0 where
  pub name : String
  pub flap_int : ℕ
  pub flap_cnt : ℕ
  pub flaps : Dict (List ℕ)
  pub shutdown_flag : Bool

-- `__init__`
abbrev pub new_plugin : Plugin
new_plugin = record {
  name = "link_flap";
  flap_int = 15;
  flap_cnt = 2;
  flaps = [];
  shutdown_flag = false;
}

-- What `event_receive` leaves: whether it returned 0, the event's key, and its parameters.
pub record Event : Type 0 where
  pub received : Bool
  pub key : String
  pub params : Dict String

-- `d[k]`
abbrev pub at_key : {V : Type 0} → String → Dict V → Result V
at_key k d = elim (lookup k d) [ none ↦ err (PyError.key_error k) | some v ↦ ok v ]

-- The times of an interface with the new one appended; a new interface starts a list.
unfoldable pub record_time : String → ℕ → Dict (List ℕ) → List ℕ
record_time ifname now flaps = elim (lookup ifname flaps) [
  | none ↦ now ∷ []
  | some lst ↦ lst ++ (now ∷ [])
]

-- `while len(lst) > self.flap_cnt: lst.pop(0)`
unfoldable pub trim : ℕ → List ℕ → List ℕ
trim cnt [] = []
trim cnt (x ∷ xs) = let rest = trim cnt xs in if ltb cnt (suc (length xs)) then rest else x ∷ xs

-- `lst[-1]`, with the first element to start from.
abbrev pub last_of : ℕ → List ℕ → ℕ
last_of x [] = x
last_of x (y ∷ ys) = last_of y ys

-- `lst[-1] - lst[0]`; both exist where it is evaluated.
unfoldable pub interval_of : List ℕ → ℤ
interval_of [] = pos 0
interval_of (x ∷ xs) = sub_ℕ (last_of x xs) x

-- Lines 41 to 53: the interface went down at `now`. The result is the interval to report, if any.
unfoldable pub on_down : String → ℕ → Plugin → Option ℤ × Plugin
unfolding record_time trim interval_of
on_down ifname now p =
    let lst = trim p.flap_cnt (record_time ifname now p.flaps) in
    let p' = record p { flaps = insert ifname lst p.flaps } in
    let interval = interval_of lst in
    if length lst == p.flap_cnt
    then (if leb_ℤ interval (pos p.flap_int) then (some interval, p') else (none, p'))
    else (none, p')

-- The tests of lines 39 to 41: the interface that went down, if the event says so.
unfoldable pub down_of : Event → Result (Option String)
down_of e =
    if e.received && str_eq e.key "sonic-events-swss:if-state"
    then elim (at_key "status" e.params) [
      | err x ↦ err x
      | ok status ↦
          if str_eq status "down"
          then elim (at_key "ifname" e.params) [ err x ↦ err x | ok ifname ↦ ok (some ifname) ]
          else ok none
    ]
    else ok none

-- The object that `_get_resp` dumps.
abbrev pub flap_data : String → ℤ → ℕ → Json
flap_data ifname interval cnt = obj (
    field "ifname" (text ifname)
      (field "duration" (int interval) (field "cnt" (int (pos cnt)) end)))

-- What a round of the loop of `request` receives: the event, the time, and whether `shutdown` was
-- called before it.
pub record Input : Type 0 where
  pub event : Event
  pub now : ℕ
  pub stop : Bool

-- How `request` ends: a response, None after a shutdown, an exception, or not yet.
pub data Reply : Type 0 where
  answered : ActionResponse → Reply
  no_reply waiting : Reply
  failed : PyError → Reply

-- `shutdown`
abbrev pub shutdown : Plugin → Plugin
shutdown p = record p { shutdown_flag = true }

module _ (dumps : Json → String) where
  unfoldable pub flap_response : Plugin → ActionFields → String → ℤ → ActionResponse
  flap_response p req ifname interval = record {
    action_name = text p.name;
    instance_id = req.instance_id;
    anomaly_instance_id = req.anomaly_instance_id;
    anomaly_key = text ifname;
    action_data = text (dumps (flap_data ifname interval p.flap_cnt));
    result_code = pos 0;
    result_str = "";
  }

  -- One round of the loop behind its test: the response to return, if any.
  unfoldable pub receive :
      ActionFields → Event → ℕ → Plugin → Result (Option ActionResponse) × Plugin
  unfolding down_of on_down flap_response
  receive req e now p = elim (down_of e) [
    | err x ↦ (err x, p)
    | ok none ↦ (ok none, p)
    | ok (some ifname) ↦
        (let (found, p') = on_down ifname now p in
          (
            elim found [
              | none ↦ ok none
              | some interval ↦ ok (some (flap_response p req ifname interval))
            ],
            p',
          ))
  ]

  -- `request`, with the number of heartbeats that it has called.
  unfoldable pub request : ActionFields → List Input → Plugin → Reply × ℕ × Plugin
  request req [] p = (waiting, 0, p)
  request req (i ∷ is) p = elim (p.shutdown_flag || i.stop) [
    | true ↦ (no_reply, 0, shutdown p)
    | false ↦
        (let (r, p') = receive req i.event i.now p in
          elim r [
            | err x ↦ (failed x, 0, p')
            | ok (some resp) ↦ (answered resp, 0, p')
            | ok none ↦ (let (reply, beats, q) = request req is p' in (reply, suc beats, q))
          ])
  ]
