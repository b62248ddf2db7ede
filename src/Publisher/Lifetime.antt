-- ===== src/Publisher/Lifetime.antt =====
-- Sequences of calls of python_plugins/src/vendors/sonic/support/helpers.py.
use mathlib.Core.List.{append-nil, append_assoc}
use sonic_device_health_prtm.Prelude.{
  Bool, String, List, ◌∷◌, [], ◌≡◌, some, if◌then◌else◌, ◌++◌, Bool-cases, inl, arith, inr, ok,
}
use sonic_device_health_prtm.Prelude.Dict.{Dict}
use sonic_device_health_prtm.Json.{Fields, Json}
use sonic_device_health_prtm.Publisher.{
  publish_init, Publisher, publish_event, params_of, publish_deinit, Handle,
}

-- A call by a client that goes on behind an exception.
pub data PublisherCall : Type 0 where
  init : String → PublisherCall
  event : String → Fields → PublisherCall
  deinit : PublisherCall

module _ {H : Type 0} (running_in_sonic : Bool) (events_init_publisher : String → H)
    (dumps shown : Json → String) where
  abbrev pub behind_call : PublisherCall → Publisher H → Publisher H
  behind_call (init src) p =
      (publish_init running_in_sonic events_init_publisher dumps shown src p).1
  behind_call (event tag fs) p =
      (publish_event running_in_sonic events_init_publisher dumps shown tag fs p).1
  behind_call deinit p = (publish_deinit running_in_sonic events_init_publisher dumps shown p).1

  abbrev pub after_calls : List PublisherCall → Publisher H → Publisher H
  after_calls [] p = p
  after_calls (c ∷ cs) p = after_calls cs (behind_call c p)

  -- The events of the calls, as the event library gets them.
  abbrev pub events_of : List PublisherCall → List (String × Dict String)
  events_of [] = []
  events_of (event tag fs ∷ cs) =
      (tag, params_of running_in_sonic events_init_publisher dumps shown fs []) ∷ events_of cs
  events_of (init _ ∷ cs) = events_of cs
  events_of (deinit ∷ cs) = events_of cs

  -- Once the publisher is set up, whatever calls follow, each whose exception is caught: in SONiC the
  -- event library gets the events of all later calls of `publish_event`, in order, outside SONiC it
  -- gets none, and the handle stays as it was: `publish_deinit` never takes it back.
  pub calls_publish :
      (cs : List PublisherCall) (p : Publisher H) (h : Handle H)
      → p.handle ≡ some h
      → let q = after_calls cs p in
        (q.published ≡ (if running_in_sonic then p.published ++ events_of cs else p.published))
        × (q.handle ≡ some h)
  unfolding publish_init publish_event publish_deinit
  calls_publish [] p h e = elim (Bool-cases running_in_sonic) [
    | inl sonic ↦ (ground (arith, sonic, append-nil p.published), e)
    | inr other ↦ (ground (arith, other), e)
  ]
  calls_publish (init src ∷ cs) p h e =
      let same : publish_init running_in_sonic events_init_publisher dumps shown src p
          ≡ (ok tt, p) =
        ground (arith, e) in
      ground (arith, same, calls_publish cs p h e)
  calls_publish (event tag fs ∷ cs) p h e =
      let sent : String × Dict String =
        (tag, params_of running_in_sonic events_init_publisher dumps shown fs []) in
      let q = behind_call (event tag fs) p in
      let rest = calls_publish cs q h (ground (arith, e)) in
      let assoc = append_assoc p.published (sent ∷ []) (events_of cs) in
      elim (Bool-cases running_in_sonic) [
        | inl sonic ↦ (ground (arith, e, sonic, rest.0, assoc), rest.1)
        | inr other ↦ (ground (arith, e, other, rest.0), rest.1)
      ]
  calls_publish (deinit ∷ cs) p h e = ground (arith, e, calls_publish cs p h e)
