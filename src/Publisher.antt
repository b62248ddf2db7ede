-- ===== src/Publisher.antt =====
-- python_plugins/src/vendors/sonic/support/helpers.py: the publisher of events. The event library and
-- the texts of values are parameters.
use sonic_device_health_prtm.Prelude.{
  Option, Bool, List, String, true, if◌then◌else◌, false, concat, is_some, err, ok, ◌++◌, some,
  PyError, [], ◌∷◌, zero, suc, ℕ, ◌+◌,
}
use sonic_device_health_prtm.Prelude.Dict.{Dict, insert}
use sonic_device_health_prtm.Prelude.Action.{Action, pure, ◌>>◌}
use sonic_device_health_prtm.Prelude.Int.{pos}
use sonic_device_health_prtm.Json.{Json, obj, Fields, field, end, text, int}
pub mod Lifetime

-- `publisher_handle` when it is set: the library's, or "Initialized" outside SONiC.
pub data Handle (H : Type 0) : Type 0 where
  remote : H → Handle H
  initialized : Handle H

-- `publisher_handle`, the events that the library was given, and the lines logged by `common`.
pub record Publisher (H : Type 0) : Type 0 where
  pub handle : Option (Handle H)
  pub published : List (String × Dict String)
  pub logged : List String

abbrev pub is_dict : Json → Bool
is_dict (obj _) = true
is_dict other = false

module _ {H : Type 0} (running_in_sonic : Bool) (events_init_publisher : String → H)
    (dumps shown : Json → String) where
  -- `publish_init`
  unfoldable pub publish_init : String → Action (Publisher H) (Unit {0})
  publish_init src p = if is_some p.handle then (ok tt, p) else (
    ok tt,
    record p {
      handle = some (if running_in_sonic then remote (events_init_publisher src) else initialized);
    },
  )

  -- The loop that fills `param_dict`.
  unfoldable pub params_of : Fields → Dict String → Dict String
  params_of end d = d
  params_of (field k v fs) d = params_of fs (insert k (if is_dict v then dumps v else shown v) d)

  abbrev pub log_line : String → Fields → String
  log_line tag fs = concat "LoM_PUBLISH:" (concat tag (concat ":" (dumps (obj fs))))

  -- `publish_event`. The error branch calls `log_error`, which the module does not define.
  unfoldable pub publish_event : String → Fields → Action (Publisher H) (Unit {0})
  unfolding params_of
  publish_event tag fs p =
      if is_some p.handle
      then (
        ok tt,
        record p {
          published =
              if running_in_sonic
              then p.published ++ ((tag, params_of fs []) ∷ [])
              else p.published;
          logged = p.logged ++ (log_line tag fs ∷ []);
        },
      )
      else (err (PyError.name_error "log_error"), p)

  -- `publish_deinit`. The module does not import `events_deinit_publisher`.
  unfoldable pub publish_deinit : Action (Publisher H) (Unit {0})
  publish_deinit p =
      if is_some p.handle
      then (err (PyError.name_error "events_deinit_publisher"), p)
      else (ok tt, p)

  -- The loop of `main`, for the numbers from `i` on; `digits` is `str` of a number.
  unfoldable pub publish_hellos : (ℕ → String) → ℕ → ℕ → Action (Publisher H) (Unit {0})
  unfolding publish_event
  publish_hellos digits zero i = pure tt
  publish_hellos digits (suc n) i =
      publish_event (concat "hello_" (digits i))
        (field "foo" (text "bar") (field "run" (int (pos i)) end))
      >> publish_hellos digits n (i + 1)

  -- `main`
  unfoldable pub main : (ℕ → String) → Action (Publisher H) (Unit {0})
  unfolding publish_init publish_hellos
  main digits = do publish_init "test-publish"; publish_hellos digits 10 0
