-- ===== src/Actions/Shipped.antt =====
-- What a holder sees of the plugins under python_plugins/src/vendors/sonic/actions: their
-- constructors, `getName` and `is_valid`. The event library is a parameter.
use sonic_device_health_prtm.Actions.LinkFlap
use sonic_device_health_prtm.Actions.LinkDown
use sonic_device_health_prtm.Actions.LinkSafety
use sonic_device_health_prtm.Prelude.{
  Option, true, Result, err, String, if◌then◌else◌, ◌≡◌, PyError, none, str_eq, ok, false, some,
  ◌>>=◌, ◌>>◌, subst, returns_by, ◌∙◌, ok_inj, sym, eq_iff, Bool-cases, inl, arith, ap, inr, refl,
}
use sonic_device_health_prtm.Prelude.Int.{pos}
use sonic_device_health_prtm.Json.{Json, get_or, obj, null, int}
use sonic_device_health_prtm.Holder.Defs.{Plugin}

-- `getName`, `is_valid` and `shutdown_flag` of link_flap.py.
abbrev pub shown_flap : LinkFlap.Plugin → Plugin
shown_flap p = record { get_name = p.name; valid = true; shutdown_flag = p.shutdown_flag }

-- The same of link_down.py.
abbrev pub shown_down : LinkDown.Plugin → Plugin
shown_down p = record { get_name = p.name; valid = true; shutdown_flag = p.shutdown_flag }

-- The same of link_safety.py.
abbrev pub shown_safety : LinkSafety.Plugin → Plugin
shown_safety p = record { get_name = p.name; valid = true; shutdown_flag = p.shutdown_flag }

-- `v * 1000` of a loaded value, of which only the errors matter.
abbrev pub in_milliseconds : Json → Result (Unit {0})
in_milliseconds null = err PyError.type_error
in_milliseconds (obj _) = err PyError.type_error
in_milliseconds other = ok tt

-- `events_init_subscriber`, without or with the interval for `recv_timeout`; `interval_name` is
-- `gvars.REQ_HEARTBEAT_INTERVAL`.
module _ (events_init_subscriber : Option Json → Result (Unit {0})) (interval_name : String) where
  unfoldable pub init_flap : Json → Result LinkFlap.Plugin
  init_flap config = do
    hb_int ← get_or (int (pos 2)) interval_name config
    in_milliseconds hb_int
    events_init_subscriber (some hb_int)
    ok LinkFlap.new_plugin

  unfoldable pub init_down : Result LinkDown.Plugin
  init_down = do events_init_subscriber none; ok LinkDown.new_plugin

  unfoldable pub init_safety : Result LinkSafety.Plugin
  init_safety = do events_init_subscriber none; ok LinkSafety.new_plugin

  -- `importlib.import_module` and the constructor `LoMPlugin`, where only these modules are on the
  -- path.
  unfoldable pub import_plugin : String → Json → Result Plugin
  unfolding init_flap init_down init_safety
  import_plugin name config =
      if str_eq name "link_flap"
      then (init_flap config >>= λ p. ok (shown_flap p))
      else (if str_eq name "link_down"
          then (init_down >>= λ p. ok (shown_down p))
          else (if str_eq name "link_safety"
              then (init_safety >>= λ p. ok (shown_safety p))
              else err (PyError.raised "ModuleNotFoundError")))

  init_flap-new_plugin :
      (config : Json) (p : LinkFlap.Plugin) → init_flap config ≡ ok p → LinkFlap.new_plugin ≡ p
  unfolding init_flap
  init_flap-new_plugin config p h =
      let starts : Json → Result LinkFlap.Plugin =
        λ hb_int. events_init_subscriber (some hb_int) >>= λ _. ok LinkFlap.new_plugin in
      let (hb_int, _, h1) =
        returns_by (get_or (int (pos 2)) interval_name config)
          (λ hb_int. in_milliseconds hb_int >>= λ _. starts hb_int) p h in
      let (_, _, h2) = returns_by (in_milliseconds hb_int) (λ _. starts hb_int) p h1 in
      let (_, _, h3) =
        returns_by (events_init_subscriber (some hb_int)) (λ _. ok LinkFlap.new_plugin) p h2 in
      ok_inj h3

  init-new :
      {P : Type 0} (new p : P) → (events_init_subscriber none >>= λ _. ok new) ≡ ok p → new ≡ p
  init-new new p h =
      let (_, _, e) = returns_by (events_init_subscriber none) (λ _. ok new) p h in ok_inj e

  -- Each plugin that is loaded has the name of its module and is valid, and no shutdown has been asked
  -- of it.
  pub import_plugin-get_name :
      (name : String) (config : Json) (p : Plugin)
      → import_plugin name config ≡ ok p
      → (p.get_name ≡ name) × (p.valid ≡ true) × (p.shutdown_flag ≡ false)
  unfolding import_plugin init_down init_safety
  import_plugin-get_name name config p h = elim (Bool-cases (str_eq name "link_flap")) [
    | inl flap ↦
        (let (q, e, e') =
            returns_by (init_flap config) (λ q. ok (shown_flap q)) p (ground (arith, h, flap)) in
          shown name "link_flap" flap (shown_flap LinkFlap.new_plugin) p refl refl refl
            (ap shown_flap (init_flap-new_plugin config q e) ∙ ok_inj e'))
    | inr no_flap ↦ elim (Bool-cases (str_eq name "link_down")) [
      | inl down ↦
          (let (q, e, e') =
              returns_by init_down (λ q. ok (shown_down q)) p (ground (arith, h, no_flap, down)) in
            shown name "link_down" down (shown_down LinkDown.new_plugin) p refl refl refl
              (ap shown_down (init-new LinkDown.new_plugin q e) ∙ ok_inj e'))
      | inr no_down ↦ elim (Bool-cases (str_eq name "link_safety")) [
        | inl safety ↦
            (let (q, e, e') =
                returns_by init_safety (λ q. ok (shown_safety q)) p
                  (ground (arith, h, no_flap, no_down, safety)) in
              shown name "link_safety" safety (shown_safety LinkSafety.new_plugin) p refl refl refl
                (ap shown_safety (init-new LinkSafety.new_plugin q e) ∙ ok_inj e'))
        | inr unknown ↦ absurd (ground (arith, h, no_flap, no_down, unknown))
      ]
    ]
  ]
    where
      shown :
          (n m : String)
          → str_eq n m ≡ true
          → (q r : Plugin) → q.get_name ≡ m
          → q.valid ≡ true
          → q.shutdown_flag ≡ false
          → q ≡ r
          → (r.get_name ≡ n) × (r.valid ≡ true) × (r.shutdown_flag ≡ false)
      shown n m same q r named valid calm e =
          subst (λ (x : Plugin). (x.get_name ≡ n) × (x.valid ≡ true) × (x.shutdown_flag ≡ false)) e
            (named ∙ sym ((eq_iff n m).0 same), valid, calm)
