-- ===== src/Common/Config/Cache.antt =====
-- The cache of the global RC file in python_plugins/src/common.py, and the calls that go through it.
use sonic_device_health_prtm.Prelude.{
  String, ◌≡◌, true, Bool, ok, Bool-cases, str_eq, inl, false, arith, inr, Result-cases, some, none,
  if◌then◌else◌, refl, ap, eq_iff, err, PyError,
}
use sonic_device_health_prtm.Prelude.Action.{Action, ◌>>=◌, pure, bind-state, bind-ok, if-state}
use sonic_device_health_prtm.Common.Config.{
  get_global_rc, Files, Config, read_rc, existing, config_file, config_dir, join_value,
  get_config_path, set_global_rc_file, load_rc, item_of,
}
use sonic_device_health_prtm.Json.{Fields, truthy, obj, end, Json, item, text, bool, int, arr, null}

abbrev pub IsCached : Config → Type 0
IsCached c = truthy (obj c.rc_data) ≡ true

get_global_rc-IsCached :
    (fs : Files) (c : Config) (d : Fields)
    → (get_global_rc fs c).0 ≡ ok d
    → truthy (obj d) ≡ true
    → (get_global_rc fs c).1.rc_data ≡ d
unfolding get_global_rc read_rc
get_global_rc-IsCached fs c d h t = elim (Bool-cases (truthy (obj c.rc_data))) [
  | inl cached ↦ ground (arith, cached, h)
  | inr fresh ↦ elim (Bool-cases (fs.exists c.rc_file)) [
    | inr missing ↦ ground (arith, fresh, missing, h)
    | inl there ↦ elim (Result-cases (load_rc fs c.rc_file)) [
      | inr (x, e) ↦ ground (arith, fresh, there, e, h)
      | inl (none, e) ↦ ground (arith, fresh, there, e, h, t)
      | inl (some v, e) ↦ ground (arith, fresh, there, e, h)
    ]
  ]
]

-- When `get_global_rc` has returned a non-empty object, each later call returns the same and reads no
-- file, whatever the files are by then, until `set_global_rc_file`: then the call reads the new file.
pub rc_kept_until_set :
    (fs later : Files) (c : Config) (d : Fields) (fl : String)
    → (get_global_rc fs c).0 ≡ ok d
    → truthy (obj d) ≡ true
    → let c' = (get_global_rc fs c).1 in
      (get_global_rc later c' ≡ (ok d, c'))
      × (get_global_rc later (set_global_rc_file fl c')
          ≡ read_rc later (record { rc_file = fl; rc_data = end }))
unfolding get_global_rc
rc_kept_until_set fs later c d fl h t = ground (arith, get_global_rc-IsCached fs c d h t, t)

module _ (fs : Files) where
  pub get_global_rc_raises :
      (c : Config)
      → truthy (obj c.rc_data) ≡ false
      → fs.exists c.rc_file ≡ false
      → get_global_rc fs c ≡ (err (PyError.raised "Sorry, global rc file missing; break"), c)
  unfolding get_global_rc read_rc
  get_global_rc_raises c empty missing = ground (arith, empty, missing)

  join_value-state : (base : String) (v : Json) (c : Config) → (join_value fs base v c).1 ≡ c
  unfolding join_value
  join_value-state base (text s) c = refl
  join_value-state base null c = refl
  join_value-state base (bool _) c = refl
  join_value-state base (int _) c = refl
  join_value-state base (arr _) c = refl
  join_value-state base (obj _) c = refl

  config_dir-state :
      (ct_path : String) (static : Bool) (d : Fields) (c : Config)
      → (config_dir fs ct_path static d c).1 ≡ c
  unfolding config_dir
  config_dir-state ct_path static d c =
      elim (Result-cases
        (item (if static then "config_static_path" else "config_running_path") d)) [
          | inr (x, e) ↦ ground (arith, e)
          | inl (v, e) ↦ ground (arith, e, join_value-state ct_path v c)
        ]

  get_global_rc-same : (c : Config) → IsCached c → get_global_rc fs c ≡ (ok c.rc_data, c)
  unfolding get_global_rc
  get_global_rc-same c cached = simp cached

  get_global_rc-state : (c : Config) → IsCached c → (get_global_rc fs c).1 ≡ c
  get_global_rc-state c cached = ap (λ r. r.1) (get_global_rc-same c cached)

  abbrev if_exists : String → String
  if_exists fl = if fs.exists fl then fl else ""

  abbrev found_in : String → Json → Action Config String
  found_in cfg_path v = join_value fs cfg_path v >>= λ fl. pure (if_exists fl)

  existing-state :
      (name cfg_path : String) (c : Config) → IsCached c → (existing fs name cfg_path c).1 ≡ c
  unfolding existing
  existing-state name cfg_path c cached =
      bind-state (get_global_rc fs) (λ d. item_of fs name d >>= found_in cfg_path) c
        (get_global_rc-state c cached)
        (λ d. bind-state (item_of fs name d) (found_in cfg_path) c refl (λ v.
          bind-state (join_value fs cfg_path v) (λ fl. pure (if_exists fl)) c
            (join_value-state cfg_path v c) (λ fl. refl)))

  if_exists-exists :
      (w fl : String) → ok (if_exists w) ≡ ok fl → str_eq fl "" ≡ false → fs.exists fl ≡ true
  if_exists-exists w fl h t = ground (arith, h, t, eq_iff fl "")

  existing-exists :
      (name cfg_path fl : String) (c : Config)
      → (existing fs name cfg_path c).0 ≡ ok fl
      → str_eq fl "" ≡ false
      → fs.exists fl ≡ true
  unfolding existing
  existing-exists name cfg_path fl c h t =
      let (d, _, g, _) =
        bind-ok (get_global_rc fs) (λ d. item_of fs name d >>= found_in cfg_path) c fl h in
      let c' = (get_global_rc fs c).1 in
      let (v, _, i, _) = bind-ok (item_of fs name d) (found_in cfg_path) c' fl g in
      let (w, _, j, _) = bind-ok (join_value fs cfg_path v) (λ w. pure (if_exists w)) c' fl i in
      if_exists-exists w fl j t

  abbrev path_in : String → String → Action Config String
  path_in name cfg_path = if str_eq cfg_path "" then pure "" else existing fs name cfg_path

  path_in-state :
      (name cfg_path : String) (c : Config) → IsCached c → (path_in name cfg_path c).1 ≡ c
  path_in-state name cfg_path c cached =
      if-state (str_eq cfg_path "") (pure "") (existing fs name cfg_path) c refl
        (existing-state name cfg_path c cached)

  abbrev dir_in : String → Bool → Fields → Action Config String
  dir_in ct_path static d = if truthy (obj d) then config_dir fs ct_path static d else pure ""

  dir_in-state :
      (ct_path : String) (static : Bool) (d : Fields) (c : Config)
      → (dir_in ct_path static d c).1 ≡ c
  dir_in-state ct_path static d c =
      if-state (truthy (obj d)) (config_dir fs ct_path static d) (pure "") c
        (config_dir-state ct_path static d c) refl

  get_config_path-state :
      (ct_path : String) (static : Bool) (c : Config)
      → IsCached c
      → (get_config_path fs ct_path static c).1 ≡ c
  unfolding get_config_path
  get_config_path-state ct_path static c cached =
      bind-state (get_global_rc fs) (dir_in ct_path static) c (get_global_rc-state c cached)
        (λ d. dir_in-state ct_path static d c)

  pub config_file-state :
      (name ct_path : String) (static : Bool) (c : Config)
      → IsCached c
      → (config_file fs name ct_path static c).1 ≡ c
  unfolding config_file
  config_file-state name ct_path static c cached =
      bind-state (get_config_path fs ct_path static) (path_in name) c
        (get_config_path-state ct_path static c cached) (λ cfg. path_in-state name cfg c cached)

  if-nonempty :
      (b : Bool) (m : Action Config String) (c : Config) (fl : String)
      → ((if b then m else pure "") c).0 ≡ ok fl
      → str_eq fl "" ≡ false
      → b ≡ true
  if-nonempty true m c fl h t = refl
  if-nonempty false m c fl h t = ground (arith, h, t, eq_iff fl "")

  else-nonempty :
      (b : Bool) (m : Action Config String) (c : Config) (fl : String)
      → ((if b then pure "" else m) c).0 ≡ ok fl
      → str_eq fl "" ≡ false
      → (b ≡ false) × ((m c).0 ≡ ok fl)
  else-nonempty true m c fl h t = ground (arith, h, t, eq_iff fl "")
  else-nonempty false m c fl h t = (refl, h)

  -- From `c`, a call has found the file `fl` and left the state `c'`.
  pub record Finds (name ct_path : String) (static : Bool) (c : Config) (fl : String) : Type 0 where
    pub left : Config
    pub cached : IsCached left
    pub same : config_file fs name ct_path static c ≡ config_file fs name ct_path static left
    pub there : fs.exists fl ≡ true

  pub config_file-Finds :
      (name ct_path fl : String) (static : Bool) (c : Config)
      → (config_file fs name ct_path static c).0 ≡ ok fl
      → str_eq fl "" ≡ false
      → Finds name ct_path static c fl
  unfolding config_file get_config_path
  config_file-Finds name ct_path fl static c h t =
      let (cfg, e, g, _) = bind-ok (get_config_path fs ct_path static) (path_in name) c fl h in
      let (d, e', g', _) = bind-ok (get_global_rc fs) (dir_in ct_path static) c cfg e in
      let c0 = (get_global_rc fs c).1 in
      let (some_dir, g'') =
        else-nonempty (str_eq cfg "") (existing fs name cfg) (get_config_path fs ct_path static c).1
          fl g t in
      let some_rc =
        if-nonempty (truthy (obj d)) (config_dir fs ct_path static d) c0 cfg g' some_dir in
      let kept = get_global_rc-IsCached fs c d e' some_rc in
      let cached : IsCached c0 = ground (arith, kept, some_rc) in
      let again : get_global_rc fs c ≡ get_global_rc fs c0 =
        ground (arith, get_global_rc-same c0 cached, e', kept) in
      record {
        left = c0;
        cached = cached;
        same = ap (λ x. (((λ _. x) >>= dir_in ct_path static) >>= path_in name) c) again;
        there = existing-exists name cfg fl (get_config_path fs ct_path static c).1 g'' t;
      }
