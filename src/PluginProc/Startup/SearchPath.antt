-- ===== src/PluginProc/Startup/SearchPath.antt =====
-- The entries that `main` of python_plugins/src/plugin_proc.py makes in `sys.path`.
use sonic_device_health_prtm.Prelude.{
  String, List, ◌≡◌, ◌∷◌, ok, if◌then◌else◌, true, str_eq, Bool-cases, some, [], inl, refl, subst,
  eq_iff, arith, ◌∙◌, inr, sym, ap,
}
use sonic_device_health_prtm.PluginProc.Startup.{Setup, append_paths, set_up}
use sonic_device_health_prtm.Json.{Items, Fields, nil, cons, text, find, bool, arr, int, obj, null}
use sonic_device_health_prtm.Common.Paths.Plain.{IsPlain, plain_path-IsPlain}
use sonic_device_health_prtm.Common.Paths.{
  plain_path, is_on, path_join, IsUnique, syspath_append, is_on-syspath_append, syspath_append_once,
}
use sonic_device_health_prtm.Common.Config.{Files, Config, get_global_rc, set_global_rc_file}

-- The items of a list of texts.
abbrev pub texts : List String → Items
texts [] = nil
texts (p ∷ ps) = cons (text p) (texts ps)

module _ (ct_dir : String) where
  append_paths-IsUnique :
      (vs : Items) (ps : List String) → IsUnique ps → IsUnique (append_paths ct_dir vs ps).1
  unfolding append_paths
  append_paths-IsUnique nil ps u = u
  append_paths-IsUnique (cons (text p) vs) ps u =
      append_paths-IsUnique vs (syspath_append (path_join ct_dir p) ps)
        (syspath_append_once (path_join ct_dir p) ps u).0
  append_paths-IsUnique (cons null vs) ps u = u
  append_paths-IsUnique (cons (bool _) vs) ps u = u
  append_paths-IsUnique (cons (int _) vs) ps u = u
  append_paths-IsUnique (cons (arr _) vs) ps u = u
  append_paths-IsUnique (cons (obj _) vs) ps u = u

  append_paths-is_on :
      (q : String) (vs : Items) (ps : List String)
      → is_on q ps ≡ true
      → is_on q (append_paths ct_dir vs ps).1 ≡ true
  unfolding append_paths
  append_paths-is_on q nil ps h = h
  append_paths-is_on q (cons (text p) vs) ps h =
      append_paths-is_on q vs (syspath_append (path_join ct_dir p) ps)
        (is_on-syspath_append q (path_join ct_dir p) ps h)
  append_paths-is_on q (cons null vs) ps h = h
  append_paths-is_on q (cons (bool _) vs) ps h = h
  append_paths-is_on q (cons (int _) vs) ps h = h
  append_paths-is_on q (cons (arr _) vs) ps h = h
  append_paths-is_on q (cons (obj _) vs) ps h = h

  append_paths-texts : (paths ps : List String) → (append_paths ct_dir (texts paths) ps).0 ≡ ok tt
  unfolding append_paths
  append_paths-texts [] ps = refl
  append_paths-texts (p ∷ paths) ps =
      append_paths-texts paths (syspath_append (path_join ct_dir p) ps)

  entry : String → String
  entry p = plain_path (path_join ct_dir p)

  -- The search path has the entry of the path `p` in the directory.
  abbrev pub HasEntry : String → List String → Type 0
  HasEntry p ps = (q : String) × IsPlain q (path_join ct_dir p) × (is_on q ps ≡ true)

  append_paths-adds :
      (p : String) (paths ps : List String)
      → IsUnique ps
      → is_on p paths ≡ true
      → is_on (entry p) (append_paths ct_dir (texts paths) ps).1 ≡ true
  unfolding append_paths is_on entry
  append_paths-adds p [] ps u h = absurd (ground (arith, h))
  append_paths-adds p (q ∷ paths) ps u h = elim (Bool-cases (str_eq q p)) [
    | inl same ↦
        subst (λ x. is_on (entry x) (append_paths ct_dir (texts (q ∷ paths)) ps).1 ≡ true)
          ((eq_iff q p).0 same)
          (append_paths-is_on (entry q) (texts paths) (syspath_append (path_join ct_dir q) ps)
            (syspath_append_once (path_join ct_dir q) ps u).1)
    | inr other ↦
        append_paths-adds p paths (syspath_append (path_join ct_dir q) ps)
          (syspath_append_once (path_join ct_dir q) ps u).0 (ground (arith, h, other))
  ]

  -- The cache and the settings with which `get_global_rc` is called.
  abbrev pub configured : String → Setup → Config
  configured rc_file s = if str_eq rc_file "" then s.config else set_global_rc_file rc_file s.config

  set_up-path :
      (fs : Files) (rc_file : String) (s : Setup) (d : Fields) (paths : List String)
      → (get_global_rc fs (configured rc_file s)).0 ≡ ok d
      → find "plugin_paths" d ≡ some (arr (texts paths))
      → ((set_up fs ct_dir rc_file s).0 ≡ (append_paths ct_dir (texts paths) s.sys_path).0)
        × ((set_up fs ct_dir rc_file s).1.sys_path
            ≡ (append_paths ct_dir (texts paths) s.sys_path).1)
  unfolding set_up
  set_up-path fs rc_file s d paths h e = ground (arith, h, e)

  -- When the global RC is read and its "plugin_paths" is a list of texts, the set-up of `main`
  -- returns; then `sys.path` has every one of these paths, below the directory and less the slash that
  -- it ends in, if any, and every entry that it had before, and each of its entries once if this was so before.
  pub set_up_adds_paths :
      (fs : Files) (rc_file : String) (s : Setup) (d : Fields) (paths : List String)
      → IsUnique s.sys_path
      → (get_global_rc fs (configured rc_file s)).0 ≡ ok d
      → find "plugin_paths" d ≡ some (arr (texts paths))
      → let (r, s') = set_up fs ct_dir rc_file s in
        (r ≡ ok tt)
        × IsUnique s'.sys_path
        × ((p : String) → is_on p paths ≡ true → HasEntry p s'.sys_path)
        × ((q : String) → is_on q s.sys_path ≡ true → is_on q s'.sys_path ≡ true)
  unfolding entry
  set_up_adds_paths fs rc_file s d paths u h e =
      let (returns, path) = set_up-path fs rc_file s d paths h e in
      let vs = texts paths in
      (
        returns ∙ append_paths-texts paths s.sys_path,
        subst IsUnique (sym path) (append_paths-IsUnique vs s.sys_path u),
        λ p on. (
          entry p,
          plain_path-IsPlain (path_join ct_dir p),
          ap (is_on (entry p)) path ∙ append_paths-adds p paths s.sys_path u on,
        ),
        λ q on. ap (is_on q) path ∙ append_paths-is_on q vs s.sys_path on,
      )
