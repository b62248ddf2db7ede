-- ===== src/PluginProc/Startup/Waiting.antt =====
-- The wait of `main_run` in python_plugins/src/plugin_proc.py for the configuration.
use mathlib.Core.Option.{some_inj}
use sonic_device_health_prtm.Prelude.{
  String, List, ◌∷◌, ◌≡◌, true, [], ok, false, some, ◌++◌, Mem, arith, ap, Bool, ok_inj, ◌∙◌, subst,
  Option, sym, err, Bool-cases, inl, PyError, mem-cons_self, inr, mem-cons_of_mem, if◌then◌else◌,
  str_eq,
}
use sonic_device_health_prtm.Prelude.Action.{◌>>=◌, bind-ok, pure, bind-returns, Action, bind-fails}
use sonic_device_health_prtm.Common.Config.{
  Files, Config, is_running_config_available, get_proc_plugins_conf, get_actions_conf,
  get_global_rc, config_file, get_config_path, get_proc_plugins_conf_file, and_then,
  get_actions_conf_file, get_actions_binding_conf_file, existing, config_dir,
}
use sonic_device_health_prtm.PluginProc.Startup.{read_conf, wait_conf}
use sonic_device_health_prtm.Common.Config.Available.{
  ReadsEntry, Reads, entry_of, is_running_config_available-Reads,
}
use sonic_device_health_prtm.Json.{Json, truthy, obj}
use sonic_device_health_prtm.Common.Config.Cache.{get_global_rc_raises}

module _ (ct_path proc_name : String) where
  -- The tests on these files return False, one after the other.
  abbrev pub Fails : List Files → Config → Type 0
  Fails [] c = Unit {0}
  Fails (fs ∷ early) c =
      ((is_running_config_available fs ct_path c).0 ≡ ok false)
      × Fails early (is_running_config_available fs ct_path c).1

  -- What these tests leave.
  abbrev pub tested : List Files → Config → Config
  tested [] c = c
  tested (fs ∷ early) c = tested early (is_running_config_available fs ct_path c).1

  -- The entry of the process in a file that exists, and what another such file loads as.
  abbrev pub Conf : Files → Json × Json → Type 0
  Conf fs (plugins, actions_conf) =
      ((fl : String) × (fs.exists fl ≡ true)
        × (ok plugins ≡ entry_of fs ct_path proc_name (fs.load fl)))
      × ((fl : String) × (fs.exists fl ≡ true) × (ok actions_conf ≡ fs.load fl))

  read_conf-Conf :
      (fs : Files) (c : Config) (conf : Json × Json)
      → ReadsEntry fs ct_path proc_name (get_proc_plugins_conf fs ct_path proc_name) c
      → Reads fs ct_path (get_actions_conf fs ct_path) c
      → (read_conf fs ct_path proc_name c).0 ≡ ok conf
      → Conf fs conf
  unfolding read_conf ReadsEntry Reads
  read_conf-Conf fs c conf (fl, there, e) (fl', there', e') h =
      let plugins_conf = get_proc_plugins_conf fs ct_path proc_name in
      let actions_conf = get_actions_conf fs ct_path in
      let (v, g, i, _) = bind-ok plugins_conf (λ v. actions_conf >>= λ a. pure (v, a)) c conf h in
      let (a, g', i', _) = bind-ok actions_conf (λ a. pure (v, a)) (plugins_conf c).1 conf i in
      let same : (plugins_conf c).1 ≡ c = ap (λ r. r.1) e in
      let given = ok_inj i' in
      subst (Conf fs) given (
        (fl, there, sym g ∙ ap (λ r. r.0) e),
        (fl', there', sym g' ∙ ap (λ s. (actions_conf s).0) same ∙ ap (λ r. r.0) e'),
      )

  found-Conf :
      (fs : Files) (c : Config) (conf : Json × Json)
      → (is_running_config_available fs ct_path c).0 ≡ ok true
      → (read_conf fs ct_path proc_name (is_running_config_available fs ct_path c).1).0 ≡ ok conf
      → Conf fs conf
  found-Conf fs c conf there h =
      let (plugins, actions, _) =
        is_running_config_available-Reads fs ct_path proc_name "" c there in
      read_conf-Conf fs (is_running_config_available fs ct_path c).1 conf plugins actions h

  abbrev go_on_with : Files → List Files → Bool → Action Config (Option (Json × Json))
  go_on_with fs later true = read_conf fs ct_path proc_name >>= λ conf. pure (some conf)
  go_on_with fs later false = wait_conf ct_path proc_name later

  -- When the wait ends with the plugins and the settings of the actions, then, on the files as one of
  -- the tests found them, the plugins are the entry of the process in what a file that exists loads
  -- as, and the settings are what a file that exists loads as: neither is the default for a missing
  -- file.
  pub wait_conf-Conf :
      (all : List Files) (c : Config) (conf : Json × Json)
      → (wait_conf ct_path proc_name all c).0 ≡ ok (some conf)
      → (fs : Files) × Mem fs all × Conf fs conf
  unfolding wait_conf
  wait_conf-Conf [] c conf h = absurd (ground (arith, h))
  wait_conf-Conf (fs ∷ later) c conf h =
      let test = is_running_config_available fs ct_path in
      let next = go_on_with fs later in
      let (there, e, g, _) = bind-ok test next c (some conf) h in
      elim (Bool-cases there) [
        | inl found ↦
            (let (conf', k, i, _) =
                bind-ok (read_conf fs ct_path proc_name) (λ conf. pure (some conf)) (test c).1
                  (some conf) (ap (λ b. (next b (test c).1).0) (sym found) ∙ g) in
              (
                fs,
                mem-cons_self,
                found-Conf fs c conf (e ∙ ap ok found) (k ∙ ap ok (some_inj.0 (ok_inj i))),
              ))
        | inr not_yet ↦
            (let (fs', in_later, found) =
                wait_conf-Conf later (test c).1 conf
                  (ap (λ b. (next b (test c).1).0) (sym not_yet) ∙ g) in
              (fs', mem-cons_of_mem fs in_later, found))
      ]

  -- When the tests on some files return False and the next one returns True, the wait ends with what
  -- the calls behind it read from the files of that test, or raises what they raise; the files of
  -- later tests are not read.
  pub wait_conf_ends :
      (early later : List Files) (fs : Files) (c : Config)
      → Fails early c
      → (is_running_config_available fs ct_path (tested early c)).0 ≡ ok true
      → wait_conf ct_path proc_name (early ++ fs ∷ later) c
        ≡ (read_conf fs ct_path proc_name >>= λ conf. pure (some conf))
            (is_running_config_available fs ct_path (tested early c)).1
  unfolding wait_conf
  wait_conf_ends [] later fs c fails there =
      bind-returns (is_running_config_available fs ct_path) (go_on_with fs later) c true there
  wait_conf_ends (f ∷ early) later fs c fails there =
      bind-returns (is_running_config_available f ct_path) (go_on_with f (early ++ fs ∷ later)) c
        false fails.0
      ∙ wait_conf_ends early later fs (is_running_config_available f ct_path c).1 fails.1 there

  -- While nothing is in the cache and the global RC file does not exist, the first test raises, and
  -- so does the wait, whatever the later tests would find.
  pub wait_conf_raises :
      (fs : Files) (later : List Files) (c : Config)
      → truthy (obj c.rc_data) ≡ false
      → fs.exists c.rc_file ≡ false
      → wait_conf ct_path proc_name (fs ∷ later) c
        ≡ (err (PyError.raised "Sorry, global rc file missing; break"), c)
  unfolding wait_conf is_running_config_available config_file get_config_path
  wait_conf_raises fs later c empty missing =
      let x = PyError.raised "Sorry, global rc file missing; break" in
      bind-fails (is_running_config_available fs ct_path) (go_on_with fs later) c x c (
        bind-fails (get_proc_plugins_conf_file fs ct_path false)
          (λ fl.
            if str_eq fl ""
            then pure false
            else and_then fs (get_actions_conf_file fs ct_path false)
                (and_then fs (get_actions_binding_conf_file fs ct_path false) (pure true)))
          c x c
          (bind-fails (get_config_path fs ct_path false)
            (λ cfg. if str_eq cfg "" then pure "" else existing fs "proc_plugins_conf_name" cfg) c x
            c
            (bind-fails (get_global_rc fs)
              (λ d. if truthy (obj d) then config_dir fs ct_path false d else pure "") c x c
              (get_global_rc_raises fs c empty missing))))
