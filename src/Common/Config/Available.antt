-- ===== src/Common/Config/Available.antt =====
-- What `is_running_config_available` of python_plugins/src/common.py promises to the calls behind it.
use sonic_device_health_prtm.Prelude.Action.{
  ◌>>=◌, Action, pure, lift, bind-ok, bind-state, if-state,
}
use sonic_device_health_prtm.Prelude.{
  String, Bool, ap, ◌≡◌, if◌then◌else◌, ok, true, false, ◌∙◌, str_eq, refl, arith, sym, subst,
  Result, err,
}
use sonic_device_health_prtm.Common.Config.{
  Files, is_running_config_available, get_data, Config, and_then, config_file,
  get_actions_binding_conf_file, get_actions_conf_file, get_proc_plugins_conf, get_actions_conf,
  get_actions_binding_conf, get_proc_plugins_conf_file, part_of,
}
use sonic_device_health_prtm.Json.{Json}
use sonic_device_health_prtm.Common.Config.Cache.{IsCached, config_file-state, config_file-Finds}

module _ (fs : Files) (ct_path : String) where
  -- The attribute names a file that exists, and the call leaves `c` as it is.
  Found : String → Config → Type 0
  Found name c =
      (fl : String) × (fs.exists fl ≡ true)
      × (str_eq fl "" ≡ false)
      × (config_file fs name ct_path false c ≡ (ok fl, c))

  -- The call gives what a file that exists loads as, and leaves `c` as it is.
  unfoldable pub Reads : Action Config Json → Config → Type 0
  Reads m c = (fl : String) × (fs.exists fl ≡ true) × (m c ≡ (fs.load fl, c))

  -- The entry for a name, or the whole for the empty name, of what was loaded.
  unfoldable pub entry_of : String → Result Json → Result Json
  entry_of key (ok d) = part_of fs key d
  entry_of key (err x) = err x

  -- The call gives the entry for `key` of what a file that exists loads as, and leaves `c` as it is.
  unfoldable pub ReadsEntry : String → Action Config Json → Config → Type 0
  ReadsEntry key m c =
      (fl : String) × (fs.exists fl ≡ true) × (m c ≡ (entry_of key (fs.load fl), c))

  config_file-Found :
      (name fl : String) (c : Config)
      → IsCached c
      → (config_file fs name ct_path false c).0 ≡ ok fl
      → str_eq fl "" ≡ false
      → Found name c
  unfolding Found
  config_file-Found name fl c cached h t = (
    fl,
    (config_file-Finds fs name ct_path fl false c h t).there,
    t,
    ground (arith, h, config_file-state fs name ct_path false c cached),
  )

  else-true :
      (b : Bool) (n : Action Config Bool) (s : Config)
      → ((if b then pure false else n) s).0 ≡ ok true
      → (b ≡ false) × ((n s).0 ≡ ok true)
  else-true true n s k = ground (arith, k)
  else-true false n s k = (refl, k)

  and_then-true :
      (m : Action Config String) (rest : Action Config Bool) (c : Config)
      → (and_then fs m rest c).0 ≡ ok true
      → (fl : String) × ((m c).0 ≡ ok fl)
        × (str_eq fl "" ≡ false)
        × ((rest (m c).1).0 ≡ ok true)
        × ((and_then fs m rest c).1 ≡ (rest (m c).1).1)
  and_then-true m rest c h =
      let (fl, e, g, st) = bind-ok m (λ fl. if str_eq fl "" then pure false else rest) c true h in
      let (named, g') = else-true (str_eq fl "") rest (m c).1 g in
      (fl, e, named, g', st ∙ ap (λ b. ((if b then pure false else rest) (m c).1).1) named)

  and_then-state :
      (name : String) (rest : Action Config Bool) (c : Config)
      → IsCached c
      → (rest c).1 ≡ c
      → (and_then fs (config_file fs name ct_path false) rest c).1 ≡ c
  and_then-state name rest c cached h =
      bind-state (config_file fs name ct_path false)
        (λ fl. if str_eq fl "" then pure false else rest) c
        (config_file-state fs name ct_path false c cached)
        (λ fl. if-state (str_eq fl "") (pure false) rest c refl h)

  data_of : String → Action Config Json
  data_of name = config_file fs name ct_path false >>= λ fl. lift (get_data fs fl)

  data_of-Reads : (name : String) (c : Config) → Found name c → Reads (data_of name) c
  unfolding Found Reads data_of get_data
  data_of-Reads name c (fl, there, t, e) =
      (fl, there, ap (λ x. ((λ _. x) >>= λ f. lift (get_data fs f)) c) e ∙ ground (arith, there, t))

  entry_in : String → String → Action Config Json
  entry_in key name = do
    fl ← config_file fs name ct_path false
    d ← lift (get_data fs fl)
    lift (part_of fs key d)

  entry_same :
      (key : String) (r : Result Json) (c : Config)
      → (lift r >>= λ d. lift (part_of fs key d)) c ≡ (entry_of key r, c)
  unfolding entry_of
  entry_same key (ok d) c = refl
  entry_same key (err x) c = refl

  entry_in-ReadsEntry :
      (key name : String) (c : Config) → Found name c → ReadsEntry key (entry_in key name) c
  unfolding Found ReadsEntry entry_in get_data
  entry_in-ReadsEntry key name c (fl, there, t, e) =
      let rest : String → Action Config Json =
        λ f. lift (get_data fs f) >>= λ d. lift (part_of fs key d) in
      (
        fl,
        there,
        ap (λ x. ((λ _. x) >>= rest) c) e
            ∙ entry_same key (get_data fs fl) c
            ∙ ground (arith, there, t),
      )

  binding : Action Config Bool
  binding = and_then fs (get_actions_binding_conf_file fs ct_path false) (pure true)

  actions : Action Config Bool
  unfolding binding
  actions = and_then fs (get_actions_conf_file fs ct_path false) binding

  binding-state : (c : Config) → IsCached c → (binding c).1 ≡ c
  unfolding binding
  binding-state c cached = and_then-state "actions_binding_config_name" (pure true) c cached refl

  actions-state : (c : Config) → IsCached c → (actions c).1 ≡ c
  unfolding actions
  actions-state c cached =
      and_then-state "actions_config_name" binding c cached (binding-state c cached)

  binding-Found :
      (c : Config) → IsCached c → (binding c).0 ≡ ok true → Found "actions_binding_config_name" c
  unfolding binding
  binding-Found c cached h =
      let (fl, e, t, _, _) =
        and_then-true (get_actions_binding_conf_file fs ct_path false) (pure true) c h in
      config_file-Found "actions_binding_config_name" fl c cached e t

  actions-Found :
      (c : Config)
      → IsCached c
      → (actions c).0 ≡ ok true
      → Found "actions_config_name" c × Found "actions_binding_config_name" c
  unfolding actions
  actions-Found c cached h =
      let (fl, e, t, g, _) = and_then-true (get_actions_conf_file fs ct_path false) binding c h in
      let same = config_file-state fs "actions_config_name" ct_path false c cached in
      (
        config_file-Found "actions_config_name" fl c cached e t,
        binding-Found c cached (ap (λ s. (binding s).0) (sym same) ∙ g),
      )

  -- When `is_running_config_available` has returned True, then in the state that it leaves, and on the
  -- same files, `get_actions_conf` gives what a file that exists loads as, and
  -- `get_proc_plugins_conf` and `get_actions_binding_conf` give the entry for their argument, or the
  -- whole for the empty name, of what a file that exists loads as: none falls back to the empty
  -- default for a missing file.
  pub is_running_config_available-Reads :
      (proc_name action_name : String) (c : Config)
      → (is_running_config_available fs ct_path c).0 ≡ ok true
      → let c' = (is_running_config_available fs ct_path c).1 in
        ReadsEntry proc_name (get_proc_plugins_conf fs ct_path proc_name) c'
        × Reads (get_actions_conf fs ct_path) c'
        × ReadsEntry action_name (get_actions_binding_conf fs ct_path action_name) c'
  unfolding is_running_config_available actions binding entry_in data_of get_proc_plugins_conf
      get_actions_conf get_actions_binding_conf
  is_running_config_available-Reads proc_name action_name c h =
      let (fl, e, t, g, st) =
        and_then-true (get_proc_plugins_conf_file fs ct_path false) actions c h in
      let f = config_file-Finds fs "proc_plugins_conf_name" ct_path fl false c e t in
      let c1 = (get_proc_plugins_conf_file fs ct_path false c).1 in
      let at : c1 ≡ f.left =
        ap (λ r. r.1) f.same
        ∙ config_file-state fs "proc_plugins_conf_name" ct_path false f.left f.cached in
      let cached : IsCached c1 = subst IsCached (sym at) f.cached in
      let again =
        ap (λ s. (get_proc_plugins_conf_file fs ct_path false s).0) at
        ∙ sym (ap (λ r. r.0) f.same)
        ∙ e in
      let (found, found') = actions-Found c1 cached g in
      let final = sym (st ∙ actions-state c1 cached) in
      subst
        (λ s.
          ReadsEntry proc_name (get_proc_plugins_conf fs ct_path proc_name) s
          × Reads (get_actions_conf fs ct_path) s
          × ReadsEntry action_name (get_actions_binding_conf fs ct_path action_name) s)
        final
        (
          entry_in-ReadsEntry proc_name "proc_plugins_conf_name" c1
              (config_file-Found "proc_plugins_conf_name" fl c1 cached again t),
          data_of-Reads "actions_config_name" c1 found,
          entry_in-ReadsEntry action_name "actions_binding_config_name" c1 found',
        )
