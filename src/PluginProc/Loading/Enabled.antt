-- ===== src/PluginProc/Loading/Enabled.antt =====
-- Which plugins the loading loop of python_plugins/src/plugin_proc.py comes to serve.
use sonic_device_health_prtm.Prelude.{
  String, or_else, Bool, ◌∷◌, if◌then◌else◌, false, ◌≡◌, str_eq, true, Result, [], ◌||◌, ◌⊎◌, arith,
  ok, none, subst, sym, some, ◌∙◌, ap, not, ◌&&◌, inl, inr, refl,
}
use sonic_device_health_prtm.Prelude.Dict.{Dict, contains, insert, lookup-insert}
use sonic_device_health_prtm.Prelude.Action.{◌>>◌, pure, bind-returns, Action, lift, ◌>>=◌}
use sonic_device_health_prtm.Json.{JsonModule, Json, Fields, obj, truthy, find, get}
use sonic_device_health_prtm.ClibBind.Calls.{ClibLibrary, World}
use sonic_device_health_prtm.PluginProc.Loading.{
  Host, add_holder, load_enabled, Loaded, new_holder, go_on, give_up, load_one, load_plugins,
}
use sonic_device_health_prtm.PluginProc.Requests.{Process, Req}
use sonic_device_health_prtm.Holder.Methods.{set_pipe, is_valid}
use sonic_device_health_prtm.Holder.Defs.{Holder}
use sonic_device_health_prtm.PluginProc.State.{with_world}

-- `actions_conf.get(name, {})`
abbrev own_conf : Fields → String → Json
own_conf cs name = or_else (find name cs) (obj Fields.end)

-- The truth value of `conf.get("disable", False)`.
abbrev is_off : Fields → Bool
is_off fs = truthy (or_else (find "disable" fs) (Json.bool false))

abbrev is_disabled : Json → Bool
is_disabled (obj fs) = is_off fs
is_disabled other = false

-- The plugins that the configuration lists and does not disable.
unfoldable pub enabled : Fields → Dict Json → Dict Json
enabled cs [] = []
enabled cs ((name, path) ∷ rest) =
    let others = enabled cs rest in
    if is_disabled (own_conf cs name) then others else (name, path) ∷ others

contains-insert_or :
    {V : Type 0} (k name : String) (v : V) (d : Dict V)
    → contains k (insert name v d) ≡ (str_eq name k || contains k d)
contains-insert_or k name v d = ground (arith, lookup-insert name k v d)

module _ (J : JsonModule) (lib : ClibLibrary J) (host : Host) where
  -- The loading that begins in the state `w`: the settings of each plugin, if any, are an object, and
  -- each plugin that they do not disable is constructed under its name and registered, in the state
  -- that the plugins before it have left.
  unfoldable pub LoadsAlong : Fields → Dict Json → World lib.State → Type 0
  LoadsAlong cs [] w = Unit {0}
  LoadsAlong cs ((name, path) ∷ rest) w =
      (fs : Fields) × (own_conf cs name ≡ obj fs)
      × (((is_off fs ≡ true) × LoadsAlong cs rest w)
          ⊎ ((is_off fs ≡ false)
              × ((h : Holder (Req J lib)) × ((new_holder J lib host name path (obj fs) w).0 ≡ ok h)
                  × (is_valid h ≡ true)
                  × (h.fds ≡ none)
                  × LoadsAlong cs rest (new_holder J lib host name path (obj fs) w).1)))

  -- The loading goes on in the world `w`, and has added holders to `d` for these names.
  Adds :
      (String → Bool)
      → Dict (Holder (Req J lib))
      → World lib.State
      → Result Loaded × Process J lib
      → Type 0
  Adds new d w (r, q) =
      (r ≡ ok go_on)
      × (q.world ≡ w)
      × ((k : String) → contains k q.holders ≡ (contains k d || new k))

  add_holder-Adds :
      (name : String) (h : Holder (Req J lib)) (p : Process J lib)
      → h.fds ≡ none
      → Adds (str_eq name) p.holders p.world ((add_holder J lib host name h >> pure go_on) p)
  unfolding Adds add_holder set_pipe
  add_holder-Adds name h p new =
      let (r, w) = host.os_pipe p.pipes_made in
      (
        ground (arith, new),
        ground (arith, new),
        λ k.
            ground
              (arith, new, contains-insert_or k name (record h { fds = some (r, w) }) p.holders),
      )

  load_enabled-Adds :
      (name : String) (path conf : Json) (h : Holder (Req J lib)) (p : Process J lib)
      → (new_holder J lib host name path conf p.world).0 ≡ ok h
      → is_valid h ≡ true
      → h.fds ≡ none
      → Adds
          (str_eq name)
          p.holders
          (new_holder J lib host name path conf p.world).1
          (load_enabled J lib host name path conf p)
  unfolding load_enabled
  load_enabled-Adds name path conf h p made valid new =
      let m = with_world (new_holder J lib host name path conf) in
      let p' = (m p).1 in
      subst (Adds (str_eq name) p.holders p'.world)
        (sym (
          bind-returns m
            (λ h. if is_valid h then add_holder J lib host name h >> pure go_on else pure give_up) p
            h made
          ∙ ap (λ b. (if b then add_holder J lib host name h >> pure go_on else pure give_up) p')
              valid))
        (add_holder-Adds name h p' new)

  -- What one round adds, and the rest of the loading behind it.
  load_one-Adds :
      (cs : Fields) (name : String) (path : Json) (rest : Dict Json) (p : Process J lib)
      → LoadsAlong cs ((name, path) ∷ rest) p.world
      → (w : World lib.State) × LoadsAlong cs rest w
        × Adds
            (λ k. not (is_disabled (own_conf cs name)) && str_eq name k)
            p.holders
            w
            (load_one J lib host (obj cs) name path p)
  unfolding LoadsAlong load_one Adds
  load_one-Adds cs name path rest p (fs, own, chosen) =
      let runs : Bool → Json → Action (Process J lib) Loaded =
        λ off conf. if off then pure go_on else load_enabled J lib host name path conf in
      let step : Json → Action (Process J lib) Loaded = λ conf.
        lift (get "disable" conf) >>= λ disabled.
        runs (truthy (or_else disabled (Json.bool false))) conf in
      let at_conf : World lib.State → Json → Type 0 =
        λ w conf. Adds (λ k. not (is_disabled conf) && str_eq name k) p.holders w (step conf p) in
      let at_off : World lib.State → Bool → Type 0 =
        λ w off. Adds (λ k. not off && str_eq name k) p.holders w (runs off (obj fs) p) in
      elim chosen [
        | inl (off, along) ↦ (
          p.world,
          along,
          subst (at_conf p.world) (sym own) (subst (at_off p.world) (sym off) (skipped p)),
        )
        | inr (on, (h, made, valid, new, along)) ↦
            let w = (new_holder J lib host name path (obj fs) p.world).1 in
            (
              w,
              along,
              subst (at_conf w) (sym own) (
                  subst (at_off w) (sym on)
                    (load_enabled-Adds name path (obj fs) h p made valid new)),
            )
      ]
    where
      skipped : (q : Process J lib) → Adds (λ k. false) q.holders q.world (ok go_on, q)
      skipped q = (refl, refl, λ k. ground arith)

  -- When the settings of each listed plugin, if any, are an object and each plugin that they do not
  -- disable is constructed and registers in the state that the ones before it have left, the loading
  -- loop goes through to its end, and the names that have a holder behind it are exactly those that
  -- had one before and those of the listed plugins that are not disabled.
  pub load_plugins_loads_enabled :
      (cs : Fields) (plugins : Dict Json) (p : Process J lib)
      → LoadsAlong cs plugins p.world
      → let (r, q) = load_plugins J lib host (obj cs) plugins p in
        (r ≡ ok go_on)
        × ((name : String)
            → contains name q.holders
              ≡ (contains name p.holders || contains name (enabled cs plugins)))
  unfolding load_plugins enabled Adds
  load_plugins_loads_enabled cs [] p all = (refl, λ name. ground arith)
  load_plugins_loads_enabled cs ((name, path) ∷ rest) p all =
      let (w, along, (goes, left, adds)) = load_one-Adds cs name path rest p all in
      let m = load_one J lib host (obj cs) name path in
      let q = (m p).1 in
      let (done, added) =
        load_plugins_loads_enabled cs rest q (subst (LoadsAlong cs rest) (sym left) along) in
      let run =
        bind-returns m
          (λ done. elim done [
            | go_on ↦ load_plugins J lib host (obj cs) rest
            | give_up ↦ pure give_up
          ])
          p go_on goes in
      (
        ap (λ x. x.0) run ∙ done,
        λ k. ap (λ x. contains k x.1.holders) run ∙ ground (arith, added k, adds k),
      )
