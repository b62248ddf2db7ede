-- ===== src/PluginProc/Loading/Keep.antt =====
-- An invariant of the process that a registered holder keeps is kept by the loading loop of
-- python_plugins/src/plugin_proc.py, whether it gives up, raises or goes on.
use sonic_device_health_prtm.Prelude.{
  String, ◌≡◌, true, ok, Option, or_else, Bool, false, if◌then◌else◌, ◌∷◌, [], str_eq, ◌&&◌, none,
  some, err, Result,
}
use sonic_device_health_prtm.Prelude.Dict.{Dict}
use sonic_device_health_prtm.Prelude.Action.{
  Action, ◌>>◌, pure, bind-keeps, lift, if-keeps, ◌>>=◌, bind-keeps_at,
}
use sonic_device_health_prtm.Holder.Methods.{is_valid}
use sonic_device_health_prtm.Json.{
  JsonModule, Json, obj, Fields, truthy, get, text, bool, int, arr, null,
}
use sonic_device_health_prtm.Holder.Defs.{Holder, Plugin, blank}
use sonic_device_health_prtm.ClibBind.Calls.{ClibLibrary, World, Client, register_action, is_true}
use sonic_device_health_prtm.PluginProc.Loading.{
  Host, add_holder, load_enabled, load_one, load_plugins, Loaded, go_on, new_holder, give_up,
  load_plugin, register_plugin, module_name, caught,
}
use sonic_device_health_prtm.PluginProc.Requests.{Process, Req}
use sonic_device_health_prtm.PluginProc.State.{with_world}
use sonic_device_health_prtm.ClibBind.Called.{Called, not_called, registering_action}

module _ (J : JsonModule) (lib : ClibLibrary J) (host : Host) (P : Process J lib → Type 0)
    (worlds : (w : World lib.State) (p : Process J lib)
      → Called J lib p.world w
      → P p
      → P (record p { world = w }))
    (adds : (name : String) (path conf : Json) (h : Holder (Req J lib)) (p : Process J lib)
        (w : World lib.State)
      → (new_holder J lib host name path conf w).0 ≡ ok h
      → is_valid h ≡ true
      → P p
      → P (add_holder J lib host name h p).1) where
  load_plugin-Called :
      (name file : String) (conf : Json) (w : World lib.State)
      → Called J lib w (load_plugin J lib host name file conf w).1
  unfolding load_plugin register_plugin
  load_plugin-Called name file conf w =
      bind-keeps_at (Called J lib w) (lift (host.load_module (module_name file) conf)) keeps w
        not_called (λ plugin _. kept (str_eq name plugin.get_name && plugin.valid) plugin)
    where
      keeps : Plugin → Client J lib (Option Plugin)
      keeps plugin =
          if str_eq name plugin.get_name && plugin.valid
          then register_plugin J lib host name plugin
          else pure none

      kept :
          (b : Bool) (plugin : Plugin)
          → Called J lib w ((if b then register_plugin J lib host name plugin else pure none) w).1
      kept true plugin =
          bind-keeps_at (Called J lib w) (register_action J lib name)
            (λ ret. pure (if is_true ret then some plugin else none)) w (registering_action name)
            (λ _ _. registering_action name)
      kept false plugin = not_called

  caught-Called :
      {A : Type 0} (m : Client J lib (Option A)) (w v : World lib.State)
      → Called J lib w (m v).1
      → Called J lib w (caught J lib host m v).1
  caught-Called {A} m w v c = go (m v) c
    where
      go :
          (x : Result (Option A) × World lib.State)
          → Called J lib w x.1
          → Called J lib w (caught J lib host (λ _. x) v).1
      go (ok o, u) k = k
      go (err e, u) k = k

  new_holder-Called :
      (name : String) (path conf : Json) (w : World lib.State)
      → Called J lib w (new_holder J lib host name path conf w).1
  unfolding new_holder
  new_holder-Called name (text file) conf w =
      bind-keeps_at (Called J lib w) (lift (get w.binding.gvars.req_pause conf)) holder_of w
        not_called
        (λ pause _.
          bind-keeps_at (Called J lib w) loads (λ plugin. pure (made pause plugin)) w
            (caught-Called (load_plugin J lib host name file conf) w w
              (load_plugin-Called name file conf w))
            (λ _ _.
              caught-Called (load_plugin J lib host name file conf) w w
                (load_plugin-Called name file conf w)))
    where
      loads : Client J lib (Option Plugin)
      loads = caught J lib host (load_plugin J lib host name file conf)

      made : Option Json → Option Plugin → Holder (Req J lib)
      made pause none = blank pause
      made pause (some p) = record (blank pause) { name = name; plugin = some p }

      holder_of : Option Json → Client J lib (Holder (Req J lib))
      holder_of pause = loads >>= λ plugin. pure (elim plugin [
        | none ↦ blank pause
        | some p ↦ record (blank pause) { name = name; plugin = some p }
      ])
  new_holder-Called name null conf w = not_called
  new_holder-Called name (bool _) conf w = not_called
  new_holder-Called name (int _) conf w = not_called
  new_holder-Called name (arr _) conf w = not_called
  new_holder-Called name (obj _) conf w = not_called

  load_enabled-keeps :
      (name : String) (path conf : Json) (p : Process J lib)
      → P p
      → P (load_enabled J lib host name path conf p).1
  unfolding load_enabled
  load_enabled-keeps name path conf p all =
      let added : Holder (Req J lib) → Action (Process J lib) Loaded =
        λ h. add_holder J lib host name h >> pure go_on in
      let made = new_holder J lib host name path conf in
      let held = worlds (made p.world).1 p (new_holder-Called name path conf p.world) all in
      bind-keeps_at P (with_world made) (λ h. if is_valid h then added h else pure give_up) p held
        (λ h e.
          if-keeps P (is_valid h) (added h) (pure give_up) (with_world made p).1
            (λ v.
              bind-keeps P (add_holder J lib host name h) (λ _. pure go_on) (with_world made p).1
                (adds name path conf h (with_world made p).1 p.world e v held) (λ _ _ k. k))
            held)

  load_one-keeps :
      (conf : Json) (name : String) (path : Json) (p : Process J lib)
      → P p
      → P (load_one J lib host conf name path p).1
  unfolding load_one
  load_one-keeps conf name path p all =
      let own : Option Json → Json = λ found. or_else found (obj Fields.end) in
      let off : Option Json → Bool = λ disabled. truthy (or_else disabled (Json.bool false)) in
      let entry : Json → Option Json → Action (Process J lib) Loaded =
        λ c disabled. if off disabled then pure go_on else load_enabled J lib host name path c in
      bind-keeps P (lift (get name conf))
        (λ found. lift (get "disable" (own found)) >>= entry (own found)) p all
        (λ found t held.
          bind-keeps P (lift (get "disable" (own found))) (entry (own found)) t held
            (λ disabled u kept.
              if-keeps P (off disabled) (pure go_on) (load_enabled J lib host name path (own found))
                u (λ _. kept) (load_enabled-keeps name path (own found) u kept)))

  pub load_plugins-keeps :
      (conf : Json) (plugins : Dict Json) (p : Process J lib)
      → P p
      → P (load_plugins J lib host conf plugins p).1
  unfolding load_plugins
  load_plugins-keeps conf [] p all = all
  load_plugins-keeps conf ((name, path) ∷ rest) p all =
      bind-keeps P (load_one J lib host conf name path)
        (λ done. elim done [ go_on ↦ load_plugins J lib host conf rest | give_up ↦ pure give_up ]) p
        (load_one-keeps conf name path p all)
        (λ done t held.
          elim done
            as (λ x.
              P
                ((elim x as (λ _. Action (Process J lib) Loaded) [
                  | go_on ↦ load_plugins J lib host conf rest
                  | give_up ↦ pure give_up
                ])
                  t).1) [ go_on ↦ load_plugins-keeps conf rest t held | give_up ↦ held ])
