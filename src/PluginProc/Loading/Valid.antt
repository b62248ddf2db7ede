-- ===== src/PluginProc/Loading/Valid.antt =====
-- The holders that the loading loop of python_plugins/src/plugin_proc.py registers.
use sonic_device_health_prtm.Prelude.{
  ℕ, ◌≡◌, ok, String, true, arith, PyError, err, Result-cases, inr, subst, inl, Option, none, some,
  refl, ok_inj,
}
use sonic_device_health_prtm.Prelude.Dict.{Dict, AllValues, insert, insert-AllValues}
use sonic_device_health_prtm.Prelude.Action.{◌>>=◌, pure, bind-ok, lift}
use sonic_device_health_prtm.PluginProc.Loading.Keep.{load_plugins-keeps}
use sonic_device_health_prtm.Json.{JsonModule, Json, text, get, bool, int, arr, obj, null}
use sonic_device_health_prtm.Holder.Methods.{set_pipe, is_valid}
use sonic_device_health_prtm.ClibBind.Calls.{ClibLibrary, World, Client}
use sonic_device_health_prtm.Holder.Defs.{Holder, blank, Plugin}
use sonic_device_health_prtm.PluginProc.Loading.{
  Host, add_holder, new_holder, load_plugins, caught, load_plugin,
}
use sonic_device_health_prtm.PluginProc.Requests.{Req, Process}
use sonic_device_health_prtm.Holder.Threads.System.{IsFresh}
use sonic_device_health_prtm.PluginProc.Requests.Shutdown.{AllValid}

set_pipe-valid :
    {Req : Type 0} (r w : ℕ) (h h' : Holder Req)
    → set_pipe r w h ≡ ok h'
    → is_valid h ≡ true
    → is_valid h' ≡ true
unfolding set_pipe is_valid
set_pipe-valid r w h h' e v = ground (arith, e, v)

set_pipe-IsFresh :
    {Req : Type 0} (r w : ℕ) (h h' : Holder Req) → set_pipe r w h ≡ ok h' → IsFresh h → IsFresh h'
unfolding set_pipe
set_pipe-IsFresh r w h h' e v = ground (arith, e, v)

module _ (J : JsonModule) (lib : ClibLibrary J) (host : Host) where
  -- A holder that is added, and what `set_pipe` keeps of it.
  add_holder-AllValues :
      (P : Holder (Req J lib) → Type 0) (name : String) (h : Holder (Req J lib)) (p : Process J lib)
      → ((r w : ℕ) (h' : Holder (Req J lib)) → set_pipe r w h ≡ ok h' → P h')
      → AllValues P p.holders
      → AllValues P (add_holder J lib host name h p).1.holders
  unfolding add_holder
  add_holder-AllValues P name h p piped all =
      let (r, w) = host.os_pipe p.pipes_made in
      elim (Result-cases (set_pipe r w h)) [
        | inr (x, e) ↦ subst (AllValues P) (left e) all
        | inl (h', e) ↦
            subst (AllValues P) (added h' e)
              (insert-AllValues P name h' p.holders (piped r w h' e) all)
      ]
    where
      left :
          {x : PyError}
          → set_pipe (host.os_pipe p.pipes_made).0 (host.os_pipe p.pipes_made).1 h ≡ err x
          → p.holders ≡ (add_holder J lib host name h p).1.holders
      left e = ground (arith, e)

      added :
          (h' : Holder (Req J lib))
          → set_pipe (host.os_pipe p.pipes_made).0 (host.os_pipe p.pipes_made).1 h ≡ ok h'
          → insert name h' p.holders ≡ (add_holder J lib host name h p).1.holders
      added h' e = ground (arith, e)

  -- Whatever plugins are listed, and also when the loading gives up or raises, the loading loop adds
  -- only holders that have their plugin: if every holder had it before, every holder has it behind.
  pub load_plugins-AllValid :
      (conf : Json) (plugins : Dict Json) (p : Process J lib)
      → AllValid p.holders
      → AllValid (load_plugins J lib host conf plugins p).1.holders
  load_plugins-AllValid =
      load_plugins-keeps J lib host (λ p. AllValid p.holders) (λ _ _ _ all. all)
        (λ name _ _ h p _ _ v all.
          add_holder-AllValues (λ g. is_valid g ≡ true) name h p
            (λ r w h' e. set_pipe-valid r w h h' e v) all)

  with_plugin : String → Option Json → Option Plugin → Holder (Req J lib)
  with_plugin name pause plugin = elim plugin [
    | none ↦ blank pause
    | some q ↦ record (blank pause) { name = name; plugin = some q }
  ]

  with_plugin-IsFresh :
      (name : String) (pause : Option Json) (plugin : Option Plugin)
      → IsFresh (with_plugin name pause plugin)
  unfolding with_plugin blank
  with_plugin-IsFresh name pause none = (refl, refl, refl, refl, refl, refl, refl, refl)
  with_plugin-IsFresh name pause (some q) = (refl, refl, refl, refl, refl, refl, refl, refl)

  -- What `__init__` returns has run no request.
  new_holder-IsFresh :
      (name : String) (path conf : Json) (w : World lib.State) (h : Holder (Req J lib))
      → (new_holder J lib host name path conf w).0 ≡ ok h
      → IsFresh h
  unfolding new_holder with_plugin
  new_holder-IsFresh name (text file) conf w h e =
      let loads : Option Json → Client J lib (Holder (Req J lib)) = λ pause.
        caught J lib host (load_plugin J lib host name file conf) >>= λ plugin.
        pure (with_plugin name pause plugin) in
      let (pause, _, e', _) = bind-ok (lift (get w.binding.gvars.req_pause conf)) loads w h e in
      let (plugin, _, e'', _) =
        bind-ok (caught J lib host (load_plugin J lib host name file conf))
          (λ plugin. pure (with_plugin name pause plugin)) w h e' in
      subst IsFresh (ok_inj e'') (with_plugin-IsFresh name pause plugin)
  new_holder-IsFresh name null conf w h e = absurd (ground (arith, e))
  new_holder-IsFresh name (bool _) conf w h e = absurd (ground (arith, e))
  new_holder-IsFresh name (int _) conf w h e = absurd (ground (arith, e))
  new_holder-IsFresh name (arr _) conf w h e = absurd (ground (arith, e))
  new_holder-IsFresh name (obj _) conf w h e = absurd (ground (arith, e))

  -- No holder that the loading loop adds has run a request.
  pub load_plugins-IsFresh :
      (conf : Json) (plugins : Dict Json) (p : Process J lib)
      → AllValues IsFresh p.holders
      → AllValues IsFresh (load_plugins J lib host conf plugins p).1.holders
  load_plugins-IsFresh =
      load_plugins-keeps J lib host (λ p. AllValues IsFresh p.holders) (λ _ _ _ all. all)
        (λ name path conf h p w e _ all.
          add_holder-AllValues IsFresh name h p
            (λ r w' h' piped.
              set_pipe-IsFresh r w' h h' piped (new_holder-IsFresh name path conf w h e))
            all)
