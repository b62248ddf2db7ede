-- ===== src/PluginProc/Requests/Handled.antt =====
-- `handle_plugin_holder` of python_plugins/src/plugin_proc.py as a whole, with the call to the library
-- that `handle_response` makes.
use sonic_device_health_prtm.Prelude.{String, ◌≡◌, List, Result, ok, err, some, ap, ◌∙◌, refl}
use sonic_device_health_prtm.Prelude.Action.{◌>>=◌, ◌>>◌}
use sonic_device_health_prtm.Prelude.Dict.{lookup, insert, lookup-insert_self, insert-insert}
use sonic_device_health_prtm.Json.{JsonModule}
use sonic_device_health_prtm.ClibBind.Calls.{ClibLibrary, World}
use sonic_device_health_prtm.Holder.Defs.{Holder, Call}
use sonic_device_health_prtm.Holder.Methods.{handle_response, after_calls}
use sonic_device_health_prtm.PluginProc.State.{with_world}
use sonic_device_health_prtm.PluginProc.Requests.{
  Process, Req, handle_plugin_holder, perform_all, on_holder,
}
use sonic_device_health_prtm.PluginProc.Requests.Dispatch.{on_holder-found}

-- The holder behind calls that have returned, or one of which has raised.
abbrev pub behind : {R : Type 0} → Result (Unit {0}) → List Call → Holder R → Holder R
behind (ok _) calls h = after_calls calls h
behind (err _) calls h = h

module _ (J : JsonModule) (lib : ClibLibrary J) where
  -- What `handle_plugin_holder` gives and leaves, by what the calls have given.
  abbrev pub handled_with :
      String
      → List Call
      → Holder (Req J lib)
      → Process J lib
      → Result (Unit {0}) × World lib.State
      → Result (Unit {0}) × Process J lib
  handled_with name calls h p (sent, w) =
      (sent, record p { world = w; holders = insert name (behind sent calls h) p.holders })

  resumed :
      (name : String) (h : Holder (Req J lib)) (calls : List Call) (p : Process J lib)
      (x : Result (Unit {0}) × World lib.State)
      → let q = record p { holders = insert name h p.holders } in
        ((λ _. (x.0, record q { world = x.1 }))
            >> on_holder J lib name (λ g. (ok tt, after_calls calls g)))
          q
        ≡ handled_with name calls h p x
  resumed name h calls p (err e, w) = refl
  resumed name h calls p (ok u, w) =
      let q = record p { world = w; holders = insert name h p.holders } in
      on_holder-found J lib name (λ g. (ok tt, after_calls calls g)) h q
        (lookup-insert_self name h p.holders)
      ∙ ap (λ d. (ok tt, record q { holders = d }))
          (insert-insert name h (after_calls calls h) p.holders)

  pub handle_plugin_holder-found :
      (name : String) (h h' : Holder (Req J lib)) (calls : List Call) (p : Process J lib)
      → lookup name p.holders ≡ some h
      → handle_response h ≡ (ok calls, h')
      → handle_plugin_holder J lib name p
        ≡ handled_with name calls h' p (perform_all J lib calls p.world)
  unfolding handle_plugin_holder
  handle_plugin_holder-found name h h' calls p found e =
      let go : List Call → Process J lib → Result (Unit {0}) × Process J lib = λ cs.
        with_world (perform_all J lib cs)
        >> on_holder J lib name (λ g. (ok tt, after_calls cs g)) in
      ap (λ x. ((λ _. x) >>= go) p)
        (on_holder-found J lib name handle_response h p found
          ∙ ap (λ x. (x.0, record p { holders = insert name x.1 p.holders })) e)
      ∙ resumed name h' calls p (perform_all J lib calls p.world)
