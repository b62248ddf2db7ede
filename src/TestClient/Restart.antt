-- ===== src/TestClient/Restart.antt =====
-- A further call of `main_run` of python_plugins/src/plugin_proc.py in the test mode.
use mathlib.Core.Bool.{true}
use sonic_device_health_prtm.Prelude.{
  ◌≡◌, String, ok, arith, ap, ◌∙◌, refl, true, none, some, ℕ, ◌<◌,
}
use sonic_device_health_prtm.Prelude.Action.{◌>>=◌, pure}
use sonic_device_health_prtm.Prelude.Int.{pos}
use sonic_device_health_prtm.Json.{JsonModule}
use sonic_device_health_prtm.ClibBind.Calls.{ClibLibrary, World, register_client, boolean, is_zero}
use sonic_device_health_prtm.PluginProc.Requests.{Process, Req}
use sonic_device_health_prtm.ClibBind.Load.{validate_dll, is_in}
use sonic_device_health_prtm.PluginProc.Loading.{Host}
use sonic_device_health_prtm.PluginProc.Run.{Session, returned, main_run}
use sonic_device_health_prtm.TestClient.Calls.{
  TextModule, tell, Client, clib_register_client, register_on, by_suffix, take_service, take_index,
}
use sonic_device_health_prtm.TestClient.Polls.{as_library}
use sonic_device_health_prtm.TestClient.Server.{call-returns}
use sonic_device_health_prtm.PluginProc.Run.OnWorld.{main_run-OnWorld}
use sonic_device_health_prtm.ClibBind.Called.Keeps.{
  IsBound, IsBound-IsCallKept, InState, InState-IsCallKept,
}
use sonic_device_health_prtm.TestClient.Count.{HasCount, HasCount-IsLibraryKept}
use sonic_device_health_prtm.TestClient.Deregistered.{main_run_deregisters}

module _ (J : JsonModule) (T : TextModule) (host : Host) where
  abbrev lib : ClibLibrary J
  lib = as_library J T

  again_registers :
      (name last : String) (k : ℕ) (s : Client)
      → s.thread ≡ none
      → T.behind_last name ≡ some last
      → T.int_of last ≡ some (pos k)
      → k < s.services.cnt
      → (clib_register_client T name s).0 ≡ ok (pos 0)
  unfolding clib_register_client register_on by_suffix take_service take_index tell
  again_registers name last k s e named numbered within =
      ap (λ o. (register_on T o name s).0) e
      ∙ ap (λ o. (by_suffix T name o s).0) named
      ∙ ap (λ i. (take_service name i s).0) numbered
      ∙ ground (arith, within)

  register-returns :
      (name : String) (w : World Client)
      → validate_dll w.binding ≡ true
      → is_in "register_client" w.binding.bound ≡ true
      → (clib_register_client T name w.ext).0 ≡ ok (pos 0)
      → (register_client J lib name w).0 ≡ ok (boolean true)
  unfolding register_client
  register-returns name w valid bound e =
      let x = (clib_register_client T name w.ext).1 in
      let called =
        call-returns "register_client" (clib_register_client T name) w (ok (pos 0)) x bound
          (ap (λ r. (r, x)) e) in
      rw valid (ap (λ y. (((λ _. y) >>= λ ret. pure (boolean (is_zero ret))) w).0) called)

  -- In the test mode, with the library loaded, for a name that ends in the index of a service: where
  -- `main_run` returns 0, whatever the configuration, the plugins, the server and the signals do, the
  -- thread is not registered any more, and its next registration under that name succeeds.
  pub main_run_restarts :
      (name last : String) (k : ℕ) (s : Session (Req J lib)) (p : Process J lib)
      → validate_dll p.world.binding ≡ true
      → is_in "register_client" p.world.binding.bound ≡ true
      → is_in "deregister_client" p.world.binding.bound ≡ true
      → T.behind_last name ≡ some last
      → T.int_of last ≡ some (pos k)
      → k < p.world.ext.services.cnt
      → (main_run J lib host name s p).0 ≡ ok (returned (pos 0))
      → let w = (main_run J lib host name s p).1.world in
        (w.ext.thread ≡ none) × ((register_client J lib name w).0 ≡ ok (boolean true))
  main_run_restarts name last k s p valid registers deregisters named numbered within ends =
      let b = p.world.binding in
      let n = p.world.ext.services.cnt in
      let w = (main_run J lib host name s p).1.world in
      let same : w.binding ≡ b =
        main_run-OnWorld J lib (IsBound J lib b) (IsBound-IsCallKept J lib b) host name s p refl in
      let counted : w.ext.services.cnt ≡ n =
        main_run-OnWorld J lib (InState J lib (HasCount n) (HasCount-IsLibraryKept n J T))
          (InState-IsCallKept J lib (HasCount n) (HasCount-IsLibraryKept n J T)) host name s p
          refl in
      let gone = main_run_deregisters J T host name s p valid deregisters ends in
      (
        gone,
        register-returns name w (ap validate_dll same ∙ valid)
            (ap (λ c. is_in "register_client" c.bound) same ∙ registers)
            (again_registers name last k w.ext gone named numbered
              (omega (arith, within, counted))),
      )
