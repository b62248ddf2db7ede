-- ===== src/PluginProc/Run/Production.antt =====
-- `main` of python_plugins/src/plugin_proc.py outside the test mode.
use sonic_device_health_prtm.Prelude.{
  Option, Bool, Result, String, List, ◌≡◌, false, ok, true, refl,
}
use sonic_device_health_prtm.Json.{JsonModule}
use sonic_device_health_prtm.ClibBind.Calls.{ClibLibrary}
use sonic_device_health_prtm.PluginProc.Run.{main, Session}
use sonic_device_health_prtm.PluginProc.Loading.{Host}
use sonic_device_health_prtm.ClibBind.Load.{Dll}
use sonic_device_health_prtm.PluginProc.Requests.{Req, Process}
use sonic_device_health_prtm.ClibBind.Load.Scope.{production_init_fails}

module _ (J : JsonModule) (lib : ClibLibrary J) where
  -- A process that starts outside the test mode ends before its first `main_run`, whatever library
  -- is found: nothing of its state changes but the variables of clib_bind, and the server is not
  -- called.
  pub production_never_serves :
      (host : Host) (found : Option Dll) (test_init : Result Bool) (proc_name : String)
      (sessions : List (Session (Req J lib))) (p : Process J lib)
      → p.world.binding.dll ≡ false
      → p.world.binding.gvars.test_run ≡ false
      → let (r, q) = main J lib host found test_init proc_name sessions p in
        (r ≡ ok (0, true)) × (q.world.ext ≡ p.world.ext) × (q.holders ≡ p.holders)
  unfolding main
  production_never_serves host found test_init proc_name sessions p d t =
      let (failed, _) = production_init_fails found test_init p.world.binding d t in
      rw (failed, main) (refl, refl, refl)
