-- ===== src/Tests/Loading.antt =====
-- The loading loop on two plugins, one of them disabled.
use sonic_device_health_prtm.Prelude.Dict.{Dict}
use sonic_device_health_prtm.Prelude.{[], ◌∷◌, map, true, ◌≡◌, refl, ok, ◌*◌, ◌+◌, String, Bool}
use sonic_device_health_prtm.Tests.Process.{json, library, host, process}
use sonic_device_health_prtm.PluginProc.Loading.{load_plugins, load_one, module_name, Host}
use sonic_device_health_prtm.Json.{Json, text, obj, field, end, find}
use sonic_device_health_prtm.Holder.Methods.{is_valid}
use sonic_device_health_prtm.ClibBind.Calls.{register_action}
use sonic_device_health_prtm.Actions.Shipped.{import_plugin}

abbrev plugins : Dict Json
plugins =
    ("link_down", text "actions/link_down.py") ∷ ("link_safety", text "actions/link_safety.py") ∷ []

abbrev actions_conf : Json
actions_conf = obj (field "link_safety" (obj (field "disable" (Json.bool true) end)) end)

-- The loop adds link_down to the holder that was there.
loaded_names :
    map (λ e. e.0) (load_plugins json library host actions_conf plugins (process [])).1.holders
    ≡ "link_flap" ∷ "link_down" ∷ []
unfolding load_plugins load_one find register_action is_valid
loaded_names = refl

abbrev shipped : Host
shipped = record {
  load_module = import_plugin (λ _. ok tt) "heartbeat_interval";
  os_pipe = λ n. (2 * n + 3, 2 * n + 4);
}

abbrev shipped_plugins : Dict Json
shipped_plugins =
    ("link_flap", text "link_flap.py")
    ∷ ("link_down", text "sonic/actions/link_down")
    ∷ ("link_safety", text "link_safety.py")
    ∷ []

-- The plugins of the repository are loaded under their names.
shipped_names :
    map {B = String × Bool}
      (λ e. (e.0, is_valid e.1))
      (load_plugins json library shipped (obj end) shipped_plugins (process [])).1.holders
    ≡ ("link_flap", true) ∷ ("link_down", true) ∷ ("link_safety", true) ∷ []
unfolding load_plugins load_one find register_action is_valid module_name import_plugin
shipped_names = refl
