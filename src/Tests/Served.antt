-- ===== src/Tests/Served.antt =====
-- The loading loop on the client library of the test mode, which refuses a second registration.
use sonic_device_health_prtm.Prelude.Dict.{Dict, contains}
use sonic_device_health_prtm.Prelude.{String, ◌≡◌, [], ◌∷◌, ok, refl, true, ◌||◌, inl, inr}
use sonic_device_health_prtm.Json.{Json, Fields, text, obj, field, end, find}
use sonic_device_health_prtm.ClibBind.Calls.{
  register_client, register_action, last_error, call, after_call,
}
use sonic_device_health_prtm.ClibBind.Load.{validate_dll}
use sonic_device_health_prtm.Holder.Methods.{is_valid}
use sonic_device_health_prtm.PluginProc.Requests.{Process}
use sonic_device_health_prtm.PluginProc.Loading.{load_plugins, module_name, new_holder, go_on}
use sonic_device_health_prtm.PluginProc.Loading.Enabled.{
  LoadsAlong, enabled, load_plugins_loads_enabled,
}
use sonic_device_health_prtm.TestClient.Calls.{
  tell, clib_register_client, register_on, by_suffix, take_service, take_index,
  clib_register_action,
}
use sonic_device_health_prtm.TestClient.Services.{write_to_server}
use sonic_device_health_prtm.TestClient.Cache.{bump, put, write}
use sonic_device_health_prtm.TestClient.Polls.{as_library}
use sonic_device_health_prtm.Tests.Client.{texts}
use sonic_device_health_prtm.Tests.Process.{json, host}
use sonic_device_health_prtm.Tests.Conversation.{start_test}

-- The process behind its registration.
abbrev idle : Process json (as_library json texts)
idle = record start_test {
  world = (register_client json (as_library json texts) "proc_0" start_test.world).1;
}

-- link_flap and link_down are to be served; link_safety is disabled.
abbrev settings : Fields
settings = field "link_safety" (obj (field "disable" (Json.bool true) end)) end

abbrev listed : Dict Json
listed =
    ("link_flap", text "link_flap.py")
    ∷ ("link_safety", text "link_safety.py")
    ∷ ("link_down", text "link_down.py")
    ∷ []

listed-LoadsAlong : LoadsAlong json (as_library json texts) host settings listed idle.world
unfolding LoadsAlong find register_client register_action new_holder module_name is_valid last_error
    call after_call validate_dll tell clib_register_client register_on by_suffix take_service
    take_index clib_register_action write_to_server bump put write
listed-LoadsAlong = (
  end,
  refl,
  inr (
    refl,
    (
      _,
      refl,
      refl,
      refl,
      (
        field "disable" (Json.bool true) end,
        refl,
        inl (refl, (end, refl, inr (refl, (_, refl, refl, refl, tt)))),
      ),
    ),
  ),
)

load_plugins_loads_enabled_example :
    let (r, q) = load_plugins json (as_library json texts) host (obj settings) listed idle in
    (r ≡ ok go_on)
    × ((name : String)
        → contains name q.holders
          ≡ (contains name idle.holders || contains name (enabled settings listed)))
load_plugins_loads_enabled_example =
    load_plugins_loads_enabled json (as_library json texts) host settings listed idle
      listed-LoadsAlong
