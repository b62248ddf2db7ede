-- ===== src/Gvars.antt =====
-- python_plugins/src/gvars.py: the attribute names shared by the client and the server. They are
-- module variables, which `clib_bind._update_globals` may set anew from the loaded library.
use sonic_device_health_prtm.Prelude.{String, Bool, false, true}

pub record Gvars : Type 0 where
  pub req_action_type : String
  pub req_action_type_action : String
  pub req_action_type_shutdown : String
  pub req_client_name : String
  pub req_action_name : String
  pub req_instance_id : String
  pub req_anomaly_instance_id : String
  pub req_anomaly_key : String
  pub req_context : String
  pub req_timeout : String
  pub req_heartbeat_interval : String
  pub req_pause : String
  pub req_action_data : String
  pub req_result_code : String
  pub req_result_str : String
  pub test_run : Bool

-- The values that the module starts with.
abbrev pub initial_gvars : Gvars
initial_gvars = record {
  req_action_type = "request_type";
  req_action_type_action = "action";
  req_action_type_shutdown = "shutdown";
  req_client_name = "client_name";
  req_action_name = "action_name";
  req_instance_id = "instance_id";
  req_anomaly_instance_id = "anomaly_instance_id";
  req_anomaly_key = "anomaly_key";
  req_context = "context";
  req_timeout = "timeout";
  req_heartbeat_interval = "heartbeat_interval";
  req_pause = "action_pause";
  req_action_data = "action_data";
  req_result_code = "result_code";
  req_result_str = "result_str";
  test_run = false;
}

-- `set_test_mode` of python_plugins/src/common.py
abbrev pub set_test_mode : Gvars → Gvars
set_test_mode g = record g { test_run = true }
