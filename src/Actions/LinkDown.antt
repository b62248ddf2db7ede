-- ===== src/Actions/LinkDown.antt =====
-- `LoMPlugin` of python_plugins/src/vendors/sonic/actions/link_down.py. The shell is seen through the
-- commands that it is given; `shown` is the text that `str.format` makes of a loaded value.
pub mod Mitigation
use sonic_device_health_prtm.Prelude.{
  false, String, true, Option, Bool, Result, List, err, [], ok, if◌then◌else◌, concat, ◌∷◌,
}
use sonic_device_health_prtm.Prelude.Int.{pos, negsuc}
use sonic_device_health_prtm.Json.{Json, truthy}
use sonic_device_health_prtm.Actions.Reported.{reported_ifname, respond}
use sonic_device_health_prtm.ClibBind.Messages.{ActionFields, ActionResponse}

-- The attributes but for the handle of the event library, which nothing uses.
pub record Plugin : Type 0 where
  pub name : String
  pub shutdown_flag : Bool

-- `__init__`
abbrev pub new_plugin : Plugin
new_plugin = record { name = "link_down"; shutdown_flag = false }

-- `shutdown`
abbrev pub shutdown : Plugin → Plugin
shutdown p = record p { shutdown_flag = true }

module _ (loads : String → Option Json) (dumps shown : Json → String) where
  -- `request`, with the commands that it has given to the shell.
  unfoldable pub request : ActionFields → Plugin → Result ActionResponse × List String
  unfolding reported_ifname
  request req p = elim (reported_ifname loads req.context) [
    | err e ↦ (err e, [])
    | ok ifname ↦
        if truthy ifname
        then (
          ok (respond p.name req (pos 0) (concat "Brought down link " (shown ifname))),
          concat "sudo config int shutdown " (shown ifname) ∷ [],
        )
        else (
          ok (respond p.name req (negsuc 0) (concat "Missing ifname ctx=" (dumps req.context))),
          [],
        )
  ]
