-- ===== src/Actions/LinkDown/Mitigation.antt =====
-- `request` of python_plugins/src/vendors/sonic/actions/link_down.py on what link_flap.py has reported.
use sonic_device_health_prtm.Prelude.{
  String, Option, ◌≡◌, ℕ, some, List, ◌∷◌, ◌||◌, str_eq, false, ok, none, [], Bool-cases, inl,
  subst, arith, inr, Result-cases, Option-cases, refl, ◌∙◌, ap, sym,
}
use sonic_device_health_prtm.Prelude.Int.{ℤ, pos}
use sonic_device_health_prtm.Json.{Json, text, Fields, obj, find}
use sonic_device_health_prtm.ClibBind.Messages.{ActionResponse, ActionFields}
use sonic_device_health_prtm.Actions.LinkFlap.{
  Reply, answered, flap_data, receive, flap_response, Input, down_of, on_down, no_reply, failed,
}
use sonic_device_health_prtm.Actions.LinkDown.{Plugin, concat}
use sonic_device_health_prtm.Actions.Reported.{respond, reported_ifname-flap_data}
use sonic_device_health_prtm.Actions.LinkFlap
use sonic_device_health_prtm.Actions.LinkDown

-- What a response of the link flap plugin carries: the interface, also as its key.
abbrev IsReport : (Json → String) → ActionResponse → Type 0
IsReport dumps r =
    (ifname : String) × (interval : ℤ) × (cnt : ℕ) × (r.action_data
      ≡ text (dumps (flap_data ifname interval cnt)))
    × (r.anomaly_key ≡ text ifname)

abbrev Reports : (Json → String) → Reply → Type 0
Reports dumps (answered r) = IsReport dumps r
Reports dumps other = Unit {0}

request-Reports :
    (dumps : Json → String) (req : ActionFields) (is : List Input) (p : LinkFlap.Plugin)
    → Reports dumps (LinkFlap.request dumps req is p).0
unfolding LinkFlap.request receive flap_response
request-Reports dumps req [] p = tt
request-Reports dumps req (i ∷ is) p = elim (Bool-cases (p.shutdown_flag || i.stop)) [
  | inl stop ↦ moved no_reply (ground (arith, stop)) tt
  | inr on ↦ elim (Result-cases (down_of i.event)) [
    | inr (x, e) ↦ moved (failed x) (ground (arith, on, e)) tt
    | inl (none, e) ↦
        moved (LinkFlap.request dumps req is p).0 (ground (arith, on, e))
          (request-Reports dumps req is p)
    | inl (some ifname, e) ↦
        let p' = (on_down ifname i.now p).1 in
        elim (Option-cases ((on_down ifname i.now p).0)) [
          | inl quiet ↦
              moved (LinkFlap.request dumps req is p').0 (ground (arith, on, e, quiet))
                (request-Reports dumps req is p')
          | inr (v, flap) ↦
              moved (answered (LinkFlap.flap_response dumps p' req ifname v))
                (ground (arith, on, e, flap)) (ifname, v, p'.flap_cnt, refl, refl)
        ]
  ]
]
  where
    moved :
        (x : Reply)
        → x ≡ (LinkFlap.request dumps req (i ∷ is) p).0
        → Reports dumps x
        → Reports dumps (LinkFlap.request dumps req (i ∷ is) p).0
    moved x e h = subst (Reports dumps) e h

abbrev named_by : Json → String
named_by (text s) = s
named_by other = ""

text_inj : {s t : String} → text s ≡ text t → s ≡ t
text_inj e = ap named_by e

module _ (loads : String → Option Json) (dumps shown : Json → String)
    (plain : (s : String) → shown (text s) ≡ s) where
  -- When the link flap plugin has answered, and the context of a request to the link down plugin
  -- holds the data of that answer, the link down plugin gives the shell one command, which shuts
  -- down the interface that the answer is about, and answers with the code 0. The interface's name
  -- is not empty, the dumped data about it load back, and a text is formatted as it is.
  pub request_shuts_flapping :
      (flap_req req : ActionFields) (is : List Input) (flap : LinkFlap.Plugin) (p : Plugin)
      (r : ActionResponse) (ifname : String) (ctx : Fields)
      → ((interval : ℤ) (cnt : ℕ)
          → loads (dumps (flap_data ifname interval cnt)) ≡ some (flap_data ifname interval cnt))
      → (LinkFlap.request dumps flap_req is flap).0 ≡ answered r
      → r.anomaly_key ≡ text ifname
      → str_eq ifname "" ≡ false
      → req.context ≡ obj ctx
      → find "link_flap" ctx ≡ some r.action_data
      → let (resp, commands) = LinkDown.request loads dumps shown req p in
        (commands ≡ concat "sudo config int shutdown " ifname ∷ [])
        × (resp ≡ ok (respond p.name req (pos 0) (concat "Brought down link " ifname)))
  unfolding LinkDown.request
  request_shuts_flapping flap_req req is flap p r ifname ctx back run key named c found =
      let (i, v, cnt, carried, about) =
        subst (Reports dumps) run (request-Reports dumps flap_req is flap) in
      let back' =
        subst
          (λ n.
            (interval : ℤ) (cnt : ℕ)
            → loads (dumps (flap_data n interval cnt)) ≡ some (flap_data n interval cnt))
          (text_inj (sym key ∙ about)) back in
      let read =
        reported_ifname-flap_data loads dumps ctx i v cnt (back' v cnt) (found ∙ ap some carried) in
      ground (arith, c, key, about, read, named, plain ifname)
