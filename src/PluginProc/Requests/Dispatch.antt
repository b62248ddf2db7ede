-- ===== src/PluginProc/Requests/Dispatch.antt =====
-- What one request of the server does in python_plugins/src/plugin_proc.py.
use sonic_device_health_prtm.Prelude.{
  ℕ, String, ◌≡◌, true, false, some, none, ok, ◌≢◌, refl, arith, Result, ◌∙◌, ap,
}
use sonic_device_health_prtm.Prelude.Dict.{lookup, insert, lookup-insert_self, lookup-insert_ne}
use sonic_device_health_prtm.Json.{JsonModule, text}
use sonic_device_health_prtm.ClibBind.Calls.{ClibLibrary}
use sonic_device_health_prtm.PluginProc.Requests.{
  dispatch, Req, Process, dispatch_action, on_holder,
}
use sonic_device_health_prtm.ClibBind.Messages.{ActionFields, is_shutdown}
use sonic_device_health_prtm.Holder.Methods.{send_request, is_valid}
use sonic_device_health_prtm.Holder.Defs.{Holder, Thread, is_alive}

module _ (J : JsonModule) (lib : ClibLibrary J) where
  -- The holder behind an accepted request: its thread runs the plugin on that request.
  abbrev pub Started : ℕ → Req J lib → Holder (Req J lib) → Holder (Req J lib) → Type 0
  Started now req h h' =
      (h'.thread ≡ Thread.running)
      × (h'.thr ≡ true)
      × (h'.last_request ≡ some req)
      × (h'.req_start ≡ now)
      × (h'.response ≡ none)
      × (h'.pipe ≡ h.pipe)

  started : ℕ → Req J lib → Holder (Req J lib) → Holder (Req J lib)
  started now req h = record h {
    thr = true;
    thread = Thread.running;
    last_request = some req;
    req_start = now;
  }

  send_request-ready :
      (now : ℕ) (req : Req J lib) (h : Holder (Req J lib))
      → is_alive h.thread ≡ false
      → h.response ≡ none
      → send_request now req h ≡ (ok tt, started now req h)
  unfolding send_request started
  send_request-ready now req h dead empty = ground arith

  pub dispatch-action :
      (now : ℕ) (req : Req J lib) (f : ActionFields) (p : Process J lib)
      → is_shutdown p.world.binding.gvars req ≡ false
      → req.fields ≡ some f
      → dispatch J lib now req p ≡ dispatch_action J lib now req f.action_name p
  unfolding dispatch
  dispatch-action now req f p s e = simp (s, e)

  pub on_holder-found :
      {A : Type 0} (name : String) (g : Holder (Req J lib) → Result A × Holder (Req J lib))
      (h : Holder (Req J lib)) (p : Process J lib)
      → lookup name p.holders ≡ some h
      → on_holder J lib name g p ≡ ((g h).0, record p { holders = insert name (g h).1 p.holders })
  on_holder-found name g h p l = rw (l, on_holder)

  pub dispatch_action-found :
      (now : ℕ) (req : Req J lib) (name : String) (h : Holder (Req J lib)) (p : Process J lib)
      → lookup name p.holders ≡ some h
      → is_valid h ≡ true
      → dispatch_action J lib now req (text name) p ≡ on_holder J lib name (send_request now req) p
  unfolding dispatch_action
  dispatch_action-found now req name h p l v = rw (l, dispatch_action) (rw v)

  -- A request for a loaded plugin whose thread has ended and whose response is sent starts the thread
  -- of that holder with the request, and no other holder changes.
  pub dispatch_starts :
      (now : ℕ) (req : Req J lib) (f : ActionFields) (name : String) (h : Holder (Req J lib))
      (p : Process J lib)
      → is_shutdown p.world.binding.gvars req ≡ false
      → req.fields ≡ some f
      → f.action_name ≡ text name
      → lookup name p.holders ≡ some h
      → is_valid h ≡ true
      → is_alive h.thread ≡ false
      → h.response ≡ none
      → (h' : Holder (Req J lib)) × Started now req h h'
        × (dispatch J lib now req p ≡ (ok tt, record p { holders = insert name h' p.holders }))
        × (lookup name (insert name h' p.holders) ≡ some h')
        × ((other : String)
            → name ≢ other
            → lookup other (insert name h' p.holders) ≡ lookup other p.holders)
  unfolding dispatch started
  dispatch_starts now req f name h p s e n l v dead empty = (
    started now req h,
    (refl, refl, refl, refl, empty, refl),
    dispatch-action now req f p s e
        ∙ ap (λ v. dispatch_action J lib now req v p) n
        ∙ dispatch_action-found now req name h p l v
        ∙ on_holder-found name (send_request now req) h p l
        ∙ ap (λ x. (x.0, record p { holders = insert name x.1 p.holders }))
            (send_request-ready now req h dead empty),
    lookup-insert_self name (started now req h) p.holders,
    λ other ne. lookup-insert_ne name other (started now req h) p.holders ne,
  )
