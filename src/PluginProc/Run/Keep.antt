-- ===== src/PluginProc/Run/Keep.antt =====
-- What `main_run` of python_plugins/src/plugin_proc.py keeps of the process on every schedule whose
-- turns are allowed, by whether it returns, raises or runs on.
use sonic_device_health_prtm.Prelude.{
  none, some, List, Result, ◌∷◌, String, ℕ, Bool, ◌≡◌, [], ok, subst, Bool-cases, arith, ◌∙◌, inl,
  true, ◌==◌, ap, inr, Option-cases, if◌then◌else◌, Result-cases, err, refl, false,
}
use sonic_device_health_prtm.Prelude.Int.{ℤ, pos, negsuc}
use sonic_device_health_prtm.Prelude.Action.{
  bind-keeps, Action, gets, ◌>>=◌, ◌>>◌, pure, Leaves, Leaves-always, Leaves-ok, Leaves-err,
  bind-Leaves, bind-Leaves_at, if-Leaves,
}
use sonic_device_health_prtm.Json.{JsonModule}
use sonic_device_health_prtm.ClibBind.Calls.{ClibLibrary, poll_for_data, perform, World}
use sonic_device_health_prtm.PluginProc.State.{Turn, find_pipe, with_world, keys}
use sonic_device_health_prtm.PluginProc.Requests.{
  Req, Process, handle_plugin_holder, perform_all, on_holder, handle_server_request,
}
use sonic_device_health_prtm.PluginProc.Run.{
  poll_loop, on_descriptor, on_server, round, on_poll, pass, poll, Round, again, leave, stuck,
}
use sonic_device_health_prtm.PluginProc.Requests.Stable.{IsStable, handle_server_request-keeps}
use sonic_device_health_prtm.Holder.Defs.{Call}
use sonic_device_health_prtm.Holder.Methods.{handle_response, after_calls}
use sonic_device_health_prtm.ClibBind.Called.{polling, performing, Called}

module _ (J : JsonModule) (lib : ClibLibrary J) where
  -- Each turn is allowed in the state in which it begins.
  abbrev pub AllowedBy :
      (Turn (Req J lib) → Process J lib → Type 0) → List (Turn (Req J lib)) → Process J lib → Type 0
  AllowedBy L [] p = Unit {0}
  AllowedBy L (t ∷ ts) p = L t p × AllowedBy L ts (round J lib t p).1

  -- `Q` is a predicate on the process that each part of an allowed round keeps, but for a raising
  -- `handle_plugin_holder`, which leaves `E`.
  pub record IsKeptBy (L : Turn (Req J lib) → Process J lib → Type 0) (Q E : Process J lib → Type 0)
      : Type 0 where
    pub stable : IsStable J lib Q
    pub passes : (t : Turn (Req J lib)) (p : Process J lib) → L t p → Q p → Q (pass J lib t p)
    pub stops : (p : Process J lib) → Q p → E p
    pub answers :
        (t : Turn (Req J lib)) (fd : ℕ) (name : String) (p : Process J lib)
        → L t p
        → (poll J lib t p).0 ≡ ok (pos fd)
        → find_pipe fd (pass J lib t p).pipe_list ≡ some name
        → Q (poll J lib t p).1
        → Leaves Q E (handle_plugin_holder J lib name (poll J lib t p).1)

  perform_all-keeps :
      (Q : Process J lib → Type 0)
      → ((w : World lib.State) (p : Process J lib)
          → Called J lib p.world w
          → Q p
          → Q (record p { world = w }))
      → (calls : List Call) (p : Process J lib) → Q p
      → Q (with_world (perform_all J lib calls) p).1
  unfolding perform_all
  perform_all-keeps Q worlds [] p held = held
  perform_all-keeps Q worlds (c ∷ cs) p held =
      bind-keeps (λ w. Q (record p { world = w })) (perform J lib c) (λ _. perform_all J lib cs)
        p.world (worlds (perform J lib c p.world).1 p (performing c) held)
        (λ _ w k. perform_all-keeps Q worlds cs (record p { world = w }) k)

  -- `Q` is kept by what the main thread does with a holder before and behind a call.
  pub handle_plugin_holder-keeps :
      (Q : Process J lib → Type 0) (name : String)
      → ((w : World lib.State) (p : Process J lib)
          → Called J lib p.world w
          → Q p
          → Q (record p { world = w }))
      → ((p : Process J lib) → Q p → Q (on_holder J lib name handle_response p).1)
      → ((calls : List Call) (p : Process J lib)
          → Q p
          → Q (on_holder J lib name (λ h. (ok tt, after_calls calls h)) p).1)
      → (p : Process J lib) → Q p
      → Q (handle_plugin_holder J lib name p).1
  unfolding handle_plugin_holder
  handle_plugin_holder-keeps Q name worlds before behind p held =
      let rest : List Call → Action (Process J lib) (Unit {0}) =
        λ calls. on_holder J lib name (λ h. (ok tt, after_calls calls h)) in
      bind-keeps Q (on_holder J lib name handle_response)
        (λ calls. with_world (perform_all J lib calls) >> rest calls) p (before p held)
        (λ calls q k.
          bind-keeps Q (with_world (perform_all J lib calls)) (λ _. rest calls) q
            (perform_all-keeps Q worlds calls q k) (λ _. behind calls))

module _ (J : JsonModule) (lib : ClibLibrary J) (L : Turn (Req J lib) → Process J lib → Type 0)
    (Q E : Process J lib → Type 0) (keep : IsKeptBy J lib L Q E) where
  Ends : {A : Type 0} → Result A × Process J lib → Type 0
  Ends x = Leaves Q E x

  on_descriptor-Leaves :
      (fd : ℕ) (p : Process J lib)
      → Q p
      → ((name : String)
          → find_pipe fd p.pipe_list ≡ some name
          → Leaves Q E (handle_plugin_holder J lib name p))
      → Leaves Q E (on_descriptor J lib fd p)
  unfolding on_descriptor Ends
  on_descriptor-Leaves fd p held step = elim (Option-cases (find_pipe fd p.pipe_list)) [
    | inl unknown ↦ subst Ends (absent unknown) held
    | inr (name, e) ↦ subst Ends (present name e) (
        bind-Leaves Q E (handle_plugin_holder J lib name) (λ _. pure again) p (step name e)
          (λ _ _ k. k))
  ]
    where
      absent : find_pipe fd p.pipe_list ≡ none → (ok again, p) ≡ on_descriptor J lib fd p
      absent unknown = ground (arith, unknown)

      present :
          (name : String)
          → find_pipe fd p.pipe_list ≡ some name
          → (handle_plugin_holder J lib name >> pure again) p ≡ on_descriptor J lib fd p
      present name e = ground (arith, e)

  on_server-keeps : (t : Turn (Req J lib)) (p : Process J lib) → Q p → Q (on_server J lib t p).1
  unfolding on_server
  on_server-keeps t p held =
      let stops : Bool → Action (Process J lib) Round = λ empty.
        gets (λ q. q.shutdown_request) >>= λ stop.
        pure (if empty then (if stop then leave else again) else stuck) in
      bind-keeps Q (handle_server_request J lib t.reads t.now) stops p
        (handle_server_request-keeps J lib Q keep.stable t.reads t.now p held) (λ _ _ k. k)

  on_poll-Leaves :
      (t : Turn (Req J lib)) (ret : ℤ) (p : Process J lib)
      → Q p
      → ((fd : ℕ) (name : String)
          → ret ≡ pos fd
          → find_pipe fd p.pipe_list ≡ some name
          → Leaves Q E (handle_plugin_holder J lib name p))
      → Leaves Q E (on_poll J lib t ret p)
  unfolding on_poll
  on_poll-Leaves t (pos fd) p held step = on_descriptor-Leaves fd p held (λ name. step fd name refl)
  on_poll-Leaves t (negsuc n) p held step =
      if-Leaves Q E (n == 0) (on_server J lib t) (if n == 1 then pure again else pure leave) p
        (Leaves-always Q E (on_server J lib t p) keep.stops (on_server-keeps t p held))
        (if-Leaves Q E (n == 1) (pure again) (pure leave) p held held)

  round-Leaves :
      (t : Turn (Req J lib)) (p : Process J lib) → L t p → Q p → Leaves Q E (round J lib t p)
  unfolding round
  round-Leaves t p allowed held =
      let p' = pass J lib t p in
      let w = (poll_for_data J lib (keys p'.pipe_list) (pos 2) p'.world).1 in
      let polled =
        keep.stable.worlds w p' (polling (keys p'.pipe_list) (pos 2))
          (keep.passes t p allowed held) in
      bind-Leaves_at Q E (poll J lib t) (on_poll J lib t) p
        (Leaves-always Q E (poll J lib t p) keep.stops polled)
        (λ ret e.
          on_poll-Leaves t ret (poll J lib t p).1 polled
            (λ fd name i found. keep.answers t fd name p allowed (e ∙ ap ok i) found polled))

  -- The poll loop leaves what each of its rounds leaves.
  pub poll_loop-Leaves :
      (ts : List (Turn (Req J lib))) (p : Process J lib)
      → AllowedBy J lib L ts p
      → Q p
      → Leaves Q E (poll_loop J lib ts p)
  unfolding poll_loop Ends
  poll_loop-Leaves [] p allowed held = held
  poll_loop-Leaves (t ∷ ts) p (now, rest) held =
      let x = round J lib t p in
      let left = round-Leaves t p now held in
      elim (Bool-cases p.signal_raised) [
        | inl raised ↦ moved (ok true, p) (ground (arith, raised)) held
        | inr calm ↦ elim (Result-cases x.0) [
          | inr (y, e) ↦ moved (err y, x.1) (ground (arith, calm, e)) (Leaves-err Q E x y left e)
          | inl (leave, e) ↦
              moved (ok true, x.1) (ground (arith, calm, e)) (Leaves-ok Q E x leave left e)
          | inl (stuck, e) ↦
              moved (ok false, x.1) (ground (arith, calm, e)) (Leaves-ok Q E x stuck left e)
          | inl (again, e) ↦
              moved (poll_loop J lib ts x.1) (ground (arith, calm, e))
                (poll_loop-Leaves ts x.1 rest (Leaves-ok Q E x again left e))
        ]
      ]
    where
      moved :
          (x : Result Bool × Process J lib)
          → x ≡ poll_loop J lib (t ∷ ts) p
          → Leaves Q E x
          → Leaves Q E (poll_loop J lib (t ∷ ts) p)
      moved x e h = subst Ends e h
