-- ===== src/PluginProc/Run/Whole.antt =====
-- What a call of `main_run` of python_plugins/src/plugin_proc.py keeps from the loading to its end.
use sonic_device_health_prtm.Prelude.{
  String, ◌≡◌, [], List, Result-cases, ◌⊎◌, inl, ◌∷◌, arith, if◌then◌else◌, inr, Result, subst, ok,
  not, ◌&&◌, refl,
}
use sonic_device_health_prtm.Prelude.Action.{
  Action, bind-keeps, ◌>>=◌, pure, if-keeps, ◌>>◌, gets, Leaves, bind-Leaves, bind-Leaves_at,
  if-Leaves, Leaves-always, Leaves-same,
}
use sonic_device_health_prtm.Prelude.Int.{pos, negsuc}
use sonic_device_health_prtm.Json.{JsonModule}
use sonic_device_health_prtm.ClibBind.Calls.{
  ClibLibrary, register_client, is_true, deregister_client, Reply,
}
use sonic_device_health_prtm.PluginProc.Loading.{Host, load_plugins, Loaded, give_up, go_on}
use sonic_device_health_prtm.PluginProc.State.{Turn, with_world}
use sonic_device_health_prtm.PluginProc.Run.{
  load_all, Session, serve, finish, main_run, start_loop, Outcome, poll_loop, returned, running,
}
use sonic_device_health_prtm.PluginProc.Requests.{Process, Req, handle_shutdown}
use sonic_device_health_prtm.PluginProc.Run.Keep.{IsKeptBy, AllowedBy, poll_loop-Leaves}
use sonic_device_health_prtm.ClibBind.Called.{deregistering}

module _ (J : JsonModule) (lib : ClibLibrary J) (host : Host) where
  -- The state in which the plugins are loaded: `main_run` has made its dictionaries and registered.
  abbrev pub registered_by : String → Process J lib → Process J lib
  registered_by proc_name p =
      (with_world (register_client J lib proc_name) (record p { holders = []; pipe_list = [] })).1

  -- The state in which the poll loop begins.
  abbrev pub loaded_by : String → Session (Req J lib) → Process J lib → Process J lib
  loaded_by proc_name s p = (load_all J lib host s (registered_by proc_name p)).1

  pub load_all-state :
      (s : Session (Req J lib)) (p : Process J lib)
      → (load_plugins J lib host s.actions_conf s.plugins p).1 ≡ (load_all J lib host s p).1
  unfolding load_all
  load_all-state s p = elim (Result-cases (load_plugins J lib host s.actions_conf s.plugins p).0) [
    | inl (done, e) ↦ ground (arith, e)
    | inr (x, e) ↦ ground (arith, e)
  ]

module _ (J : JsonModule) (lib : ClibLibrary J) (host : Host)
    (L : Turn (Req J lib) → Process J lib → Type 0) (Q E : Process J lib → Type 0)
    (keep : IsKeptBy J lib L Q E) where
  finish-keeps : (proc_name : String) (p : Process J lib) → Q p → Q (finish J lib proc_name p).1
  unfolding finish
  finish-keeps proc_name p held =
      let ends : Action (Process J lib) Outcome = pure (returned (pos 0)) in
      let asks : Action (Process J lib) Outcome = handle_shutdown J lib >> ends in
      let leaves : Action (Process J lib) (Unit {0}) =
        with_world (deregister_client J lib proc_name) in
      bind-keeps Q leaves
        (λ _. gets (λ q. not q.shutdown_request && q.signal_raised) >>= λ unasked.
          if unasked then asks else ends)
        p
        (keep.stable.worlds (deregister_client J lib proc_name p.world).1 p
          (deregistering proc_name) held)
        (λ _ q k.
          if-keeps Q (not q.shutdown_request && q.signal_raised) asks ends q
            (λ _.
              bind-keeps Q (handle_shutdown J lib) (λ _. ends) q (keep.stable.shuts q k)
                (λ _ _ h. h))
            k)

  serve-Leaves :
      (proc_name : String) (turns : List (Turn (Req J lib))) (p : Process J lib)
      → AllowedBy J lib L turns p
      → Q p
      → Leaves Q E (serve J lib proc_name turns p)
  unfolding serve
  serve-Leaves proc_name turns p allowed held =
      bind-Leaves Q E (poll_loop J lib turns)
        (λ exited. if exited then finish J lib proc_name else pure running) p
        (poll_loop-Leaves J lib L Q E keep turns p allowed held)
        (λ exited q k.
          if-Leaves Q E exited (finish J lib proc_name) (pure running) q
            (Leaves-always Q E (finish J lib proc_name q) keep.stops (finish-keeps proc_name q k))
            k)

  start_loop-Leaves :
      (proc_name : String) (s : Session (Req J lib)) (done : Loaded) (p : Process J lib)
      → AllowedBy J lib L s.turns p
      → Q p
      → Leaves Q E (start_loop J lib host proc_name s done p)
  unfolding start_loop
  start_loop-Leaves proc_name s give_up p allowed held = held
  start_loop-Leaves proc_name s go_on p allowed held = elim (pipes-cases p.pipe_list) [
    | inl e ↦ moved (ok (returned (negsuc 0)), p) (ground (arith, e)) held
    | inr (x, xs, e) ↦
        moved (serve J lib proc_name s.turns p) (ground (arith, e))
          (serve-Leaves proc_name s.turns p allowed held)
  ]
    where
      pipes-cases : {A : Type 0} (l : List A) → (l ≡ []) ⊎ ((x : A) × (xs : List A) × (l ≡ x ∷ xs))
      pipes-cases [] = inl refl
      pipes-cases (x ∷ xs) = inr (x, xs, refl)

      moved :
          (x : Result Outcome × Process J lib)
          → x ≡ start_loop J lib host proc_name s go_on p
          → Leaves Q E x
          → Leaves Q E (start_loop J lib host proc_name s go_on p)
      moved x e k = subst (λ y. Leaves Q E y) e k

  -- `main_run` leaves what its rounds leave, if it holds once the plugins are loaded, and before if it
  -- does not come that far.
  pub main_run-Leaves :
      (proc_name : String) (s : Session (Req J lib)) (p : Process J lib)
      → AllowedBy J lib L s.turns (loaded_by J lib host proc_name s p)
      → Q (registered_by J lib host proc_name p)
      → Q (loaded_by J lib host proc_name s p)
      → Leaves Q E (main_run J lib host proc_name s p)
  unfolding main_run
  main_run-Leaves proc_name s p allowed held loaded =
      let q = registered_by J lib host proc_name p in
      let b = record p { holders = []; pipe_list = [] } in
      let registers : Action (Process J lib) Reply = with_world (register_client J lib proc_name) in
      let loads : Action (Process J lib) Outcome =
        load_all J lib host s >>= start_loop J lib host proc_name s in
      bind-Leaves_at Q E registers
        (λ ret. if is_true ret then loads else pure (returned (negsuc 0))) b
        (Leaves-always Q E (registers b) keep.stops held)
        (λ ret _.
          if-Leaves Q E (is_true ret) loads (pure (returned (negsuc 0))) q
            (bind-Leaves_at Q E (load_all J lib host s) (start_loop J lib host proc_name s) q
              (Leaves-always Q E (load_all J lib host s q) keep.stops loaded)
              (λ done _.
                start_loop-Leaves proc_name s done (load_all J lib host s q).1 allowed loaded))
            held)

module _ (J : JsonModule) (lib : ClibLibrary J) (host : Host)
    (L : Turn (Req J lib) → Process J lib → Type 0) (Q : Process J lib → Type 0)
    (keep : IsKeptBy J lib L Q Q) where
  -- The same, for what every end leaves.
  pub main_run-keeps :
      (proc_name : String) (s : Session (Req J lib)) (p : Process J lib)
      → AllowedBy J lib L s.turns (loaded_by J lib host proc_name s p)
      → Q (registered_by J lib host proc_name p)
      → Q (loaded_by J lib host proc_name s p)
      → Q (main_run J lib host proc_name s p).1
  main_run-keeps proc_name s p allowed held loaded =
      Leaves-same Q (main_run J lib host proc_name s p)
        (main_run-Leaves J lib host L Q Q keep proc_name s p allowed held loaded)
