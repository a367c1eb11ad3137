-- ===== src/Startup/Laws.antt =====
-- What is opened is closed, and what is started when.
use k8s_container_service_pr.Base.{
  String, Bool, true, false, Option, none, some, List, [], ◌∷◌, ◌++◌, ◌≡◌, refl, ap, ◌∙◌, inl, inr,
  if◌then◌else◌, Result, ok, err, Result-cases, All,
}
use k8s_container_service_pr.Config.{Config, load}
use k8s_container_service_pr.Registration.{Backoffs}
use k8s_container_service_pr.Kubernetes.Client.{new_client}
use k8s_container_service_pr.Monitoring.Nats.{new_nats_publisher}
use k8s_container_service_pr.Apiserver.Lifecycle.{
  Readiness, ready, cancelled, timed_out, request_failed, still_waiting, ServeEnd,
  context_cancelled, serve_closed, serve_failed, run_server,
}
use k8s_container_service_pr.Startup.{
  Resource, listener, signals, publisher, Action, opened, closed, start_registrar, start_monitor,
  serve_store, World, Outcome, using, of_error, registrar, monitor_config, k8s_config, serve, run,
}

abbrev same_resource : Resource → Resource → Bool
same_resource listener listener = true
same_resource signals signals = true
same_resource publisher publisher = true
same_resource _ _ = false

-- The resources that are open after some actions, the last one first; `none` if one is closed out of turn.
abbrev pub still_open : List Action → List Resource → Option (List Resource)
still_open [] rs = some rs
still_open (opened r ∷ more) rs = still_open more (r ∷ rs)
still_open (closed r ∷ more) [] = none
still_open (closed r ∷ more) (q ∷ rs) =
    let rest = still_open more rs in if same_resource r q then rest else none
still_open (start_registrar b ∷ more) rs = still_open more rs
still_open (start_monitor m ∷ more) rs = still_open more rs
still_open (serve_store c ∷ more) rs = still_open more rs

-- Only resources are opened and closed: nothing is served, registered or monitored.
abbrev pub IsQuiet : Action → Type 0
IsQuiet (opened r) = Unit
IsQuiet (closed r) = Unit
IsQuiet (start_registrar b) = ⊥
IsQuiet (start_monitor m) = ⊥
IsQuiet (serve_store c) = ⊥

abbrev pub IsError : Result String (Unit {0}) → Type 0
IsError (ok t) = ⊥
IsError (err e) = Unit

abbrev pub passed :
    {A : Type 0} → Result String A → (A → Option (Config × Backoffs)) → Option (Config × Backoffs)
passed (ok a) next = next a
passed (err e) next = none

abbrev pub started : Readiness → Config → Backoffs → List Action
started ready cfg backoffs = start_registrar backoffs ∷ start_monitor (monitor_config cfg) ∷ []
started cancelled cfg backoffs = []
started timed_out cfg backoffs = []
started request_failed cfg backoffs = []
started still_waiting cfg backoffs = []

abbrev is_ready : Readiness → Bool
is_ready ready = true
is_ready cancelled = false
is_ready timed_out = false
is_ready request_failed = false
is_ready still_waiting = false

run_server-called :
    (r : Readiness) (addr : String) (end : ServeEnd) (shutdown : Option String)
    → (run_server true r addr end shutdown).on_ready_called ≡ is_ready r
unfolding run_server
run_server-called ready addr context_cancelled sh = refl
run_server-called ready addr serve_closed sh = refl
run_server-called ready addr (serve_failed e) sh = refl
run_server-called cancelled addr context_cancelled sh = refl
run_server-called cancelled addr serve_closed sh = refl
run_server-called cancelled addr (serve_failed e) sh = refl
run_server-called timed_out addr context_cancelled sh = refl
run_server-called timed_out addr serve_closed sh = refl
run_server-called timed_out addr (serve_failed e) sh = refl
run_server-called request_failed addr context_cancelled sh = refl
run_server-called request_failed addr serve_closed sh = refl
run_server-called request_failed addr (serve_failed e) sh = refl
run_server-called still_waiting addr context_cancelled sh = refl
run_server-called still_waiting addr serve_closed sh = refl
run_server-called still_waiting addr (serve_failed e) sh = refl

acts-started :
    (cfg : Config) (backoffs : Backoffs) (called : Bool) (r : Readiness)
    → called ≡ is_ready r
    → (if called then start_registrar backoffs ∷ start_monitor (monitor_config cfg) ∷ [] else [])
      ≡ started r cfg backoffs
acts-started cfg b called ready h = rw h refl
acts-started cfg b called cancelled h = rw h refl
acts-started cfg b called timed_out h = rw h refl
acts-started cfg b called request_failed h = rw h refl
acts-started cfg b called still_waiting h = rw h refl

-- The actions of a run that serves, with what it starts beside the server.
abbrev bracketed : Config → List Action → List Action
bracketed cfg rest =
    (using listener
      (using signals (using publisher (ok tt, serve_store (k8s_config cfg) ∷ rest)))).1

started_listed :
    (cfg : Config) (backoffs : Backoffs) (r : Readiness)
    → (bracketed cfg (started r cfg backoffs)
        ≡ opened listener
          ∷ opened signals
          ∷ opened publisher
          ∷ serve_store (k8s_config cfg)
          ∷ (started r cfg backoffs ++ closed publisher ∷ closed signals ∷ closed listener ∷ []))
      × (still_open (bracketed cfg (started r cfg backoffs)) [] ≡ some [])
started_listed cfg b ready = (refl, refl)
started_listed cfg b cancelled = (refl, refl)
started_listed cfg b timed_out = (refl, refl)
started_listed cfg b request_failed = (refl, refl)
started_listed cfg b still_waiting = (refl, refl)

module _ {K C : Type 0} where
  -- The configuration and the registrar, where every step before the server succeeds.
  abbrev pub prepared : World K C → Option (Config × Backoffs)
  prepared world = passed (load world.parsed) (λ cfg.
      passed (of_error (world.listen cfg.server.address)) (λ _.
        passed (registrar world cfg) (λ backoffs.
          passed (new_nats_publisher world.connect cfg.nats_url cfg.provider.name) (λ p.
            passed (new_client world.client_go cfg.kubernetes.kubeconfig)
              (λ client. some (cfg, backoffs))))))

  -- A run of the provider with its answer.
  abbrev pub Runs : World K C → Option (Config × Backoffs) → Outcome → Type 0
  Runs world none (r, actions) = IsError r × All IsQuiet actions
  Runs world (some (cfg, backoffs)) (r, actions) =
      (r
        ≡ (run_server true world.readiness world.bound_address world.serve_end
            world.shutdown).result)
      × (actions
          ≡ opened listener
            ∷ opened signals
            ∷ opened publisher
            ∷ serve_store (k8s_config cfg)
            ∷ (started world.readiness cfg backoffs
                ++ closed publisher ∷ closed signals ∷ closed listener ∷ []))

  serve-started :
      (world : World K C) (cfg : Config) (backoffs : Backoffs)
      → Runs world
          (some (cfg, backoffs))
          (using listener (using signals (using publisher (serve world cfg backoffs))))
        × (still_open
              (using listener (using signals (using publisher (serve world cfg backoffs)))).1
              []
            ≡ some [])
  unfolding serve
  serve-started world cfg backoffs =
      let acts =
        acts-started cfg backoffs _ world.readiness
          (run_server-called world.readiness world.bound_address world.serve_end world.shutdown) in
      let listed = started_listed cfg backoffs world.readiness in
      (
        (refl, ap (bracketed cfg) acts ∙ listed.0),
        ap (λ l. still_open (bracketed cfg l) []) acts ∙ listed.1,
      )

  -- The steps of run before the server, by what they answer, decide what becomes of it.
  pub run_prepared-Runs :
      (world : World K C)
      → Runs world (prepared world) (run world) × (still_open (run world).1 [] ≡ some [])
  unfolding run
  run_prepared-Runs world = elim (Result-cases (load world.parsed)) [
    | inr (e, a) ↦ rw (run, a) ((tt, tt), refl)
    | inl (cfg, a) ↦ elim (Result-cases (of_error (world.listen cfg.server.address))) [
      | inr (e, b) ↦ rw (run, a, b) ((tt, tt), refl)
      | inl (t, b) ↦ elim (Result-cases (registrar world cfg)) [
        | inr (e, c) ↦ rw (run, a, b, c) ((tt, (tt, (tt, (tt, (tt, tt))))), refl)
        | inl (backoffs, c) ↦
            elim (Result-cases (new_nats_publisher world.connect cfg.nats_url cfg.provider.name)) [
              | inr (e, d) ↦ rw (run, a, b, c, d) ((tt, (tt, (tt, (tt, (tt, tt))))), refl)
              | inl (p, d) ↦
                  elim (Result-cases (new_client world.client_go cfg.kubernetes.kubeconfig)) [
                    | inr (e, f) ↦
                        rw (run, a, b, c, d, f) ((tt, (tt, (tt, (tt, (tt, (tt, (tt, tt))))))), refl)
                    | inl (client, f) ↦ rw (run, a, b, c, d, f) (serve-started world cfg backoffs)
                  ]
            ]
      ]
    ]
  ]
