-- ===== src/Monitoring/Start/Laws.antt =====
-- How a run of the monitor ends, and what it leaves running.
use k8s_container_service_pr.Base.{
  String, Bool, true, false, none, some, List, [], ◌∷◌, ◌≡◌, ◌⊎◌, refl, sym, ◌∙◌, inl, inr, ok, err,
  All, Option-cases, Bool-cases,
}
use k8s_container_service_pr.Dcm.{LabelLib}
use k8s_container_service_pr.Monitoring.Start.{
  Informers, MonitorConfig, FactoryOptions, factory_options, start_factory, wait_for_context,
  stop_debouncer, shut_down_factory, Run, first_unsynced, start,
}

-- The informers took the indexers and the handlers.
abbrev pub IsWired : Informers → Type 0
IsWired i =
    (i.deploy_indexers ≡ none)
    × (i.pod_indexers ≡ none)
    × (i.deploy_handlers ≡ none)
    × (i.pod_handlers ≡ none)

-- The caches are filled, or the context is done when they have been waited for.
abbrev pub IsSynced : Informers → Type 0
IsSynced i = (i.context_done ≡ true) ⊎ All (λ (t : String × Bool). t.1 ≡ true) i.synced

-- How a run ends: it waits for the end of its context, with the debouncer stopped and then the factory
-- shut down; or the caches fail to fill, with the same clean-up; or nothing was started at all.
abbrev pub Ends : FactoryOptions → Informers → Run → Type 0
Ends options i (ok t, acts) =
    IsWired i
    × IsSynced i
    × (acts ≡ start_factory options ∷ wait_for_context ∷ stop_debouncer ∷ shut_down_factory ∷ [])
Ends options i (err e, acts) =
    (IsWired i
      × (IsSynced i → ⊥)
      × (acts ≡ start_factory options ∷ stop_debouncer ∷ shut_down_factory ∷ []))
    ⊎ ((IsWired i → ⊥) × (acts ≡ []))

some≢none : {A : Type 0} {a : A} → some a ≡ none → ⊥
some≢none e = cc

false≢true : false ≡ true → ⊥
false≢true e = cc

first_unsynced-none :
    (ts : List (String × Bool))
    → first_unsynced ts ≡ none
    → All (λ (t : String × Bool). t.1 ≡ true) ts
first_unsynced-none [] h = tt
first_unsynced-none ((type_, true) ∷ ts) h = (refl, first_unsynced-none ts h)
first_unsynced-none ((type_, false) ∷ ts) h = absurd (some≢none h)

first_unsynced-All :
    (ts : List (String × Bool))
    → All (λ (t : String × Bool). t.1 ≡ true) ts
    → first_unsynced ts ≡ none
first_unsynced-All [] h = refl
first_unsynced-All ((type_, true) ∷ ts) h = first_unsynced-All ts h.1
first_unsynced-All ((type_, false) ∷ ts) h = absurd (false≢true h.0)

start_wired :
    (lib : LabelLib) (cfg : MonitorConfig) (i : Informers)
    → IsWired i
    → Ends (factory_options lib cfg) i (start lib cfg i)
unfolding start
start_wired lib cfg i (a, b, c, d) = elim (Bool-cases i.context_done) [
  | inl e ↦ rw (start, a, b, c, d, e) ((refl, refl, refl, refl), inl refl, refl)
  | inr e ↦ elim (Option-cases (first_unsynced i.synced)) [
    | inl f ↦
        rw (start, a, b, c, d, e, f)
          ((refl, refl, refl, refl), inr (first_unsynced-none i.synced f), refl)
    | inr (t, f) ↦ rw (start, a, b, c, d, e, f) (inl ((refl, refl, refl, refl), late t f, refl))
  ]
]
  where
    late :
        (t : String)
        → first_unsynced i.synced ≡ some t
        → (false ≡ true) ⊎ All (λ (t : String × Bool). t.1 ≡ true) i.synced
        → ⊥
    late t f (inl g) = false≢true g
    late t f (inr all) = some≢none (sym f ∙ first_unsynced-All i.synced all)

-- Start waits for the end of its context, and then returns no error, exactly where the informers take
-- their indexers and handlers and every cache is filled, or the context is done by the time that they
-- were waited for; it returns an error else. The debouncer and then the factory, which watches DCM's objects of the configured namespace, are stopped before any return that
-- follows their start, and nothing is started before the informers are wired.
pub start-Ends :
    (lib : LabelLib) (cfg : MonitorConfig) (i : Informers)
    → Ends (factory_options lib cfg) i (start lib cfg i)
unfolding start
start-Ends lib cfg i = elim (Option-cases i.deploy_indexers) [
  | inr (x, a) ↦ rw (start, a) (inr ((λ w. some≢none w.0), refl))
  | inl a ↦ elim (Option-cases i.pod_indexers) [
    | inr (x, b) ↦ rw (start, a, b) (inr ((λ w. some≢none w.1), refl))
    | inl b ↦ elim (Option-cases i.deploy_handlers) [
      | inr (x, c) ↦ rw (start, a, b, c) (inr ((λ w. some≢none w.2), refl))
      | inl c ↦ elim (Option-cases i.pod_handlers) [
        | inr (x, d) ↦ rw (start, a, b, c, d) (inr ((λ w. some≢none w.3), refl))
        | inl d ↦ start_wired lib cfg i (a, b, c, d)
      ]
    ]
  ]
]
