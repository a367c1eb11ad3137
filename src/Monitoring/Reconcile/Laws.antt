-- ===== src/Monitoring/Reconcile/Laws.antt =====
-- What is reported of a container: the worst of its pods, by a status of the API.
use k8s_container_service_pr.Base.{
  ℕ, ◌≤◌, String, Bool, true, false, Option, none, some, List, [], ◌∷◌, ◌≡◌, refl, sym, ap, ◌<◌,
  ◌&&◌, ◌||◌, not, inl, inr, arith, if◌then◌else◌, ltb, ltb→lt, All, Bool-cases, ◌==◌,
}
use mathlib.Core.Path.{subst}
use mathlib.Core.List.{Memᴰ}
use k8s_container_service_pr.Api.Enums.{ContainerStatus, is_valid_status}
use k8s_container_service_pr.Kube.{Deployment, DeploymentCondition, Pod}
use k8s_container_service_pr.Kubernetes.Convert.{map_pod_phase_to_status}
use k8s_container_service_pr.Monitoring.Reconcile.{
  pod_phase_priority, worst_of, lookup_pod_by_index, reconcile_status, reconcile_pod,
  reconcile_deployment, conditions_status, is_zero,
}

abbrev AtMost : ℕ → Pod → Type 0
AtMost n p = pod_phase_priority p.phase ≤ n

not_ltb : (a b : ℕ) → ltb a b ≡ false → b ≤ a
not_ltb a b h = ground arith

abbrev worse : Pod → Pod → Bool
worse w p = ltb (pod_phase_priority w.phase) (pod_phase_priority p.phase)

worst_of-worse :
    (w p : Pod) (ps : List Pod) → worse w p ≡ true → worst_of w (p ∷ ps) ≡ worst_of p ps
unfolding worst_of
worst_of-worse w p ps e = ap (λ b. worst_of (if b then p else w) ps) e

worst_of-better :
    (w p : Pod) (ps : List Pod) → worse w p ≡ false → worst_of w (p ∷ ps) ≡ worst_of w ps
unfolding worst_of
worst_of-better w p ps e = ap (λ b. worst_of (if b then p else w) ps) e

worst_of-ge :
    (w : Pod) (ps : List Pod)
    → pod_phase_priority w.phase ≤ pod_phase_priority (worst_of w ps).phase
unfolding worst_of
worst_of-ge w [] = omega arith
worst_of-ge w (p ∷ ps) =
    elim (Bool-cases (ltb (pod_phase_priority w.phase) (pod_phase_priority p.phase))) [
      | inl e ↦
          subst (λ r. pod_phase_priority w.phase ≤ pod_phase_priority r.phase)
            (sym (worst_of-worse w p ps e)) (raise_to (ltb→lt _ _ e) (worst_of-ge p ps))
      | inr e ↦
          subst (λ r. pod_phase_priority w.phase ≤ pod_phase_priority r.phase)
            (sym (worst_of-better w p ps e)) (worst_of-ge w ps)
    ]
  where
    raise_to : {a b c : ℕ} → a < b → b ≤ c → a ≤ c
    raise_to h g = omega arith

worst_of-max :
    (w : Pod) (ps : List Pod) → All (AtMost (pod_phase_priority (worst_of w ps).phase)) ps
worst_of-max w [] = tt
worst_of-max w (p ∷ ps) = elim (Bool-cases (worse w p)) [
  | inl e ↦
      subst (λ r. All (AtMost (pod_phase_priority r.phase)) (p ∷ ps))
        (sym (worst_of-worse w p ps e)) (worst_of-ge p ps, worst_of-max p ps)
  | inr e ↦
      subst (λ r. All (AtMost (pod_phase_priority r.phase)) (p ∷ ps))
        (sym (worst_of-better w p ps e))
        (below (worst_of-ge w ps) (not_ltb _ _ e), worst_of-max w ps)
]
  where
    below : {a b c : ℕ} → b ≤ a → c ≤ b → c ≤ a
    below h g = omega arith

worst_of-mem : (w : Pod) (ps : List Pod) → Memᴰ (worst_of w ps) (w ∷ ps)
unfolding worst_of
worst_of-mem w [] = Memᴰ.head refl
worst_of-mem w (p ∷ ps) = elim (Bool-cases (worse w p)) [
  | inl e ↦
      subst (λ r. Memᴰ r (w ∷ p ∷ ps)) (sym (worst_of-worse w p ps e))
        (Memᴰ.tail (worst_of-mem p ps))
  | inr e ↦
      subst (λ r. Memᴰ r (w ∷ p ∷ ps)) (sym (worst_of-better w p ps e)) (skip (worst_of-mem w ps))
]
  where
    skip : {x : Pod} → Memᴰ x (w ∷ ps) → Memᴰ x (w ∷ p ∷ ps)
    skip (Memᴰ.head e) = Memᴰ.head e
    skip (Memᴰ.tail m) = Memᴰ.tail (Memᴰ.tail m)

-- Whether a phase is more concerning than another: Failed before Unknown, then Pending, then Running,
-- and then all others.
abbrev pub outranks : String → String → Bool
outranks a b =
    (a == "Failed" && not (b == "Failed"))
    || (a == "Unknown" && not (b == "Failed" || b == "Unknown"))
    || (a == "Pending" && not (b == "Failed" || b == "Unknown" || b == "Pending"))
    || (a == "Running" && not (b == "Failed" || b == "Unknown" || b == "Pending" || b == "Running"))

abbrev pub NotAbove : String → Pod → Type 0
NotAbove phase p = outranks p.phase phase ≡ false

le-outranks : (a b : String) → pod_phase_priority a ≤ pod_phase_priority b → outranks a b ≡ false
unfolding pod_phase_priority
le-outranks a b h = ground arith

AtMost-NotAbove :
    (phase : String) (ps : List Pod)
    → All (AtMost (pod_phase_priority phase)) ps
    → All (NotAbove phase) ps
AtMost-NotAbove phase [] h = tt
AtMost-NotAbove phase (p ∷ ps) h = (le-outranks p.phase phase h.0, AtMost-NotAbove phase ps h.1)

-- The pod that lookupPodByIndex chooses is one of those in the index, and none of them has a more
-- concerning phase, where Failed is before Unknown, Pending, Running and all others, in this order;
-- there is a choice as soon as there is a pod.
pub lookup_pod_by_index-worst :
    (p : Pod) (ps : List Pod)
    → (worst : Pod) × (lookup_pod_by_index (some (p ∷ ps)) ≡ some worst)
      × Memᴰ worst (p ∷ ps)
      × All (NotAbove worst.phase) (p ∷ ps)
unfolding lookup_pod_by_index
lookup_pod_by_index-worst p ps = (
  worst_of p ps,
  refl,
  worst_of-mem p ps,
  AtMost-NotAbove (worst_of p ps).phase (p ∷ ps) (worst_of-ge p ps, worst_of-max p ps),
)

unfoldable pub IsReported : Option (ContainerStatus × String) → Type 0
IsReported none = Unit
IsReported (some r) = is_valid_status r.0 ≡ true

unfoldable IsMapped : Option ContainerStatus → Type 0
IsMapped none = Unit
IsMapped (some s) = is_valid_status s ≡ true

map_pod_phase_to_status-IsMapped : (phase : String) → IsMapped (map_pod_phase_to_status phase)
unfolding map_pod_phase_to_status is_valid_status IsMapped
map_pod_phase_to_status-IsMapped phase = elim (Bool-cases (phase == "Pending")) [
  | inl a ↦ rw a refl
  | inr a ↦ elim (Bool-cases (phase == "Running")) [
    | inl b ↦ rw (a, b) refl
    | inr b ↦ elim (Bool-cases (phase == "Failed")) [
      | inl c ↦ rw (a, b, c) refl
      | inr c ↦ elim (Bool-cases (phase == "Unknown")) [
        | inl d ↦ rw (a, b, c, d) refl
        | inr d ↦ rw (a, b, c, d) tt
      ]
    ]
  ]
]

conditions_status-valid :
    (cs : List DeploymentCondition) → is_valid_status (conditions_status cs).0 ≡ true
unfolding conditions_status is_valid_status
conditions_status-valid [] = refl
conditions_status-valid (c ∷ cs) =
    elim (Bool-cases (c.type_ == "ReplicaFailure" && c.status == "True")) [
      | inl e ↦ rw e refl
      | inr e ↦ rw e (conditions_status-valid cs)
    ]

-- What reconcilePod makes of a mapped phase keeps its status.
reconcile_pod-IsReported : (pod : Pod) → IsReported (reconcile_pod pod)
unfolding reconcile_pod IsReported IsMapped
reconcile_pod-IsReported pod =
    mapped (map_pod_phase_to_status pod.phase) refl (map_pod_phase_to_status-IsMapped pod.phase)
  where
    mapped :
        (o : Option ContainerStatus)
        → map_pod_phase_to_status pod.phase ≡ o
        → IsMapped o
        → IsReported (reconcile_pod pod)
    mapped none e h = rw (reconcile_pod, e) tt
    mapped (some s) e h = rw (reconcile_pod, e) h

reconcile_deployment-valid :
    {Q : Type 0} (d : Deployment Q) → is_valid_status (reconcile_deployment d).0 ≡ true
unfolding reconcile_deployment is_valid_status
reconcile_deployment-valid d = elim (Bool-cases (is_zero d.replicas)) [
  | inl e ↦ rw e refl
  | inr e ↦ rw e (conditions_status-valid d.conditions)
]

-- Whatever deployment and pod an instance has, the status that is reported of it is one of those that
-- the API defines, where anything is reported of it.
pub reconcile_status-valid :
    {Q : Type 0} (deploy : Option (Deployment Q)) (pod : Option Pod)
    → IsReported (reconcile_status deploy pod)
unfolding reconcile_status IsReported is_valid_status
reconcile_status-valid none none = refl
reconcile_status-valid none (some pod) = reconcile_pod-IsReported pod
reconcile_status-valid (some d) none = reconcile_deployment-valid d
reconcile_status-valid (some d) (some pod) = reconcile_pod-IsReported pod
