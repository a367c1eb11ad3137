-- ===== src/Kube/Memory/Lawful.antt =====
-- The cluster in memory obeys the laws of the client.
use Prim.Native.String.{count}
use mathlib.Core.Path.{subst}
use text.Mathlib.TextLemmas.{length-append}
use k8s_container_service_pr.Base.{
  ℕ, ◌≤◌, ◌<◌, String, false, List, [], ◌∷◌, map, ◌==◌, ◌≡◌, refl, sym, ap, ◌∙◌, arith, filter, All,
  ok, err, inl, inr, Bool-cases, eq_iff,
}
use k8s_container_service_pr.Api.{Labels}
use k8s_container_service_pr.Dcm.{matches}
use k8s_container_service_pr.Kube.{Ctx, Deployment, Service, request}
use k8s_container_service_pr.Kube.Laws.{
  SameObjects, SameDeployments, SameServices, Inserted, SameDeployment, SameService, ClientLaws,
}
use k8s_container_service_pr.Kube.Memory.{
  Cluster, next_fault, attempt, advance, all_of, named, named_service, memory_client, memory_view,
}
use k8s_container_service_pr.Kube.Memory.Selectors.{
  parse_set, set_string, parse_set-set_string, memory_labels,
}

attempt-ok :
    {Q A : Type 0} (ctx : Ctx) (a b : A) (w w' : Cluster Q)
    → (attempt ctx a w w').0 ≡ ok b
    → (a ≡ b) × ((attempt ctx a w w').1 ≡ w')
unfolding attempt
attempt-ok ctx a b w w' h = elim (Bool-cases (next_fault ctx w.faults)) [
  | inl e ↦ absurd (ground (arith, e))
  | inr e ↦ ground (arith, e)
]

attempt-err :
    {Q A : Type 0} (ctx : Ctx) (a : A) (w w' : Cluster Q) (f : String)
    → (attempt ctx a w w').0 ≡ err f
    → (attempt ctx a w w').1 ≡ advance ctx w
unfolding attempt
attempt-err ctx a w w' f h = elim (Bool-cases (next_fault ctx w.faults)) [
  | inl e ↦ rw e
  | inr e ↦ absurd (ground (arith, e))
]

attempt-read :
    {Q A : Type 0} (ctx : Ctx) (a : A) (w : Cluster Q)
    → (attempt ctx a w (advance ctx w)).1 ≡ advance ctx w
unfolding attempt
attempt-read ctx a w = elim (Bool-cases (next_fault ctx w.faults)) [ inl e ↦ rw e | inr e ↦ rw e ]

-- A text is shorter than the one made of it and others.
count-all_of : (s : String) (ss : List String) → count s < count (all_of (s ∷ ss))
count-all_of s ss = omega (arith, length-append s (all_of ss), tail_pos ss)
  where
    tail_pos : (l : List String) → 0 < count (all_of l)
    tail_pos [] = omega arith
    tail_pos (t ∷ l) = omega (arith, length-append t (all_of l), tail_pos l)

shorter : (s t : String) → count s < count t → (s == t) ≡ false
shorter s t h = elim (Bool-cases (s == t)) [
  | inl e ↦ absurd (omega (arith, ap count ((eq_iff s t).0 e)))
  | inr e ↦ e
]

count_below :
    {Q : Type 0} (n : ℕ) (ds : List (Deployment Q))
    → count (all_of (map (λ e. e.name) ds)) ≤ n
    → (t : String) → n ≤ count t
    → All (λ (e : Deployment Q). (e.name == t) ≡ false) ds
count_below n [] h t le = tt
count_below n (d ∷ ds) h t le = (
  shorter d.name t (omega (arith, count-all_of d.name (map (λ e. e.name) ds))),
  count_below n ds (omega (arith, length-append d.name (all_of (map (λ e. e.name) ds)))) t le,
)

fresh :
    {Q : Type 0} (ds : List (Deployment Q)) (d : Deployment Q)
    → All (λ (e : Deployment Q). (e.name == (named ds d).name) ≡ false) ds
fresh ds d =
    count_below (count (all_of (map (λ e. e.name) ds))) ds (omega arith) (named ds d).name
      (omega (arith, length-append d.generate_name (all_of (map (λ e. e.name) ds))))

module _ {Q : Type 0} where
  read-keeps :
      {A : Type 0} (ctx : Ctx) (a : A) (ns : String) (w : Cluster Q)
      → SameObjects memory_view ns w (attempt ctx a w (advance ctx w)).1
  read-keeps ctx a ns w = rw (attempt-read ctx a w) (refl, refl, refl)

  failed-keeps :
      {A : Type 0} (ctx : Ctx) (a : A) (ns : String) (w w' : Cluster Q) (f : String)
      → (attempt ctx a w w').0 ≡ err f
      → SameDeployments memory_view ns w (attempt ctx a w w').1
        × SameServices memory_view ns w (attempt ctx a w w').1
  failed-keeps ctx a ns w w' f h = rw (attempt-err ctx a w w' f h) (refl, refl)

  -- What a list call of the memory finds is what the selector selects.
  read-found :
      {A : Type 0} (ctx : Ctx) (labels_of : A → Labels) (sel : Labels) (xs ys : List A)
      (w : Cluster Q)
      → (attempt ctx
          (filter (λ x. matches (parse_set (set_string sel)) (labels_of x)) xs)
          w
          (advance ctx w)).0
        ≡ ok ys
      → ys ≡ filter (λ x. matches sel (labels_of x)) xs
  read-found ctx labels_of sel xs ys w h =
      sym (attempt-ok ctx _ ys w (advance ctx w) h).0
      ∙ ap (λ (m : Labels). filter (λ x. matches m (labels_of x)) xs) (parse_set-set_string sel)

  created :
      (ctx : Ctx) (ns : String) (d d' : Deployment Q) (w : Cluster Q)
      → (memory_client.create_deployment ctx ns d w).0 ≡ ok d'
      → SameDeployment d d'
        × All (λ (e : Deployment Q). (e.name == d'.name) ≡ false) w.deployments
        × Inserted d' w.deployments (memory_client.create_deployment ctx ns d w).1.deployments
        × SameServices memory_view ns w (memory_client.create_deployment ctx ns d w).1
  created ctx ns d d' w h =
      let new = named w.deployments d in
      let (e, s) =
        attempt-ok ctx new d' w (record (advance ctx w) { deployments = new ∷ w.deployments }) h in
      subst
        (λ x.
          SameDeployment d x
          × All (λ (e : Deployment Q). (e.name == x.name) ≡ false) w.deployments
          × Inserted x w.deployments (memory_client.create_deployment ctx ns d w).1.deployments
          × SameServices memory_view ns w (memory_client.create_deployment ctx ns d w).1)
        e
        (rw s
          ((refl, refl, refl, refl), fresh w.deployments d, ([], w.deployments, refl, refl), refl))

  created_service :
      (ctx : Ctx) (ns : String) (d d' : Service) (w : Cluster Q)
      → (memory_client.create_service ctx ns d w).0 ≡ ok d'
      → SameService d d'
        × Inserted d' w.services (memory_client.create_service ctx ns d w).1.services
        × SameDeployments memory_view ns w (memory_client.create_service ctx ns d w).1
  created_service ctx ns d d' w h =
      let new = named_service w.services d in
      let (e, s) =
        attempt-ok ctx new d' w (record (advance ctx w) { services = new ∷ w.services }) h in
      subst
        (λ x.
          SameService d x
          × Inserted x w.services (memory_client.create_service ctx ns d w).1.services
          × SameDeployments memory_view ns w (memory_client.create_service ctx ns d w).1)
        e (rw s ((refl, refl, refl, refl), ([], w.services, refl, refl), refl))

  pub memory_laws : ClientLaws (memory_client {Q = Q}) memory_labels memory_view
  memory_laws = record {
    list_deployments-found =
        λ ctx ns sel w ds h. read-found ctx (λ d. d.labels) sel w.deployments ds w h;
    list_deployments-keeps = λ ctx ns sel w. read-keeps ctx _ ns w;
    list_services-found = λ ctx ns sel w ss h. read-found ctx (λ s. s.labels) sel w.services ss w h;
    list_services-keeps = λ ctx ns sel w. read-keeps ctx _ ns w;
    list_pods-found = λ ctx ns sel w ps h. read-found ctx (λ p. p.labels) sel w.pods ps w h;
    list_pods-keeps = λ ctx ns sel w. read-keeps ctx _ ns w;
    server_version-keeps = λ ns w. read-keeps request "v1" ns w;
    create_deployment-done = created;
    create_deployment-failed = λ ctx ns d w e h. failed-keeps ctx _ ns w _ e h;
    delete_deployment-done = λ ctx ns name w h. rw (attempt-ok ctx tt tt w _ h).1 (refl, refl);
    delete_deployment-failed = λ ctx ns name w e h. failed-keeps ctx _ ns w _ e h;
    create_service-done = created_service;
    create_service-failed = λ ctx ns s w e h. failed-keeps ctx _ ns w _ e h;
    delete_service-done = λ ctx ns name w h. rw (attempt-ok ctx tt tt w _ h).1 (refl, refl);
    delete_service-failed = λ ctx ns name w e h. failed-keeps ctx _ ns w _ e h;
  }
