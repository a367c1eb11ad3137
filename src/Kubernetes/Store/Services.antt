-- ===== src/Kubernetes/Store/Services.antt =====
-- Deleting services by their names, one after the other.
use k8s_container_service_pr.Base.{
  Bool, true, not, List, [], ◌∷◌, ◌==◌, ◌≡◌, refl, ap, ◌∙◌, inl, inr, eq_refl, filter-filter,
  filter_comm, ◌&&◌, filter, Bool-cases,
}
use mathlib.Core.Path.{subst}
use k8s_container_service_pr.Kube.{Service}
use k8s_container_service_pr.Kube.Laws.{without_service}

abbrev pub without_each : List Service → List Service → List Service
without_each [] xs = xs
without_each (s ∷ ss) xs = without_each ss (without_service s.name xs)

without_each-filter : (q : Service → Bool) (ss : List Service) → without_each ss (filter q ss) ≡ []
without_each-filter q [] = refl
without_each-filter q (s ∷ ss) = elim (Bool-cases (q s)) [
  | inl e ↦
      rw (e, eq_refl s.name, filter-filter (λ t. not (t.name == s.name)) q ss)
        (without_each-filter (λ t. q t && not (t.name == s.name)) ss)
  | inr e ↦
      rw (e, filter-filter (λ t. not (t.name == s.name)) q ss)
        (without_each-filter (λ t. q t && not (t.name == s.name)) ss)
]

always : Service → Bool
always s = true

filter-always : (ss : List Service) → filter always ss ≡ ss
unfolding always
filter-always [] = refl
filter-always (s ∷ ss) = rw (filter-always ss)

-- Deleting by name each of a list of services leaves none of them.
pub without_each_self : (ss : List Service) → without_each ss ss ≡ []
without_each_self ss =
    subst (λ l. without_each ss l ≡ []) (filter-always ss) (without_each-filter always ss)

pub filter-without_each :
    (p : Service → Bool) (ss xs : List Service)
    → filter p (without_each ss xs) ≡ without_each ss (filter p xs)
filter-without_each p [] xs = refl
filter-without_each p (s ∷ ss) xs =
    filter-without_each p ss (without_service s.name xs)
    ∙ ap (without_each ss) (filter_comm p (λ t. not (t.name == s.name)) xs)
