-- ===== src/Kubernetes/Paging/Order.antt =====
-- The order of names under the sort of List in internal/kubernetes/store_list.go, and what the sort keeps.
use Prim.Native.String.{compare}
use k8s_container_service_pr.Base.{
  Bool, true, false, List, [], ◌∷◌, ◌≡◌, refl, sym, ◌∙◌, inl, inr, Bool-cases, Ordering, All,
  eq_iff,
}
use mathlib.Core.List.{Permᴰ}
use mathlib.Core.List.Permᴰ
use k8s_container_service_pr.Base.Texts.Order.{compare-flip, compare-lt_trans}
use text.Mathlib.TextPositions.{compare_refl}
use text.Mathlib.TextEquality.{path_by_compare}
use k8s_container_service_pr.Kube.{Deployment}
use k8s_container_service_pr.Kubernetes.Paging.{name_lt, insert_by_name, sort_by_name}
use k8s_container_service_pr.Kube.Distinct.{Distinct, Unlike}

abbrev pub Before : {Q : Type 0} → Deployment Q → Deployment Q → Type 0
Before d e = name_lt d e ≡ true

-- Each name is less than all that follow.
abbrev pub Ordered : {Q : Type 0} → List (Deployment Q) → Type 0
Ordered [] = Unit
Ordered (d ∷ ds) = All (Before d) ds × Ordered ds

module _ {Q : Type 0} where
  lt_of_Before : (d e : Deployment Q) → Before d e → compare d.name e.name ≡ Ordering.lt
  lt_of_Before d e h = only (compare d.name e.name) h
    where
      only :
          (o : Ordering)
          → (elim o as (λ _. Bool) [
            | Ordering.lt ↦ true
            | Ordering.eq ↦ false
            | Ordering.gt ↦ false
          ])
            ≡ true
          → o ≡ Ordering.lt
      only Ordering.lt h = refl
      only Ordering.eq h = cc
      only Ordering.gt h = cc

  Before-lt : (d e : Deployment Q) → compare d.name e.name ≡ Ordering.lt → Before d e
  Before-lt d e h = rw (name_lt, h) refl

  Before-trans : (d e f : Deployment Q) → Before d e → Before e f → Before d f
  Before-trans d e f h k =
      Before-lt d f
        (compare-lt_trans d.name e.name f.name (lt_of_Before d e h) (lt_of_Before e f k))

  Before-total : (d e : Deployment Q) → Unlike d.name e → name_lt e d ≡ false → Before d e
  Before-total d e h k = by_names (compare d.name e.name) refl
    where
      true≢false : true ≡ false → ⊥
      true≢false z = cc

      by_names : (o : Ordering) → compare d.name e.name ≡ o → Before d e
      by_names Ordering.lt r = Before-lt d e r
      by_names Ordering.eq r =
          absurd (
            true≢false (sym ((eq_iff e.name d.name).1 (sym (path_by_compare d.name e.name r))) ∙ h))
      by_names Ordering.gt r =
          absurd (true≢false (sym (Before-lt e d (rw (compare-flip d.name e.name, r) refl)) ∙ k))

  pub Before-irrefl : (d : Deployment Q) → Before d d → ⊥
  Before-irrefl d h = eq≢lt (sym (compare_refl d.name) ∙ lt_of_Before d d h)
    where
      eq≢lt : Ordering.eq ≡ Ordering.lt → ⊥
      eq≢lt z = cc

  pub Before-asym : (d e : Deployment Q) → Before d e → Before e d → ⊥
  Before-asym d e h k = Before-irrefl d (Before-trans d e d h k)

  All-Before :
      (d e : Deployment Q) (es : List (Deployment Q))
      → Before d e
      → All (Before e) es
      → All (Before d) es
  All-Before d e [] h k = tt
  All-Before d e (f ∷ es) h k = (Before-trans d e f h k.0, All-Before d e es h k.1)

  All-insert :
      (P : Deployment Q → Type 0) (d : Deployment Q) (es : List (Deployment Q))
      → P d
      → All P es
      → All P (insert_by_name d es)
  unfolding insert_by_name
  All-insert P d [] p h = (p, tt)
  All-insert P d (e ∷ es) p h = elim (Bool-cases (name_lt e d)) [
    | inl f ↦ rw f (h.0, All-insert P d es p h.1)
    | inr f ↦ rw f (p, h)
  ]

  All-sort :
      (P : Deployment Q → Type 0) (ds : List (Deployment Q)) → All P ds → All P (sort_by_name ds)
  unfolding sort_by_name
  All-sort P [] h = tt
  All-sort P (d ∷ ds) h = All-insert P d (sort_by_name ds) h.0 (All-sort P ds h.1)

  insert-Ordered :
      (d : Deployment Q) (es : List (Deployment Q))
      → All (Unlike d.name) es
      → Ordered es
      → Ordered (insert_by_name d es)
  unfolding insert_by_name
  insert-Ordered d [] u h = (tt, tt)
  insert-Ordered d (e ∷ es) u h = elim (Bool-cases (name_lt e d)) [
    | inl f ↦ rw f (All-insert (Before e) d es f h.0, insert-Ordered d es u.1 h.1)
    | inr f ↦ let first = Before-total d e u.0 f in rw f ((first, All-Before d e es first h.0), h)
  ]

  pub sort-Ordered : (ds : List (Deployment Q)) → Distinct ds → Ordered (sort_by_name ds)
  unfolding sort_by_name
  sort-Ordered [] h = tt
  sort-Ordered (d ∷ ds) h =
      insert-Ordered d (sort_by_name ds) (All-sort (Unlike d.name) ds h.0) (sort-Ordered ds h.1)

  insert-Perm : (d : Deployment Q) (es : List (Deployment Q)) → Permᴰ (insert_by_name d es) (d ∷ es)
  unfolding insert_by_name
  insert-Perm d [] = Permᴰ.refl (d ∷ [])
  insert-Perm d (e ∷ es) = elim (Bool-cases (name_lt e d)) [
    | inl f ↦ rw f (Permᴰ.trans (Permᴰ.cons refl (insert-Perm d es)) (Permᴰ.swap refl refl))
    | inr f ↦ rw f (Permᴰ.refl (d ∷ e ∷ es))
  ]

  pub sort-Perm : (ds : List (Deployment Q)) → Permᴰ (sort_by_name ds) ds
  unfolding sort_by_name
  sort-Perm [] = Permᴰ.refl []
  sort-Perm (d ∷ ds) =
      Permᴰ.trans (insert-Perm d (sort_by_name ds)) (Permᴰ.cons refl (sort-Perm ds))
