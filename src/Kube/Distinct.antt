-- ===== src/Kube/Distinct.antt =====
-- Deployments of a namespace under distinct names.
use k8s_container_service_pr.Base.{
  String, Bool, true, false, not, List, [], ◌∷◌, ◌++◌, ◌≡◌, refl, ap, ◌∙◌, inl, inr, ◌==◌, All,
  All-filter, filter, Bool-cases, eq_iff, arith,
}
use mathlib.Core.Path.{subst}
use k8s_container_service_pr.Kube.{Deployment}
use k8s_container_service_pr.Kube.Laws.{without_deployment}

abbrev pub Unlike : {Q : Type 0} → String → Deployment Q → Type 0
Unlike name e = (e.name == name) ≡ false

abbrev pub Distinct : {Q : Type 0} → List (Deployment Q) → Type 0
Distinct [] = Unit
Distinct (d ∷ ds) = All (Unlike d.name) ds × Distinct ds

==_sym : (s t : String) → (s == t) ≡ (t == s)
==_sym s t = ground (arith, eq_iff s t, eq_iff t s)

pub Distinct-filter :
    {Q : Type 0} (p : Deployment Q → Bool) (ds : List (Deployment Q))
    → Distinct ds
    → Distinct (filter p ds)
Distinct-filter p [] h = tt
Distinct-filter p (d ∷ ds) h = elim (Bool-cases (p d)) [
  | inl e ↦ rw e (All-filter (Unlike d.name) p ds h.0, Distinct-filter p ds h.1)
  | inr e ↦ rw e (Distinct-filter p ds h.1)
]

All-inserted :
    {A : Type 0} (P : A → Type 0) (before after : List A) (x : A)
    → All P (before ++ after)
    → P x
    → All P (before ++ x ∷ after)
All-inserted P [] after x h p = (p, h)
All-inserted P (b ∷ before) after x h p = (h.0, All-inserted P before after x h.1 p)

pub Distinct-inserted :
    {Q : Type 0} (before after : List (Deployment Q)) (d : Deployment Q)
    → All (Unlike d.name) (before ++ after)
    → Distinct (before ++ after)
    → Distinct (before ++ d ∷ after)
Distinct-inserted [] after d fresh h = (fresh, h)
Distinct-inserted (b ∷ before) after d fresh h = (
  All-inserted (Unlike b.name) before after d h.0 (==_sym d.name b.name ∙ fresh.0),
  Distinct-inserted before after d fresh.1 h.1,
)

cons≢nil : {A : Type 0} {x : A} {xs : List A} → x ∷ xs ≡ [] → ⊥
cons≢nil h = cc

pub filter-inserted :
    {A : Type 0} (p : A → Bool) (before after : List A) (x : A)
    → p x ≡ true
    → filter p (before ++ after) ≡ []
    → filter p (before ++ x ∷ after) ≡ x ∷ []
filter-inserted p [] after x e h = rw (e, h)
filter-inserted p (b ∷ before) after x e h = elim (Bool-cases (p b)) [
  | inl f ↦ absurd (cons≢nil (rw f at h))
  | inr f ↦ rw f (filter-inserted p before after x e (rw f at h))
]

pub filter-inserted_other :
    {A : Type 0} (p : A → Bool) (before after : List A) (x : A)
    → p x ≡ false
    → filter p (before ++ x ∷ after) ≡ filter p (before ++ after)
filter-inserted_other p [] after x e = rw e
filter-inserted_other p (b ∷ before) after x e = rw (filter-inserted_other p before after x e)

-- Taking out what a second test never passes.
filter_without :
    {A : Type 0} (p keep : A → Bool) (xs : List A)
    → All (λ x. keep x ≡ false → p x ≡ false) xs
    → filter p (filter keep xs) ≡ filter p xs
filter_without p keep [] h = refl
filter_without p keep (x ∷ xs) h = elim (Bool-cases (keep x)) [
  | inl e ↦ rw (e, filter_without p keep xs h.1)
  | inr e ↦ rw (e, h.0 e, filter_without p keep xs h.1)
]

module _ {Q : Type 0} (p mine : Deployment Q → Bool) (d : Deployment Q) (other : p d ≡ false) where
  abbrev Harmless : Deployment Q → Type 0
  Harmless e = not (e.name == d.name) ≡ false → p e ≡ false

  Unlike-Harmless : (ds : List (Deployment Q)) → All (Unlike d.name) ds → All Harmless ds
  Unlike-Harmless [] h = tt
  Unlike-Harmless (e ∷ ds) h = (λ f. absurd (false≢true (rw h.0 at f)), Unlike-Harmless ds h.1)
    where
      false≢true : true ≡ false → ⊥
      false≢true f = cc

  others-Harmless :
      (ds : List (Deployment Q)) → Distinct ds → filter mine ds ≡ d ∷ [] → All Harmless ds
  others-Harmless [] h e = tt
  others-Harmless (x ∷ ds) h e = elim (Bool-cases (mine x)) [
    | inl f ↦
        let same : x ≡ d = head_eq (rw f at e) in
        (
          (λ g. ap p same ∙ other),
          Unlike-Harmless ds (subst (λ (y : Deployment Q). All (Unlike y.name) ds) same h.0),
        )
    | inr f ↦
        let one = rw f at e in
        let unlike = subst (All (Unlike x.name)) one (All-filter (Unlike x.name) mine ds h.0) in
        (
          (λ g. absurd (false≢true (rw (==_sym x.name d.name, unlike.0) at g))),
          others-Harmless ds h.1 one,
        )
  ]
    where
      head_eq : {ys : List (Deployment Q)} {y : Deployment Q} → y ∷ ys ≡ d ∷ [] → y ≡ d
      head_eq g = cc

      false≢true : true ≡ false → ⊥
      false≢true g = cc

  -- Among distinct names, deleting by its name the one deployment that passes a test changes nothing
  -- for a test that it does not pass.
  pub filter-without_deployment :
      (ds : List (Deployment Q))
      → Distinct ds
      → filter mine ds ≡ d ∷ []
      → filter p (without_deployment d.name ds) ≡ filter p ds
  filter-without_deployment ds h e =
      filter_without p (λ x. not (x.name == d.name)) ds (others-Harmless ds h e)
