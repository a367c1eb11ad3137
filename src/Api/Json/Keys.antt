-- ===== src/Api/Json/Keys.antt =====
-- Lists of pairs as the maps of the JSON methods: keys, lookups and deletions.
use text.Mathlib.TextEquality.{eq_iff}
use k8s_container_service_pr.Base.{
  All-append, not, All-filter, String, false, none, some, List, [], ◌∷◌, ◌++◌, ◌==◌, ◌≡◌, refl, ap,
  inl, inr, Bool-cases, lookup, All, arith,
}
use k8s_container_service_pr.Api.Json.{delete}

-- No key of the list is this name, and no two keys are the same.
abbrev pub IsFree : {V : Type 0} → String → List (String × V) → Type 0
IsFree name = All (λ e. (e.0 == name) ≡ false)

abbrev pub NodupKeys : {V : Type 0} → List (String × V) → Type 0
NodupKeys [] = Unit
NodupKeys ((name, v) ∷ m) = IsFree name m × NodupKeys m

pub lookup-append_free :
    {V : Type 0} (name : String) (m n : List (String × V))
    → IsFree name m
    → lookup name (m ++ n) ≡ lookup name n
unfolding lookup
lookup-append_free name [] n h = refl
lookup-append_free name (e ∷ m) n (h, t) = rw h (lookup-append_free name m n t)

pub delete_free :
    {V : Type 0} (name : String) (m : List (String × V)) → IsFree name m → delete name m ≡ m
delete_free name [] h = refl
delete_free name (e ∷ m) (h, t) = rw (h, delete_free name m t)

pub delete-append_free :
    {V : Type 0} (name : String) (m n : List (String × V))
    → IsFree name m
    → delete name (m ++ n) ≡ m ++ delete name n
delete-append_free name [] n h = refl
delete-append_free name (e ∷ m) n (h, t) = rw (h, delete-append_free name m n t)

==_comm : (s t : String) → (s == t) ≡ false → (t == s) ≡ false
==_comm s t h = ground (arith, eq_iff s t, eq_iff t s)

-- Every key of the second list is free in the first.
abbrev pub Apart : {V U : Type 0} → List (String × V) → List (String × U) → Type 0
Apart m n = All (λ e. IsFree e.0 m) n

pub Apart-head :
    {V U : Type 0} (e : String × V) (m : List (String × V)) (n : List (String × U))
    → Apart (e ∷ m) n
    → IsFree e.0 n
Apart-head e m [] a = tt
Apart-head e m (f ∷ n) ((x, y), a) = (==_comm e.0 f.0 x, Apart-head e m n a)

pub Apart-tail :
    {V U : Type 0} (e : String × V) (m : List (String × V)) (n : List (String × U))
    → Apart (e ∷ m) n
    → Apart m n
Apart-tail e m [] a = tt
Apart-tail e m (f ∷ n) ((x, y), a) = (y, Apart-tail e m n a)

pub NodupKeys-append :
    {V : Type 0} (m n : List (String × V))
    → NodupKeys m
    → NodupKeys n
    → Apart m n
    → NodupKeys (m ++ n)
NodupKeys-append [] n h k apart = k
NodupKeys-append (e ∷ m) n (h, t) k apart =
    (All-append _ m n h (Apart-head e m n apart), NodupKeys-append m n t k (Apart-tail e m n apart))

pub delete_absent :
    {V : Type 0} (name : String) (m : List (String × V)) → lookup name m ≡ none → delete name m ≡ m
unfolding lookup
delete_absent name [] h = refl
delete_absent name (e ∷ m) h = elim (Bool-cases (e.0 == name)) [
  | inl f ↦ absurd (some≢none (rw f at h))
  | inr f ↦ rw f (ap (λ t. e ∷ t) (delete_absent name m (rw f at h)))
]
  where
    some≢none : {A : Type 0} {a : A} → some a ≡ none → ⊥
    some≢none z = cc

pub IsFree-delete :
    {V : Type 0} (name : String) (m : List (String × V)) → IsFree name (delete name m)
IsFree-delete name [] = tt
IsFree-delete name (e ∷ m) = elim (Bool-cases (e.0 == name)) [
  | inl f ↦ rw f (IsFree-delete name m)
  | inr f ↦ rw f (f, IsFree-delete name m)
]

pub IsFree-delete_other :
    {V : Type 0} (name other : String) (m : List (String × V))
    → IsFree other m
    → IsFree other (delete name m)
IsFree-delete_other name other m h = All-filter _ (λ e. not (e.0 == name)) m h

pub NodupKeys-delete :
    {V : Type 0} (name : String) (m : List (String × V)) → NodupKeys m → NodupKeys (delete name m)
NodupKeys-delete name [] h = tt
NodupKeys-delete name (e ∷ m) (h, t) = elim (Bool-cases (e.0 == name)) [
  | inl f ↦ rw f (NodupKeys-delete name m t)
  | inr f ↦ rw f (IsFree-delete_other name e.0 m h, NodupKeys-delete name m t)
]
