-- ===== src/Api/Json/Decoded.antt =====
-- What decoding leaves: additional properties that are none of the declared fields.
pub mod Parts
pub mod Stable
use k8s_container_service_pr.Base.{
  String, true, false, Option, none, some, List, [], ◌∷◌, ◌==◌, ◌≡◌, refl, sym, ap, ◌∙◌, is_empty,
  if◌then◌else◌, inl, inr, ◌⊎◌, Bool-cases, Option-cases, Result-cases, lookup, All, Result, ok,
  err,
}
use mathlib.Core.Path.{subst}
use k8s_container_service_pr.Api.{AnyValue, AnyMap}
use k8s_container_service_pr.Api.Json.{
  JsonLib, Object, ◌>>=◌, delete, read_field, read_raw, read_all, read_additional,
}
use k8s_container_service_pr.Api.Json.Keys.{
  IsFree, NodupKeys, delete_absent, IsFree-delete, IsFree-delete_other, NodupKeys-delete,
}
use k8s_container_service_pr.Api.Json.Laws.{JsonLaws, IsClean}

pub err≢ok : {A : Type 0} {e : String} {a : A} → err e ≡ ok a → ⊥
err≢ok h = cc

pub ok_inj : {A : Type 0} {a b : A} → (let r : Result String A = ok a in r) ≡ ok b → a ≡ b
ok_inj h = cc

-- A chain that succeeds has succeeded so far.
pub bind-ok :
    {A B : Type 0} (r : Result String A) (f : A → Result String B) (b : B)
    → (r >>= f) ≡ ok b
    → (a : A) × (r ≡ ok a) × (f a ≡ ok b)
bind-ok (ok a) f b h = (a, refl, h)
bind-ok (err e) f b h = absurd (err≢ok h)

-- What a field is after it is read.
abbrev pub IsRead : {A : Type 0} → (String → Result String A) → A → A → Type 0
IsRead decode before a = (before ≡ a) ⊎ ((raw : String) × (decode raw ≡ ok a))

pub read_field-ok :
    {A : Type 0} (name : String) (decode : String → Result String A) (before : A) (object : Object)
    (out : A × Object)
    → read_field name decode before object ≡ ok out
    → IsRead decode before out.0 × (out.1 ≡ delete name object)
unfolding read_field
read_field-ok name decode before object out h = elim (Option-cases (lookup name object)) [
  | inl nothing ↦
      let e : (before, object) ≡ out = ok_inj (rw nothing at h) in
      (inl (ap (λ o. o.0) e), sym (ap (λ o. o.1) e) ∙ sym (delete_absent name object nothing))
  | inr (raw, found) ↦ elim (Result-cases (decode raw)) [
    | inr (e, failed) ↦ absurd (err≢ok (rw (found, read_raw, failed) at h))
    | inl (a, done) ↦
        let e : (a, delete name object) ≡ out = ok_inj (rw (found, read_raw, done) at h) in
        (inr (raw, done ∙ ap (λ o. ok o.0) e), sym (ap (λ o. o.1) e))
  ]
]

module _ (lib : JsonLib) (laws : JsonLaws lib) where
  read_all-ok :
      (object : Object) (m : List (String × AnyValue))
      → read_all lib object ≡ ok m
      → (is_empty m ≡ is_empty object)
        × (NodupKeys object → NodupKeys m)
        × All (λ e. laws.IsPlain e.1) m
        × ((n : String) → IsFree n object → IsFree n m)
  read_all-ok [] m h = rw (sym (ok_inj h)) (refl, (λ n. tt), tt, (λ n free. tt))
  read_all-ok ((name, raw) ∷ object) m h = elim (Result-cases (lib.unmarshal_any raw)) [
    | inr (e, failed) ↦ absurd (err≢ok (rw (read_all, failed) at h))
    | inl (v, done) ↦
        let (rest, read, made) =
          bind-ok (read_all lib object) (λ l. ok ((name, v) ∷ l)) m (rw (read_all, done) at h) in
        let (size, nodup, plain, free) = read_all-ok object rest read in
        rw (sym (ok_inj made)) (
          refl,
          (λ k. (free name k.0, nodup k.1)),
          (laws.plain raw v done, plain),
          (λ n k. (k.0, free n k.1)),
        )
  ]

  -- An object from which fields have been read.
  abbrev pub Left : List String → Object → Type 0
  Left names rest = NodupKeys rest × All (λ n. IsFree n rest) names

  pub unmarshal_object-Left :
      (b : String) (object : Object) → lib.unmarshal_object b ≡ ok object → Left [] object
  unmarshal_object-Left b object h = (laws.distinct b object h, tt)

  pub read_field-Left :
      {A : Type 0} (names : List String) (name : String) (decode : String → Result String A)
      (before : A) (object : Object) (out : A × Object)
      → Left names object
      → read_field name decode before object ≡ ok out
      → IsRead decode before out.0 × Left (name ∷ names) out.1
  read_field-Left names name decode before object out (nodup, free) h =
      let (is_read, rest) = read_field-ok name decode before object out h in
      (
        is_read,
        subst (Left (name ∷ names)) (sym rest)
            (NodupKeys-delete name object nodup, (IsFree-delete name object, each names free)),
      )
    where
      each :
          (ns : List String)
          → All (λ n. IsFree n object) ns
          → All (λ n. IsFree n (delete name object)) ns
      each [] k = tt
      each (n ∷ ns) (k, t) = (IsFree-delete_other name n object k, each ns t)

  pub read_additional-IsClean :
      (names : List String) (rest : Object) (p : AnyMap)
      → read_additional lib none rest ≡ ok p
      → Left names rest
      → IsClean lib laws names p
  unfolding read_additional
  read_additional-IsClean names rest p h (nodup, free) = elim (Bool-cases (is_empty rest)) [
    | inl nothing ↦ rw (sym (ok_inj (rw nothing at h))) tt
    | inr some_left ↦
        let (m, read, made) =
          bind-ok (read_all lib rest) (λ l. ok (some l)) p (rw some_left at h) in
        let (size, distinct, plain, keep) = read_all-ok rest m read in
        rw (sym (ok_inj made)) (size ∙ some_left, distinct nodup, plain, each m names free keep)
  ]
    where
      each :
          (m : List (String × AnyValue)) (ns : List String)
          → All (λ n. IsFree n rest) ns
          → ((n : String) → IsFree n rest → IsFree n m)
          → All (λ n. IsFree n m) ns
      each m [] h keep = tt
      each m (n ∷ ns) (h, t) keep = (keep n h, each m ns t keep)
