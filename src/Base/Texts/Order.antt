-- ===== src/Base/Texts/Order.antt =====
-- The order of Go's `<` on texts: a strict order in which two texts are less, equal or greater.
use Prim.Native.Nat.{ℕ, Ordering, compare as compare_ℕ}
use Prim.Native.Char.{code}
use Prim.Native.String.compare
use Prim.Native.String.{String, [], ◌∷◌, compare, then}
use mathlib.Core.Path.{◌≡◌, refl, sym}
use mathlib.Core.Logic.{◌⊎◌, inl, inr}
use native.Mathlib.Omega.{arith}

abbrev flip : Ordering → Ordering
flip Ordering.lt = Ordering.gt
flip Ordering.eq = Ordering.eq
flip Ordering.gt = Ordering.lt

compare_ℕ-flip : (m n : ℕ) → compare_ℕ n m ≡ flip (compare_ℕ m n)
compare_ℕ-flip m n = ground arith

then-flip : (o r : Ordering) → flip (then o r) ≡ then (flip o) (flip r)
then-flip Ordering.lt r = refl
then-flip Ordering.eq r = refl
then-flip Ordering.gt r = refl

pub compare-flip : (s t : String) → compare t s ≡ flip (compare s t)
compare-flip [] [] = refl
compare-flip [] (d ∷ t) = rw (compare.nil-cons d t, compare.cons-nil d t) refl
compare-flip (c ∷ s) [] = rw (compare.nil-cons c s, compare.cons-nil c s) refl
compare-flip (c ∷ s) (d ∷ t) =
    rw
      (
        compare.cons-cons d c t s,
        compare.cons-cons c d s t,
        compare_ℕ-flip (code c) (code d),
        compare-flip s t,
      )
      (sym (then-flip (compare_ℕ (code c) (code d)) (compare s t)))

gt≢lt : Ordering.gt ≡ Ordering.lt → ⊥
gt≢lt e = cc

eq≢lt : Ordering.eq ≡ Ordering.lt → ⊥
eq≢lt e = cc

IsFirst : Ordering → Ordering → Type 0
IsFirst o r = (o ≡ Ordering.lt) ⊎ ((o ≡ Ordering.eq) × (r ≡ Ordering.lt))

then-lt : (o r : Ordering) → then o r ≡ Ordering.lt → IsFirst o r
unfolding IsFirst
then-lt Ordering.lt r h = inl refl
then-lt Ordering.eq r h = inr (refl, h)
then-lt Ordering.gt r h = absurd (gt≢lt h)

less_less :
    (a b c : ℕ)
    → compare_ℕ a b ≡ Ordering.lt
    → compare_ℕ b c ≡ Ordering.lt
    → compare_ℕ a c ≡ Ordering.lt
less_less a b c h k = ground arith

less_same :
    (a b c : ℕ)
    → compare_ℕ a b ≡ Ordering.lt
    → compare_ℕ b c ≡ Ordering.eq
    → compare_ℕ a c ≡ Ordering.lt
less_same a b c h k = ground arith

same_less :
    (a b c : ℕ)
    → compare_ℕ a b ≡ Ordering.eq
    → compare_ℕ b c ≡ Ordering.lt
    → compare_ℕ a c ≡ Ordering.lt
same_less a b c h k = ground arith

same_same :
    (a b c : ℕ)
    → compare_ℕ a b ≡ Ordering.eq
    → compare_ℕ b c ≡ Ordering.eq
    → compare_ℕ a c ≡ Ordering.eq
same_same a b c h k = ground arith

-- The first characters and the rests, along two steps.
codes_trans :
    (a b c : ℕ) (p q r : Ordering)
    → IsFirst (compare_ℕ a b) p
    → IsFirst (compare_ℕ b c) q
    → (p ≡ Ordering.lt → q ≡ Ordering.lt → r ≡ Ordering.lt)
    → then (compare_ℕ a c) r ≡ Ordering.lt
unfolding IsFirst
codes_trans a b c p q r (inl h) (inl k) f = rw (less_less a b c h k) refl
codes_trans a b c p q r (inl h) (inr (k, v)) f = rw (less_same a b c h k) refl
codes_trans a b c p q r (inr (h, u)) (inl k) f = rw (same_less a b c h k) refl
codes_trans a b c p q r (inr (h, u)) (inr (k, v)) f = rw (same_same a b c h k, f u v) refl

-- Less than is transitive.
pub compare-lt_trans :
    (s t u : String)
    → compare s t ≡ Ordering.lt
    → compare t u ≡ Ordering.lt
    → compare s u ≡ Ordering.lt
compare-lt_trans s [] [] h k = absurd (eq≢lt k)
compare-lt_trans [] [] (e ∷ u) h k = k
compare-lt_trans (c ∷ s) [] (e ∷ u) h k = absurd (gt≢lt (rw (compare.cons-nil c s) at h))
compare-lt_trans s (d ∷ t) [] h k = absurd (gt≢lt (rw (compare.cons-nil d t) at k))
compare-lt_trans [] (d ∷ t) (e ∷ u) h k = compare.nil-cons e u
compare-lt_trans (c ∷ s) (d ∷ t) (e ∷ u) h k = rw (compare.cons-cons c e s u) (
    codes_trans (code c) (code d) (code e) (compare s t) (compare t u) (compare s u)
      (then-lt (compare_ℕ (code c) (code d)) (compare s t) (rw (compare.cons-cons c d s t) at h))
      (then-lt (compare_ℕ (code d) (code e)) (compare t u) (rw (compare.cons-cons d e t u) at k))
      (compare-lt_trans s t u))
