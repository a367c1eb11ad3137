-- ===== src/Base/Texts/Suffix.antt =====
-- strings.CutSuffix, and what decides it.
use Prim.Native.Char.{Char}
use Prim.Native.String.{String, count}
use mathlib.Core.Option
use mathlib.Core.Option.{Option, none, some}
use mathlib.Core.Path.{◌≡◌, refl, sym, ap, ◌∙◌}
use mathlib.Core.Bool.{false}
use mathlib.Core.Logic.{inl, inr}
use native.Mathlib.Omega.{arith}
use text.Mathlib.Text.{◌==◌}
use text.Mathlib.TextEquality.{eq_iff}
use text.Mathlib.TextPositions.{eq_refl}
use text.Mathlib.TextLemmas.{
  nil-append, cons-append, append_cancel_right, append_inj, length-append, nil≢cons,
}
use k8s_container_service_pr.Base.Tests.{if◌then◌else◌, Bool-cases, Option-cases}
use k8s_container_service_pr.Base.Texts.{◌<>◌}

-- strings.CutSuffix: what stands before the suffix, or `none`.
unfoldable pub cut_suffix : String → String → Option String
cut_suffix String.[] t = if "" == t then some "" else none
cut_suffix (String.◌∷◌ c s) t =
    let rest = Option.map (String.◌∷◌ c) (cut_suffix s t) in
    if String.◌∷◌ c s == t then some "" else rest

-- A suffix that is cut off stands at the end.
pub cut_suffix_sound : (s t u : String) → cut_suffix s t ≡ some u → s ≡ u <> t
unfolding cut_suffix
cut_suffix_sound String.[] t u h = elim (Bool-cases ("" == t)) [
  | inl e ↦ ground (arith, eq_iff "" t, nil-append t)
  | inr e ↦ ground arith
]
cut_suffix_sound (String.◌∷◌ c s) t u h = elim (Bool-cases (String.◌∷◌ c s == t)) [
  | inl e ↦ ground (arith, eq_iff (String.◌∷◌ c s) t, nil-append t)
  | inr e ↦ elim (Option-cases (cut_suffix s t)) [
    | inl x ↦ ground (arith, x)
    | inr (w, x) ↦ ground (arith, x, cons-append c w t, cut_suffix_sound s t w x)
  ]
]

cut_suffix_self : (t : String) → cut_suffix t t ≡ some ""
unfolding cut_suffix
cut_suffix_self String.[] = refl
cut_suffix_self (String.◌∷◌ c s) = rw (eq_refl (String.◌∷◌ c s))

append-eq-false : (c : Char) (u t : String) → (String.◌∷◌ c (u <> t) == t) ≡ false
append-eq-false c u t = elim (Bool-cases (String.◌∷◌ c (u <> t) == t)) [
  | inl e ↦
      let p : String.◌∷◌ c u <> t ≡ "" <> t =
        cons-append c u t ∙ (eq_iff (String.◌∷◌ c (u <> t)) t).0 e ∙ sym (nil-append t) in
      absurd (nil≢cons (sym (append_cancel_right (String.◌∷◌ c u) "" t p)))
  | inr e ↦ e
]

-- A suffix that stands at the end is cut off.
pub cut_suffix-append : (u t : String) → cut_suffix (u <> t) t ≡ some u
unfolding cut_suffix
cut_suffix-append String.[] t = rw (nil-append t) (cut_suffix_self t)
cut_suffix-append (String.◌∷◌ c u) t =
    rw (cons-append c u t, append-eq-false c u t, cut_suffix-append u t)

pub suffix_unique : (u v s t : String) → u <> s ≡ v <> t → count s ≡ count t → (u ≡ v) × (s ≡ t)
suffix_unique u v s t e n =
    append_inj e (omega (arith, ap count e, length-append u s, length-append v t))
