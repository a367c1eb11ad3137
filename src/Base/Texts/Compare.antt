-- ===== src/Base/Texts/Compare.antt =====
-- Comparisons of texts with a common prefix.
use Prim.Native.String.{String}
use mathlib.Core.Path.{◌≡◌, sym, ◌∙◌}
use mathlib.Core.Logic.{inl, inr}
use text.Mathlib.Text.{◌==◌}
use text.Mathlib.TextEquality.{eq_iff}
use text.Mathlib.TextPositions.{eq_refl}
use text.Mathlib.TextLemmas.{append_cancel_left}
use k8s_container_service_pr.Base.Tests.{Bool-cases}
use k8s_container_service_pr.Base.Texts.{◌<>◌}

-- A common prefix does not count.
pub ==-append : (p s t : String) → ((p <> s) == (p <> t)) ≡ (s == t)
==-append p s t = elim (Bool-cases (s == t)) [
  | inl e ↦ rw (e, (eq_iff s t).0 e) (eq_refl (p <> t))
  | inr e ↦ elim (Bool-cases ((p <> s) == (p <> t))) [
    | inr f ↦ f ∙ sym e
    | inl f ↦ f ∙ sym ((eq_iff s t).1 (append_cancel_left p s t ((eq_iff (p <> s) (p <> t)).0 f)))
  ]
]
