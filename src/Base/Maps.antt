-- ===== src/Base/Maps.antt =====
-- Go maps as lists of pairs, read by the first match.
use Prim.Native.String.{String}
use mathlib.Core.Path.{◌≡◌}
use mathlib.Core.Bool.{Bool}
use mathlib.Core.Option.{Option, none, some}
use mathlib.Core.List.{List, [], ◌∷◌}
use native.Mathlib.Omega.{arith}
use text.Mathlib.Text.{◌==◌}
use text.Mathlib.TextEquality.{eq_iff}
use k8s_container_service_pr.Base.Tests.{if◌then◌else◌}
use k8s_container_service_pr.Base.Lists.{filter}

-- `v, ok := m[k]`
unfoldable pub lookup {ℓ} : {V : Type ℓ} → String → List (String × V) → Option V
lookup k [] = none
lookup k ((j, v) ∷ m) = if j == k then some v else lookup k m

-- `m[k]` of a map to texts: the empty text where the key is missing.
abbrev pub or_empty : Option String → String
or_empty none = ""
or_empty (some v) = v

-- What a filter on the keys leaves.
pub lookup-filter {ℓ} :
    {V : Type ℓ} (p : String → Bool) (k : String) (m : List (String × V))
    → lookup k (filter (λ e. p e.0) m) ≡ (if p k then lookup k m else none)
unfolding lookup
lookup-filter p k [] = ground arith
lookup-filter p k ((j, v) ∷ m) = ground (arith, eq_iff j k, lookup-filter p k m)
