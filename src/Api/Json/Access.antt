-- ===== src/Api/Json/Access.antt =====
-- Get and Set of the additional properties.
use text.Mathlib.TextEquality.{eq_iff}
use k8s_container_service_pr.Base.{
  String, Option, none, some, ◌==◌, ◌≡◌, refl, if◌then◌else◌, not, lookup, lookup-filter, arith,
}
use k8s_container_service_pr.Api.{AnyMap, AnyValue}
use k8s_container_service_pr.Api.Json.{Additional, set_key, get, set, or_made}

abbrev found : String → AnyMap → Option AnyValue
found name none = none
found name (some m) = lookup name m

get-found :
    {A : Type 0} ⦃t : Additional A⦄ (a : A) (name : String)
    → get a name ≡ found name (t.properties a)
unfolding get
get-found ⦃t⦄ a name = by_cases (t.properties a)
  where
    by_cases : (p : AnyMap) → elim p [ none ↦ none | some m ↦ lookup name m ] ≡ found name p
    by_cases none = refl
    by_cases (some m) = refl

found-set_key :
    (name other : String) (value : AnyValue) (p : AnyMap)
    → found other (some (set_key name value (or_made p)))
      ≡ (if name == other then some value else found other p)
unfolding lookup
found-set_key name other value none = refl
found-set_key name other value (some m) =
    ground
      (arith, eq_iff name other, eq_iff other name, lookup-filter (λ k. not (k == name)) other m)

-- What Set stores under a name, Get finds under it; under any other name it finds what it found.
pub get-set :
    {A : Type 0} ⦃t : Additional A⦄ (a : A) (name other : String) (value : AnyValue)
    → get (set name value a) other ≡ (if name == other then some value else get a other)
unfolding set
get-set ⦃t⦄ a name other value =
    rw
      (
        get-found (set name value a) other,
        t.properties-with_properties (some (set_key name value (or_made (t.properties a)))) a,
        get-found a other,
      )
      (found-set_key name other value (t.properties a))
