-- ===== src/Units/Order.antt =====
-- The ranges over the unit maps of internal/units/convert.go: Go visits a map's entries in any
-- order, and the result does not depend on it.
use Prim.Native.String.{count}
use mathlib.Core.List.{Memᴰ}
use k8s_container_service_pr.Base.{
  String, none, [], ◌∷◌, ◌≡◌, refl, sym, ap, ◌∙◌, inl, inr, arith, ◌<>◌, Option-cases,
}
use k8s_container_service_pr.Base.Texts.Suffix.{
  cut_suffix, cut_suffix_sound, cut_suffix-append, suffix_unique,
}
use k8s_container_service_pr.Units.{
  QuantityLib, UnitMap, api_to_k8s, k8s_to_api, find_unit, convert_memory_in, convert_memory,
  memory_quantity_to_api_in, memory_quantity_to_api,
}

-- Two maps with the same entries.
abbrev pub SameEntries : UnitMap → UnitMap → Type 0
SameEntries a b =
    ((e : String × String) → Memᴰ e a → Memᴰ e b) × ((e : String × String) → Memᴰ e b → Memᴰ e a)

-- Suffixes of one length, each with one unit.
record IsUnitMap (m : UnitMap) : Type 0 where
  two : (e : String × String) → Memᴰ e m → count e.0 ≡ 2
  functional : (e f : String × String) → Memᴰ e m → Memᴰ f m → e.0 ≡ f.0 → e.1 ≡ f.1

-- What the loop does: it finds an entry whose suffix ends the text, or there is none.
data Found (m : UnitMap) (s : String) {A : Type 0} (found : String → String → A) (r otherwise : A)
    : Type 0 where
  hit :
      (num : String) (e : String × String)
      → Memᴰ e m
      → s ≡ num <> e.0
      → r ≡ found num e.1
      → Found m s found r otherwise
  miss :
      ((e : String × String) → Memᴰ e m → cut_suffix s e.0 ≡ none)
      → r ≡ otherwise
      → Found m s found r otherwise

find_unit-Found :
    {A : Type 0} (m : UnitMap) (s : String) (found : String → String → A) (otherwise : A)
    → Found m s found (find_unit m s found otherwise) otherwise
unfolding find_unit
find_unit-Found [] s found otherwise = miss (λ e h. elim h [ ]) refl
find_unit-Found ((suffix, unit) ∷ more) s found otherwise =
    elim (Option-cases (cut_suffix s suffix)) [
      | inl x ↦ rw (x, find_unit) (later (find_unit-Found more s found otherwise) x)
      | inr (w, x) ↦
          rw (x, find_unit)
            (hit w (suffix, unit) (Memᴰ.head refl) (cut_suffix_sound s suffix w x) refl)
    ]
  where
    absent :
        (e : String × String)
        → e ≡ (suffix, unit)
        → cut_suffix s suffix ≡ none
        → cut_suffix s e.0 ≡ none
    absent e p x = rw p x

    later :
        Found more s found (find_unit more s found otherwise) otherwise
        → cut_suffix s suffix ≡ none
        → Found ((suffix, unit) ∷ more) s found (find_unit more s found otherwise) otherwise
    later (hit num e h p q) x = hit num e (Memᴰ.tail h) p q
    later (miss none_of q) x =
        miss (λ e. elim [ Memᴰ.head p ↦ absent e p x | Memᴰ.tail h ↦ none_of e h ]) q

find_unit-order :
    {A : Type 0} (m m' : UnitMap) (s : String) (found : String → String → A) (otherwise : A)
    → IsUnitMap m
    → SameEntries m' m
    → find_unit m' s found otherwise ≡ find_unit m s found otherwise
find_unit-order m m' s found otherwise valid (into, back) =
    compare_results (find_unit-Found m' s found otherwise) (find_unit-Found m s found otherwise)
  where
    clash : (num : String) (e : String × String) → s ≡ num <> e.0 → cut_suffix s e.0 ≡ none → ⊥
    clash num e p x = ground (arith, p, x, cut_suffix-append num e.0)

    compare_results :
        Found m' s found (find_unit m' s found otherwise) otherwise
        → Found m s found (find_unit m s found otherwise) otherwise
        → find_unit m' s found otherwise ≡ find_unit m s found otherwise
    compare_results (hit n e h p q) (hit k f g p' q') =
        let (same_num, same_suffix) =
          suffix_unique n k e.0 f.0 (sym p ∙ p') (valid.two e (into e h) ∙ sym (valid.two f g)) in
        cc (same_num, valid.functional e f (into e h) g same_suffix)
    compare_results (hit n e h p q) (miss none_of q') = absurd (clash n e p (none_of e (into e h)))
    compare_results (miss none_of q) (hit k f g p' q') =
        absurd (clash k f p' (none_of f (back f g)))
    compare_results (miss none_of q) (miss none_of' q') = q ∙ sym q'

unit_of : UnitMap → String → String
unit_of m s = find_unit m s (λ _ unit. unit) ""

api_two : (e : String × String) → Memᴰ e api_to_k8s → count e.0 ≡ 2
api_two e (Memᴰ.head p) = rw p
api_two e (Memᴰ.tail (Memᴰ.head p)) = rw p
api_two e (Memᴰ.tail (Memᴰ.tail (Memᴰ.head p))) = rw p
api_two e (Memᴰ.tail (Memᴰ.tail (Memᴰ.tail h))) = elim h [ ]

api_unit : (e : String × String) → Memᴰ e api_to_k8s → unit_of api_to_k8s e.0 ≡ e.1
unfolding unit_of find_unit cut_suffix
api_unit e (Memᴰ.head p) = rw p
api_unit e (Memᴰ.tail (Memᴰ.head p)) = rw p
api_unit e (Memᴰ.tail (Memᴰ.tail (Memᴰ.head p))) = rw p
api_unit e (Memᴰ.tail (Memᴰ.tail (Memᴰ.tail h))) = elim h [ ]

api_to_k8s-IsUnitMap : IsUnitMap api_to_k8s
api_to_k8s-IsUnitMap = record {
  two = api_two;
  functional = λ e f h g p. cc (api_unit e h, api_unit f g, ap (unit_of api_to_k8s) p);
}

k8s_two : (e : String × String) → Memᴰ e k8s_to_api → count e.0 ≡ 2
k8s_two e (Memᴰ.head p) = rw p
k8s_two e (Memᴰ.tail (Memᴰ.head p)) = rw p
k8s_two e (Memᴰ.tail (Memᴰ.tail (Memᴰ.head p))) = rw p
k8s_two e (Memᴰ.tail (Memᴰ.tail (Memᴰ.tail h))) = elim h [ ]

k8s_unit : (e : String × String) → Memᴰ e k8s_to_api → unit_of k8s_to_api e.0 ≡ e.1
unfolding unit_of find_unit cut_suffix
k8s_unit e (Memᴰ.head p) = rw p
k8s_unit e (Memᴰ.tail (Memᴰ.head p)) = rw p
k8s_unit e (Memᴰ.tail (Memᴰ.tail (Memᴰ.head p))) = rw p
k8s_unit e (Memᴰ.tail (Memᴰ.tail (Memᴰ.tail h))) = elim h [ ]

k8s_to_api-IsUnitMap : IsUnitMap k8s_to_api
k8s_to_api-IsUnitMap = record {
  two = k8s_two;
  functional = λ e f h g p. cc (k8s_unit e h, k8s_unit f g, ap (unit_of k8s_to_api) p);
}

-- Whatever order the range over apiToK8s takes, ConvertMemory has the same result.
convert_memory-order :
    {Q : Type 0} (lib : QuantityLib Q) (order : UnitMap) (memory_str : String)
    → SameEntries order api_to_k8s
    → convert_memory_in lib order memory_str ≡ convert_memory lib memory_str
unfolding convert_memory
convert_memory-order lib order memory_str same =
    find_unit-order api_to_k8s order memory_str _ _ api_to_k8s-IsUnitMap same

-- Whatever order the range over k8sToAPI takes, MemoryQuantityToAPI has the same result.
memory_quantity_to_api-order :
    {Q : Type 0} (lib : QuantityLib Q) (order : UnitMap) (q : Q)
    → SameEntries order k8s_to_api
    → memory_quantity_to_api_in lib order q ≡ memory_quantity_to_api lib q
unfolding memory_quantity_to_api
memory_quantity_to_api-order lib order q same =
    find_unit-order k8s_to_api order (lib.to_string q) _ _ k8s_to_api-IsUnitMap same

-- Whatever order the ranges over apiToK8s and over k8sToAPI take, ConvertMemory and MemoryQuantityToAPI
-- have the same result.
pub orders-irrelevant :
    {Q : Type 0} (lib : QuantityLib Q) (order back_order : UnitMap) (memory_str : String) (q : Q)
    → SameEntries order api_to_k8s
    → SameEntries back_order k8s_to_api
    → (convert_memory_in lib order memory_str ≡ convert_memory lib memory_str)
      × (memory_quantity_to_api_in lib back_order q ≡ memory_quantity_to_api lib q)
orders-irrelevant lib order back_order memory_str q same back_same = (
  convert_memory-order lib order memory_str same,
  memory_quantity_to_api-order lib back_order q back_same,
)
