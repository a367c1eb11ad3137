-- ===== src/Api/Json/RoundTrip.antt =====
-- What MarshalJSON writes, UnmarshalJSON reads back.
pub mod Optional
pub mod Members
pub mod Process
use k8s_container_service_pr.Base.{
  String, false, Option, none, some, List, [], ◌∷◌, ◌++◌, ◌==◌, eq_refl, ◌≡◌, refl, sym, ap, ◌∙◌,
  lookup, All, Result, ok,
}
use mathlib.Core.List.{append-nil}
use k8s_container_service_pr.Base.Int.{ℤ, pos}
use k8s_container_service_pr.Api.{AnyMap, ContainerCpu, ContainerMemory, ContainerResources}
use k8s_container_service_pr.Api.Json.{
  JsonLib, Object, ◌>>=◌, delete, read_field, read_additional, put, write_additional,
}
use k8s_container_service_pr.Api.Json.Resources.{
  unmarshal_cpu, marshal_cpu, unmarshal_memory, marshal_memory, unmarshal_resources,
  marshal_resources, zero_cpu, zero_memory, zero_resources,
}
use k8s_container_service_pr.Api.Json.Keys.{IsFree}
use k8s_container_service_pr.Api.Json.Laws.{
  JsonLaws, Comes, FreeIn, IsClean, IsClean-FreeIn, object-written, read_field-Decodes,
}

module _ (lib : JsonLib) (laws : JsonLaws lib) where
  -- A type with two fields that are always written.
  module _ {A B : Type 0} (first second : String) (decode_first : String → Result String A)
      (decode_second : String → Result String B) (first_before : A) (second_before : B) where
    abbrev written : Result String String → Result String String → AnyMap → Result String String
    written first_raw second_raw p = put lib first first_raw [] >>= λ with_first.
        (put lib second second_raw with_first >>= λ object.
        (write_additional lib p object >>= λ all. lib.marshal_object all))

    abbrev read : {C : Type 0} → (A → B → AnyMap → C) → String → Result String C
    read make text = lib.unmarshal_object text >>= λ object.
        (read_field first decode_first first_before object >>= λ r.
        (read_field second decode_second second_before r.1 >>= λ s.
        (read_additional lib none s.1 >>= λ p. ok (make r.0 s.0 p))))

    pub two_fields :
        {C : Type 0} (make : A → B → AnyMap → C) (a : A) (b : B) (p : AnyMap) (x y : String)
        → (second == first) ≡ false
        → (first == second) ≡ false
        → decode_first x ≡ ok a
        → decode_second y ≡ ok b
        → laws.IsText x
        → laws.IsText y
        → IsClean lib laws (first ∷ second ∷ []) p
        → (text : String) × (written (ok x) (ok y) p ≡ ok text)
          × laws.IsText text
          × (read make text ≡ ok (make a b p))
    unfolding lookup
    two_fields make a b p x y apart apart' from_x from_y is_x is_y clean =
        let (f, (s, t)) = IsClean-FreeIn lib laws (first ∷ second ∷ []) p clean in
        let fields : Object = (second, y) ∷ (first, x) ∷ [] in
        let (raws, (text, wrote, is_text, back), keep, additional) =
          object-written lib laws p fields (first ∷ second ∷ []) clean (s, (f, tt))
            ((apart', tt), (tt, tt)) (is_y, (is_x, tt)) in
        let one : read_field first decode_first first_before (raws ++ fields)
            ≡ ok (a, raws ++ (second, y) ∷ []) =
          read_field-Decodes first decode_first first_before a raws fields (some x) (keep first f)
            (rw (apart, eq_refl first)) from_x
          ∙ rw (apart, eq_refl first) in
        let two : read_field second decode_second second_before (raws ++ (second, y) ∷ [])
            ≡ ok (b, raws ++ []) =
          read_field-Decodes second decode_second second_before b raws ((second, y) ∷ []) (some y)
            (keep second s) (rw (eq_refl second)) from_y
          ∙ rw (eq_refl second) in
        (text, rw apart' wrote, is_text, rw (back, one, two, append-nil raws, additional))

  abbrev pub Cpu : ContainerCpu → Type 0
  Cpu a = IsClean lib laws ("max" ∷ "min" ∷ []) a.additional_properties

  abbrev pub Memory : ContainerMemory → Type 0
  Memory a = IsClean lib laws ("max" ∷ "min" ∷ []) a.additional_properties

  cpu-Comes :
      (a : ContainerCpu) (max min : ℤ)
      → Cpu a
      → Comes laws.IsText
          (marshal_cpu lib)
          (unmarshal_cpu lib (record { max = max; min = min; additional_properties = none }))
          a
          a
  unfolding marshal_cpu unmarshal_cpu
  cpu-Comes a max min clean =
      let (x, mx, tx, bx) = laws.int a.max max in
      let (y, my, ty, by) = laws.int a.min min in
      rw (mx, my)
        (two_fields "max" "min" (lib.unmarshal_int max) (lib.unmarshal_int min) max min
          (λ hi lo p. record { max = hi; min = lo; additional_properties = p }) a.max a.min
          a.additional_properties x y refl refl bx by tx ty clean)

  memory-Comes :
      (a : ContainerMemory) (max min : String)
      → Memory a
      → Comes laws.IsText
          (marshal_memory lib)
          (unmarshal_memory lib (record { max = max; min = min; additional_properties = none }))
          a
          a
  unfolding marshal_memory unmarshal_memory
  memory-Comes a max min clean =
      let (x, mx, tx, bx) = laws.text a.max max in
      let (y, my, ty, by) = laws.text a.min min in
      rw (mx, my)
        (two_fields "max" "min" (lib.unmarshal_string max) (lib.unmarshal_string min) max min
          (λ hi lo p. record { max = hi; min = lo; additional_properties = p }) a.max a.min
          a.additional_properties x y refl refl bx by tx ty clean)

  abbrev pub Resources : ContainerResources → Type 0
  Resources a =
      Cpu a.cpu × Memory a.memory × IsClean lib laws ("cpu" ∷ "memory" ∷ []) a.additional_properties

  pub resources-Comes :
      (a : ContainerResources)
      → Resources a
      → Comes laws.IsText (marshal_resources lib) (unmarshal_resources lib zero_resources) a a
  unfolding marshal_resources unmarshal_resources
  resources-Comes a (cpu, memory, clean) =
      let (x, mx, tx, bx) = cpu-Comes a.cpu (pos 0) (pos 0) cpu in
      let (y, my, ty, by) = memory-Comes a.memory "" "" memory in
      rw (mx, my)
        (two_fields "cpu" "memory" (unmarshal_cpu lib zero_cpu) (unmarshal_memory lib zero_memory)
          zero_cpu zero_memory (λ c m p. record { cpu = c; memory = m; additional_properties = p })
          a.cpu a.memory a.additional_properties x y refl refl bx by tx ty clean)
