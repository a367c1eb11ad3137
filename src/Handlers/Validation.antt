-- ===== src/Handlers/Validation.antt =====
-- internal/handlers/container/validation.go: the checks of a request that the schema cannot make.
pub mod UserLabels
pub mod Pointers
use Prim.Native.Char.{Char, code}
use Prim.Native.String
use Prim.Native.String.{compare}
use k8s_container_service_pr.Base.{
  ℕ, String, Bool, true, false, Option, none, some, List, [], ◌∷◌, ◌++◌, if◌then◌else◌, ◌==◌, ◌<>◌,
  eqb, quote, is_some, lookup, Result, ok, err, Ordering,
}
use k8s_container_service_pr.Base.Int.{ℤ, ltb_ℤ, itoa_ℤ}
use k8s_container_service_pr.Api.{Labels, ContainerResources}
use k8s_container_service_pr.Dcm
use k8s_container_service_pr.Units.{QuantityLib, convert_memory}

pub record ValidationError : Type 0 where
  pub detail : String
  pub pointer : String

abbrev pub ptr_container_id : String
ptr_container_id = "#/spec/id"

abbrev pub ptr_cpu_min : String
ptr_cpu_min = "#/spec/resources/cpu/min"

abbrev pub ptr_mem_min : String
ptr_mem_min = "#/spec/resources/memory/min"

abbrev pub ptr_mem_max : String
ptr_mem_max = "#/spec/resources/memory/max"

-- strings.ReplaceAll of a single character by a text.
unfoldable pub replace_all : ℕ → String → String → String
replace_all c by String.[] = ""
replace_all c by (String.◌∷◌ d s) =
    let rest = replace_all c by s in if eqb (code d) c then by <> rest else String.◌∷◌ d rest

-- jsonPointerEscape
unfoldable pub json_pointer_escape : String → String
unfolding replace_all
json_pointer_escape s = replace_all b'/' "~1" (replace_all b'~' "~0" s)

unfoldable pub label_pointer : String → String
unfolding json_pointer_escape
label_pointer key = "#/spec/metadata/labels/" <> json_pointer_escape key

-- validateContainerID
unfoldable pub validate_container_id : String → Option ValidationError
validate_container_id id =
    if id == "health"
    then some (record {
      detail = "container ID " <> (quote id <> " is reserved and cannot be used");
      pointer = ptr_container_id;
    })
    else none

insert_text : String → List String → List String
insert_text s [] = s ∷ []
insert_text s (t ∷ ts) =
    let rest = insert_text s ts in
    elim (compare t s) [
      | Ordering.lt ↦ t ∷ rest
      | Ordering.eq ↦ s ∷ t ∷ ts
      | Ordering.gt ↦ s ∷ t ∷ ts
    ]

-- sort.Strings
unfoldable pub sort_strings : List String → List String
unfolding insert_text
sort_strings [] = []
sort_strings (s ∷ ss) = insert_text s (sort_strings ss)

abbrev reserved_label : String → ValidationError
reserved_label k = record {
  detail = "label " <> (quote k <> " is reserved by DCM and cannot be set by the user");
  pointer = label_pointer k;
}

-- The loop of validateUserLabels over the sorted keys.
unfoldable pub reserved_labels_in : List String → Labels → List ValidationError
reserved_labels_in [] labels = []
reserved_labels_in (k ∷ ks) labels =
    let rest = reserved_labels_in ks labels in
    if is_some (lookup k labels) then reserved_label k ∷ rest else rest

-- validateUserLabels
unfoldable pub validate_user_labels : Option Labels → List ValidationError
unfolding reserved_labels_in sort_strings
validate_user_labels none = []
validate_user_labels (some labels) =
    reserved_labels_in (sort_strings Dcm.reserved_label_keys) labels

abbrev is_gt : Ordering → Bool
is_gt Ordering.lt = false
is_gt Ordering.eq = false
is_gt Ordering.gt = true

module _ {Q : Type 0} (lib : QuantityLib Q) where
  abbrev memory_errors : String → String → String → Result String Q → List ValidationError
  memory_errors field given pointer (ok q) = []
  memory_errors field given pointer (err text) =
      record {
        detail = "invalid " <> (field <> (" " <> (quote given <> (": " <> text))));
        pointer = pointer;
      }
      ∷ []

  abbrev memory_order_errors :
      ContainerResources → Result String Q → Result String Q → List ValidationError
  memory_order_errors res (ok lo) (ok hi) =
      if is_gt (lib.cmp lo hi)
      then record {
        detail =
            "memory.min ("
            <> (res.memory.min <> (") must not exceed memory.max (" <> (res.memory.max <> ")")));
        pointer = ptr_mem_min;
      }
        ∷ []
      else []
  memory_order_errors res _ _ = []

  abbrev cpu_errors : ContainerResources → List ValidationError
  cpu_errors res =
      if ltb_ℤ res.cpu.max res.cpu.min
      then record {
        detail =
            "cpu.min ("
            <> (itoa_ℤ res.cpu.min
                <> (") must not exceed cpu.max (" <> (itoa_ℤ res.cpu.max <> ")")));
        pointer = ptr_cpu_min;
      }
        ∷ []
      else []

  -- validateResources
  unfoldable pub validate_resources : ContainerResources → List ValidationError
  validate_resources res =
      let min_mem = convert_memory lib res.memory.min in
      let max_mem = convert_memory lib res.memory.max in
      cpu_errors res
      ++ (memory_errors "memory.min" res.memory.min ptr_mem_min min_mem
          ++ (memory_errors "memory.max" res.memory.max ptr_mem_max max_mem
              ++ memory_order_errors res min_mem max_mem))
