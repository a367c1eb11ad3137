-- ===== src/Api/Json.antt =====
-- The JSON methods of api/v1alpha1/types.gen.go: additional properties beside the declared fields. A
-- json.RawMessage is its text.
pub mod Resources
pub mod Network
pub mod Process
pub mod Keys
pub mod Laws
pub mod Access
pub mod RoundTrip
pub mod Decoded
use k8s_container_service_pr.Base.{
  ◌≡◌, String, Bool, not, Option, none, some, List, [], ◌∷◌, ◌<>◌, ◌==◌, if◌then◌else◌, is_empty,
  filter, lookup, Result, ok, err,
}
use k8s_container_service_pr.Base.Int.{ℤ}
use k8s_container_service_pr.Api.{AnyValue, AnyMap}

infixl 5 ◌>>=◌
abbrev pub ◌>>=◌ : {A B : Type 0} → Result String A → (A → Result String B) → Result String B
ok a >>= f = f a
err e >>= f = err e

-- map[string]json.RawMessage
abbrev pub Object : Type 0
Object = List (String × String)

-- encoding/json on the types of the fields. A number and a text are decoded over what was there, which
-- a null leaves alone; a pointer is nil after a null, and a list gives its elements' texts.
pub record JsonLib : Type 0 where
  pub unmarshal_object : String → Result String Object
  pub marshal_object : Object → Result String String
  pub unmarshal_int : ℤ → String → Result String ℤ
  pub marshal_int : ℤ → Result String String
  pub unmarshal_string : String → String → Result String String
  pub marshal_string : String → Result String String
  pub unmarshal_string_pointer : String → Result String (Option String)
  pub unmarshal_strings : String → Result String (Option (List String))
  pub marshal_strings : List String → Result String String
  pub unmarshal_array : String → Result String (Option (List String))
  pub marshal_array : List String → Result String String
  pub unmarshal_any : String → Result String AnyValue
  pub marshal_any : AnyValue → Result String String
  -- What is made of the error of a MarshalJSON method.
  pub marshaler_error : String → String

-- `delete(object, name)` and `object[name] = value`; the order of a map does not matter.
abbrev pub delete {ℓ} : {V : Type ℓ} → String → List (String × V) → List (String × V)
delete name = filter (λ e. not (e.0 == name))

abbrev pub set_key {ℓ} : {V : Type ℓ} → String → V → List (String × V) → List (String × V)
set_key name v m = (name, v) ∷ delete name m

abbrev or_made : AnyMap → List (String × AnyValue)
or_made none = []
or_made (some m) = m

-- A type with additional properties.
pub record Additional (A : Type 0) : Type 0 where
  pub properties : A → AnyMap
  pub with_properties : AnyMap → A → A
  pub properties-with_properties : (m : AnyMap) (a : A) → properties (with_properties m a) ≡ m

-- Get and Set of each of these types.
unfoldable pub get : {A : Type 0} → ⦃t : Additional A⦄ → A → String → Option AnyValue
unfolding lookup
get ⦃t⦄ a name = elim (t.properties a) [ none ↦ none | some m ↦ lookup name m ]

unfoldable pub set : {A : Type 0} → ⦃t : Additional A⦄ → String → AnyValue → A → A
set ⦃t⦄ name value a = t.with_properties (some (set_key name value (or_made (t.properties a)))) a

abbrev pub read_raw :
    {A : Type 0}
    → String
    → Object
    → (String → Result String A)
    → A
    → Option String
    → Result String (A × Object)
read_raw name object decode before none = ok (before, object)
read_raw name object decode before (some raw) = elim (decode raw) [
  | ok a ↦ ok (a, delete name object)
  | err e ↦ err ("error reading '" <> (name <> ("': " <> e)))
]

-- `if raw, found := object[name]; found { … }`: the field, or what it was, and the object without it.
unfoldable pub read_field :
    {A : Type 0} → String → (String → Result String A) → A → Object → Result String (A × Object)
unfolding lookup
read_field name decode before object = read_raw name object decode before (lookup name object)

module _ (lib : JsonLib) where
  abbrev pub read_all : Object → Result String (List (String × AnyValue))
  read_all [] = ok []
  read_all ((name, raw) ∷ object) =
      let rest = read_all object in
      elim (lib.unmarshal_any raw) [
        | ok v ↦ (rest >>= λ m. ok ((name, v) ∷ m))
        | err e ↦ err ("error unmarshaling field " <> (name <> (": " <> e)))
      ]

  -- What is left of the object makes the additional properties; nothing left keeps them.
  unfoldable pub read_additional : AnyMap → Object → Result String AnyMap
  read_additional before object =
      if is_empty object then ok before else (read_all object >>= λ m. ok (some m))

  -- `object[name], err = json.Marshal(field)`
  abbrev pub put : String → Result String String → Object → Result String Object
  put name (ok raw) object = ok (set_key name raw object)
  put name (err e) object = err ("error marshaling '" <> (name <> ("': " <> e)))

  abbrev pub put_some :
      {A : Type 0} → String → (A → Result String String) → Option A → Object → Result String Object
  put_some name encode none object = ok object
  put_some name encode (some a) object = put name (encode a) object

  abbrev pub put_all : List (String × AnyValue) → Object → Result String Object
  put_all [] object = ok object
  put_all ((name, v) ∷ m) object = put_all m object >>= put name (lib.marshal_any v)

  -- The additional properties, which replace a declared field of the same name.
  unfoldable pub write_additional : AnyMap → Object → Result String Object
  write_additional none object = ok object
  write_additional (some m) object = put_all m object

  -- A field whose type has a MarshalJSON method.
  abbrev pub by_method : Result String String → Result String String
  by_method (ok text) = ok text
  by_method (err e) = err (lib.marshaler_error e)

  -- The elements of a list, each by the method of its type.
  abbrev pub unmarshal_each :
      {A : Type 0} → (String → Result String A) → List String → Result String (List A)
  unmarshal_each decode [] = ok []
  unmarshal_each decode (raw ∷ raws) =
      let rest = unmarshal_each decode raws in decode raw >>= λ a. (rest >>= λ l. ok (a ∷ l))

  abbrev unmarshal_list_of :
      {A : Type 0}
      → (String → Result String A)
      → Option (List String)
      → Result String (Option (List A))
  unmarshal_list_of decode none = ok none
  unmarshal_list_of decode (some raws) = unmarshal_each decode raws >>= λ l. ok (some l)

  abbrev pub unmarshal_list :
      {A : Type 0} → (String → Result String A) → String → Result String (Option (List A))
  unmarshal_list decode b = lib.unmarshal_array b >>= unmarshal_list_of decode

  abbrev pub marshal_each :
      {A : Type 0} → (A → Result String String) → List A → Result String (List String)
  marshal_each encode [] = ok []
  marshal_each encode (a ∷ l) =
      let rest = marshal_each encode l in
      by_method (encode a) >>= λ raw. (rest >>= λ raws. ok (raw ∷ raws))

  abbrev pub marshal_list :
      {A : Type 0} → (A → Result String String) → List A → Result String String
  marshal_list encode l = marshal_each encode l >>= lib.marshal_array
