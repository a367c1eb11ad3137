-- ===== src/Api/Json/RoundTrip/Optional.antt =====
-- Fields that are left out where they are nil, and lists whose elements have methods of their own.
use k8s_container_service_pr.Base.{
  String, Option, none, some, List, [], ◌∷◌, ◌≡◌, refl, All, Result, ok,
}
use k8s_container_service_pr.Api.Json.{
  JsonLib, Object, set_key, put_some, unmarshal_each, unmarshal_list, marshal_each, marshal_list,
}
use k8s_container_service_pr.Api.Json.Laws.{JsonLaws, Comes, Decodes}

abbrev pub put_raw : String → Option String → Object → Object
put_raw name none object = object
put_raw name (some raw) object = set_key name raw object

module _ (lib : JsonLib) (laws : JsonLaws lib) where
  abbrev pub IsTexts : Option String → Type 0
  IsTexts none = Unit
  IsTexts (some raw) = laws.IsText raw

  -- An optional field and the text of it.
  abbrev pub Optional :
      {A : Type 0}
      → (A → Result String String)
      → (String → Result String (Option A))
      → Option A
      → Option String
      → Type 0
  Optional encode decode o raw =
      ((name : String) (object : Object)
        → put_some lib name encode o object ≡ ok (put_raw name raw object))
      × IsTexts raw
      × Decodes decode none raw o

  abbrev pub Comings :
      {A : Type 0}
      → (A → Result String String)
      → (String → Result String (Option A))
      → Option A
      → Type 0
  Comings encode decode none = Unit
  Comings encode decode (some a) = Comes laws.IsText encode decode a (some a)

  pub put_some_lem :
      {A : Type 0} (encode : A → Result String String) (decode : String → Result String (Option A))
      (o : Option A)
      → Comings encode decode o
      → (raw : Option String) × Optional encode decode o raw
  put_some_lem encode decode none h = (none, ((λ name object. refl), tt, refl))
  put_some_lem encode decode (some a) (raw, written, text, back) =
      (some raw, ((λ name object. rw written refl), text, back))

  each-written :
      {A : Type 0} (encode : A → Result String String) (decode : String → Result String A)
      (l : List A)
      → All (λ a. Comes laws.IsText encode decode a a) l
      → (raws : List String) × (marshal_each lib encode l ≡ ok raws)
        × All laws.IsText raws
        × (unmarshal_each lib decode raws ≡ ok l)
  each-written encode decode [] h = ([], refl, tt, refl)
  each-written encode decode (a ∷ l) ((raw, written, text, back), h) =
      let (raws, all_written, texts, all_back) = each-written encode decode l h in
      (
        raw ∷ raws,
        rw (marshal_each, written, all_written) refl,
        (text, texts),
        rw (unmarshal_each, back, all_back) refl,
      )

  -- A list comes back where its elements do.
  pub list-Comes :
      {A : Type 0} (encode : A → Result String String) (decode : String → Result String A)
      (l : List A)
      → All (λ a. Comes laws.IsText encode decode a a) l
      → Comes laws.IsText (marshal_list lib encode) (unmarshal_list lib decode) l (some l)
  list-Comes encode decode l h =
      let (raws, written, texts, back) = each-written encode decode l h in
      let (text, wrote, is_text, read) = laws.array raws texts in
      (text, rw (written, wrote) refl, is_text, rw (read, back) refl)
