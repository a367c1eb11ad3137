-- ===== src/Api/Json/Laws.antt =====
-- What is relied on of encoding/json, and how the fields and the additional properties of an object
-- are written and read back.
use k8s_container_service_pr.Base.{
  All-append, String, false, Option, none, some, List, [], ◌∷◌, ◌++◌, ◌≡◌, refl, ap, ◌∙◌, is_empty,
  lookup, All, Result, ok,
}
use k8s_container_service_pr.Base.Int.{ℤ}
use k8s_container_service_pr.Api.{AnyValue, AnyMap}
use k8s_container_service_pr.Api.Json.{
  JsonLib, Object, ◌>>=◌, delete, read_field, read_raw, read_all, read_additional, put_all,
  write_additional,
}
use k8s_container_service_pr.Api.Json.Keys.{
  IsFree, NodupKeys, lookup-append_free, delete_free, delete-append_free, Apart-head, Apart-tail,
  Apart, NodupKeys-append, delete_absent,
}

-- A value is written as a text, which is read back as another value.
abbrev pub Comes :
    {A B : Type 0}
    → (String → Type 0)
    → (A → Result String String)
    → (String → Result String B)
    → A
    → B
    → Type 0
Comes IsText marshal unmarshal a b =
    (text : String) × (marshal a ≡ ok text) × IsText text × (unmarshal text ≡ ok b)

-- What json.Marshal writes, json.Unmarshal reads back; the order in which a map is listed is not
-- observed. `IsText` holds of the texts that json.Marshal makes, and `IsPlain` of the values that
-- survive it, as all that json.Unmarshal makes of an `interface{}` do. A map has each key once.
pub record JsonLaws (lib : JsonLib) : Type 1 where
  pub IsText : String → Type 0
  pub IsPlain : AnyValue → Type 0
  pub object :
      (m : Object)
      → NodupKeys m
      → All (λ e. IsText e.1) m
      → Comes IsText lib.marshal_object lib.unmarshal_object m m
  pub int : (n before : ℤ) → Comes IsText lib.marshal_int (lib.unmarshal_int before) n n
  pub text : (s before : String) → Comes IsText lib.marshal_string (lib.unmarshal_string before) s s
  pub pointer :
      (s : String) → Comes IsText lib.marshal_string lib.unmarshal_string_pointer s (some s)
  pub strings :
      (l : List String) → Comes IsText lib.marshal_strings lib.unmarshal_strings l (some l)
  pub array :
      (l : List String)
      → All IsText l
      → Comes IsText lib.marshal_array lib.unmarshal_array l (some l)
  pub any : (v : AnyValue) → IsPlain v → Comes IsText lib.marshal_any lib.unmarshal_any v v
  pub distinct : (b : String) (m : Object) → lib.unmarshal_object b ≡ ok m → NodupKeys m
  pub plain : (b : String) (v : AnyValue) → lib.unmarshal_any b ≡ ok v → IsPlain v

-- What is decoded of a field, or what was there before.
abbrev pub Decodes : {A : Type 0} → (String → Result String A) → A → Option String → A → Type 0
Decodes decode before none a = before ≡ a
Decodes decode before (some raw) a = decode raw ≡ ok a

pub read_field-Decodes :
    {A : Type 0} (name : String) (decode : String → Result String A) (before a : A)
    (raws fields : Object) (o : Option String)
    → IsFree name raws
    → lookup name fields ≡ o
    → Decodes decode before o a
    → read_field name decode before (raws ++ fields) ≡ ok (a, raws ++ delete name fields)
unfolding read_field
read_field-Decodes name decode before a raws fields none free found same =
    rw
      (
        read_field,
        lookup-append_free name raws fields free,
        found,
        delete_absent name fields found,
        same,
      )
      refl
read_field-Decodes name decode before a raws fields (some raw) free found decoded =
    rw
      (
        read_field,
        lookup-append_free name raws fields free,
        found,
        read_raw,
        decoded,
        delete-append_free name raws fields free,
      )
      refl

abbrev pub FreeIn : String → AnyMap → Type 0
FreeIn n none = Unit
FreeIn n (some m) = IsFree n m

module _ (lib : JsonLib) (laws : JsonLaws lib) where
  -- Additional properties that a decoder makes: none has the name of a declared field, and no two have
  -- the same; the map is nil where there are none.
  abbrev pub IsClean : List String → AnyMap → Type 0
  IsClean names none = Unit
  IsClean names (some m) =
      (is_empty m ≡ false)
      × NodupKeys m
      × All (λ e. laws.IsPlain e.1) m
      × All (λ n. IsFree n m) names

  pub IsClean-FreeIn :
      (names : List String) (p : AnyMap) → IsClean names p → All (λ n. FreeIn n p) names
  IsClean-FreeIn [] p clean = tt
  IsClean-FreeIn (n ∷ names) none clean = (tt, IsClean-FreeIn names none tt)
  IsClean-FreeIn (n ∷ names) (some m) (some_left, nodup, plain, free) = free

  -- What is written of additional properties in front of the fields of an object.
  abbrev pub Written : AnyMap → Object → Object → Type 0
  Written p fields raws =
      (write_additional lib p fields ≡ ok (raws ++ fields))
      × NodupKeys raws
      × All (λ e. laws.IsText e.1) raws
      × ((n : String) → FreeIn n p → IsFree n raws)
      × (read_additional lib none raws ≡ ok p)

  abbrev AllWritten : List (String × AnyValue) → Object → Object → Type 0
  AllWritten m fields raws =
      (put_all lib m fields ≡ ok (raws ++ fields))
      × NodupKeys raws
      × All (λ e. laws.IsText e.1) raws
      × ((n : String) → IsFree n m → IsFree n raws)
      × (read_all lib raws ≡ ok m)
      × (is_empty raws ≡ is_empty m)

  put_all-written :
      (m : List (String × AnyValue)) (fields : Object)
      → NodupKeys m
      → All (λ e. laws.IsPlain e.1) m
      → Apart m fields
      → (raws : Object) × AllWritten m fields raws
  put_all-written [] fields nodup plain apart = ([], (refl, tt, tt, (λ n h. tt), refl, refl))
  put_all-written ((name, v) ∷ m) fields (free, nodup) (p, plain) apart =
      let (raws, (put_them, distinct, texts, keep, read, length)) =
        put_all-written m fields nodup plain (Apart-tail (name, v) m fields apart) in
      let (raw, written, text, back) = laws.any v p in
      (
        (name, raw) ∷ raws,
        (
          rw (put_them, written)
              (ap (λ o. ok ((name, raw) ∷ o))
                (delete_free name (raws ++ fields) (
                  All-append _ raws fields (keep name free)
                    (Apart-head (name, v) m fields apart)))),
          (keep name free, distinct),
          (text, texts),
          (λ n h. (h.0, keep n h.1)),
          rw (read_all, back, read) refl,
          refl,
        ),
      )

  pub write_additional_lem :
      (p : AnyMap) (fields : Object) (names : List String)
      → IsClean names p
      → All (λ e. FreeIn e.0 p) fields
      → (raws : Object) × Written p fields raws
  unfolding write_additional read_additional
  write_additional_lem none fields names clean apart = ([], (refl, tt, tt, (λ n h. tt), refl))
  write_additional_lem (some m) fields names (some_left, nodup, plain, free) apart =
      let (raws, (put_them, distinct, texts, keep, read, length)) =
        put_all-written m fields nodup plain apart in
      (raws, (put_them, distinct, texts, keep, rw (length ∙ some_left, read) refl))

  -- An object of fields and additional properties, as a text.
  pub object-written :
      (p : AnyMap) (fields : Object) (names : List String)
      → IsClean names p
      → All (λ e. FreeIn e.0 p) fields
      → NodupKeys fields
      → All (λ e. laws.IsText e.1) fields
      → (raws : Object) × ((text : String) × ((write_additional lib p fields >>= lib.marshal_object)
            ≡ ok text)
          × laws.IsText text
          × (lib.unmarshal_object text ≡ ok (raws ++ fields)))
        × ((n : String) → FreeIn n p → IsFree n raws)
        × (read_additional lib none raws ≡ ok p)
  object-written p fields names clean apart distinct texts =
      let (raws, (wrote, nodup, raw_texts, keep, read)) =
        write_additional_lem p fields names clean apart in
      let (text, marshalled, is_text, back) =
        laws.object (raws ++ fields)
          (NodupKeys-append raws fields nodup distinct (keeps raws keep fields apart))
          (All-append _ raws fields raw_texts texts) in
      (raws, (text, rw wrote marshalled, is_text, back), keep, read)
    where
      keeps :
          (raws : Object)
          → ((n : String) → FreeIn n p → IsFree n raws)
          → (fs : Object) → All (λ e. FreeIn e.0 p) fs
          → Apart raws fs
      keeps raws keep [] h = tt
      keeps raws keep (f ∷ fs) (h, t) = (keep f.0 h, keeps raws keep fs t)
