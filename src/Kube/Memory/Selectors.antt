-- ===== src/Kube/Memory/Selectors.antt =====
-- Labels and selectors of the cluster in memory: a selector text that can be read back.
use Prim.Native.Char.{Char, code}
use mathlib.Core.List.{append-nil, append_assoc}
use k8s_container_service_pr.Base.{
  String, Option, none, some, List, [], ◌∷◌, ◌++◌, ◌==◌, ◌≡◌, refl, ap, ◌∙◌, if◌then◌else◌, eqb,
  chars, of_chars, chars-of_chars, nth_char, lookup, inl, inr, Bool-cases,
}
use k8s_container_service_pr.Api.{Labels}
use k8s_container_service_pr.Dcm.{LabelLib, LabelLaws}

of_chars-chars : (s : String) → of_chars (chars s) ≡ s
of_chars-chars String.[] = refl
of_chars-chars (String.◌∷◌ c s) = ap (String.◌∷◌ c) (of_chars-chars s)

abbrev mark : Char
mark = nth_char (chars "1") 0

abbrev stop : Char
stop = nth_char (chars "0") 0

-- A text in front of others: a mark before each character, and a stop.
put_text : List Char → List Char → List Char
put_text [] rest = stop ∷ rest
put_text (c ∷ s) rest = mark ∷ c ∷ put_text s rest

put_labels : Labels → List Char
put_labels [] = []
put_labels ((k, v) ∷ m) = put_text (chars k) (put_text (chars v) (put_labels m))

-- The texts that were put, after the characters of a first one.
get_texts : List Char → List Char → List String
get_texts seen [] = []
get_texts seen (m ∷ []) = of_chars seen ∷ []
get_texts seen (m ∷ c ∷ rest) =
    let more = get_texts (seen ++ c ∷ []) rest in
    let next = of_chars seen ∷ get_texts [] (c ∷ rest) in if eqb (code m) b'1' then more else next

pair_up : List String → Labels
pair_up [] = []
pair_up (k ∷ []) = []
pair_up (k ∷ v ∷ rest) = (k, v) ∷ pair_up rest

get_texts-put_text :
    (seen s rest : List Char)
    → get_texts seen (put_text s rest) ≡ of_chars (seen ++ s) ∷ get_texts [] rest
unfolding get_texts put_text
get_texts-put_text seen [] [] = rw append-nil
get_texts-put_text seen [] (c ∷ rest) = rw append-nil
get_texts-put_text seen (c ∷ s) rest =
    get_texts-put_text (seen ++ c ∷ []) s rest
    ∙ ap (λ l. of_chars l ∷ get_texts [] rest) (append_assoc seen (c ∷ []) s)

pair_up-put_labels : (m : Labels) → pair_up (get_texts [] (put_labels m)) ≡ m
unfolding put_labels get_texts pair_up
pair_up-put_labels [] = refl
pair_up-put_labels ((k, v) ∷ m) = rw (
  get_texts-put_text [] (chars k) (put_text (chars v) (put_labels m)),
  get_texts-put_text [] (chars v) (put_labels m),
  of_chars-chars k,
  of_chars-chars v,
  pair_up-put_labels m,
)

pub set_string : Labels → String
set_string m = of_chars (put_labels m)

pub parse_set : String → Labels
parse_set s = pair_up (get_texts [] (chars s))

-- The selector text of a map is read back as the map.
pub parse_set-set_string : (m : Labels) → parse_set (set_string m) ≡ m
unfolding parse_set set_string
parse_set-set_string m = rw (chars-of_chars (put_labels m)) (pair_up-put_labels m)

lookup-append :
    (k : String) (a b : Labels)
    → lookup k (b ++ a)
      ≡ elim (lookup k b) as (λ _. Option String) [ none ↦ lookup k a | some v ↦ some v ]
unfolding lookup
lookup-append k a [] = refl
lookup-append k a ((j, v) ∷ b) = elim (Bool-cases (j == k)) [
  | inl e ↦ rw e
  | inr e ↦ rw e (lookup-append k a b)
]

abbrev pub memory_labels : LabelLib
memory_labels = record { merge = λ a b. b ++ a; set_string = set_string }

pub memory_label_laws : LabelLaws memory_labels
memory_label_laws = record { lookup-merge = lookup-append }
