-- ===== src/Handlers/Validation/Pointers.antt =====
-- The JSON pointers of internal/handlers/container/validation.go: an escaped label key is read back.
use Prim.Native.Char.{Char, code}
use text.Mathlib.TextLemmas.{nil-append, cons-append}
use text.Mathlib.TextEquality.{Char-path}
use k8s_container_service_pr.Base.{
  String, false, ◌&&◌, ◌≡◌, refl, sym, ap, if◌then◌else◌, ◌<>◌, eqb, eqb_iff, inl, inr, Bool-cases,
  chars, nth_char,
}
use k8s_container_service_pr.Handlers.Validation.{replace_all, json_pointer_escape}

abbrev tilde : Char
tilde = nth_char (chars "~") 0

abbrev slash : Char
slash = nth_char (chars "/") 0

-- The reading of an escaped reference token (RFC 6901, section 4).
pub json_pointer_unescape : String → String
json_pointer_unescape String.[] = ""
json_pointer_unescape (String.◌∷◌ c String.[]) = String.◌∷◌ c ""
json_pointer_unescape (String.◌∷◌ c (String.◌∷◌ d s)) =
    let escaped = json_pointer_unescape s in
    let plain = String.◌∷◌ c (json_pointer_unescape (String.◌∷◌ d s)) in
    if eqb (code c) b'~' && eqb (code d) b'1'
    then String.◌∷◌ slash escaped
    else if eqb (code c) b'~' && eqb (code d) b'0'
    then String.◌∷◌ tilde escaped
    else plain

two-append :
    (a b : Char) (x : String) → String.◌∷◌ a (String.◌∷◌ b "") <> x ≡ String.◌∷◌ a (String.◌∷◌ b x)
two-append a b x = rw (cons-append a (String.◌∷◌ b "") x, cons-append b "" x, nil-append x)

escape-tilde :
    (s : String) → json_pointer_escape (String.◌∷◌ tilde s) ≡ "~0" <> json_pointer_escape s
unfolding json_pointer_escape replace_all
escape-tilde s = rw (two-append tilde (nth_char (chars "0") 0) (replace_all b'~' "~0" s)) (
    sym
      (two-append tilde (nth_char (chars "0") 0) (replace_all b'/' "~1" (replace_all b'~' "~0" s))))

escape-slash :
    (s : String) → json_pointer_escape (String.◌∷◌ slash s) ≡ "~1" <> json_pointer_escape s
unfolding json_pointer_escape replace_all
escape-slash s = refl

escape-plain :
    (c : Char) (s : String)
    → eqb (code c) b'~' ≡ false
    → eqb (code c) b'/' ≡ false
    → json_pointer_escape (String.◌∷◌ c s) ≡ String.◌∷◌ c (json_pointer_escape s)
unfolding json_pointer_escape replace_all
escape-plain c s h k = rw (h, k)

unescape-plain :
    (c : Char) (s : String)
    → eqb (code c) b'~' ≡ false
    → json_pointer_unescape (String.◌∷◌ c s) ≡ String.◌∷◌ c (json_pointer_unescape s)
unfolding json_pointer_unescape
unescape-plain c String.[] h = refl
unescape-plain c (String.◌∷◌ d s) h = rw h

-- Reading the escaped form of a key gives the key.
pub json_pointer_round_trip : (s : String) → json_pointer_unescape (json_pointer_escape s) ≡ s
unfolding json_pointer_unescape
json_pointer_round_trip String.[] = unfold json_pointer_escape replace_all in refl
json_pointer_round_trip (String.◌∷◌ c s) = elim (Bool-cases (eqb (code c) b'~')) [
  | inl t ↦
      let is_tilde : c ≡ tilde = Char-path c tilde ((eqb_iff (code c) b'~').0 t) in
      rw
        (
          is_tilde,
          escape-tilde s,
          two-append tilde (nth_char (chars "0") 0) (json_pointer_escape s),
        )
        (ap (String.◌∷◌ tilde) (json_pointer_round_trip s))
  | inr t ↦ elim (Bool-cases (eqb (code c) b'/')) [
    | inl l ↦
        let is_slash : c ≡ slash = Char-path c slash ((eqb_iff (code c) b'/').0 l) in
        rw
          (
            is_slash,
            escape-slash s,
            two-append tilde (nth_char (chars "1") 0) (json_pointer_escape s),
          )
          (ap (String.◌∷◌ slash) (json_pointer_round_trip s))
    | inr l ↦
        rw (escape-plain c s t l, unescape-plain c (json_pointer_escape s) t)
          (ap (String.◌∷◌ c) (json_pointer_round_trip s))
  ]
]
