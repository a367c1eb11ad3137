-- ===== src/Encoding/Base64.antt =====
-- encoding/base64.StdEncoding: three bytes to four letters, with padding.
pub mod RoundTrip
use k8s_container_service_pr.Base.{
  ℕ, zero, suc, ◌+◌, ◌-◌, ◌*◌, ◌/◌, ◌%◌, ◌<◌, ◌≡◌, refl, ap, Bool, true, false, not, ◌&&◌, ◌||◌,
  String, Option, none, some, List, [], ◌∷◌, arith, leb, eqb, if◌then◌else◌, chars, of_chars, All,
  chars-of_chars, nth_char,
}
use mathlib.Core.Path.{subst, ◌∙◌}
use Prim.Native.Char.{Char, code}

abbrev alphabet : List Char
alphabet = chars "ABCDEFGHIJKLMNOPQRSTUVWXYZabcdefghijklmnopqrstuvwxyz0123456789+/"

letter : ℕ → Char
letter i = nth_char alphabet i

abbrev pad : Char
pad = nth_char (chars "=") 0

encode_chars : List ℕ → List Char
encode_chars [] = []
encode_chars (a ∷ []) = letter (a / 4) ∷ letter (a % 4 * 16) ∷ pad ∷ pad ∷ []
encode_chars (a ∷ b ∷ []) =
    letter (a / 4) ∷ letter (a % 4 * 16 + b / 16) ∷ letter (b % 16 * 4) ∷ pad ∷ []
encode_chars (a ∷ b ∷ c ∷ rest) =
    letter (a / 4)
    ∷ letter (a % 4 * 16 + b / 16)
    ∷ letter (b % 16 * 4 + c / 64)
    ∷ letter (c % 64)
    ∷ encode_chars rest

-- base64.StdEncoding.EncodeToString
unfoldable pub encode : List ℕ → String
unfolding encode_chars letter
encode bs = of_chars (encode_chars bs)

-- The value of a letter, by the ranges of the alphabet.
sextet : Char → Option ℕ
sextet c =
    let n = code c in
    if leb 65 n && leb n 90
    then some (n - 65)
    else if leb 97 n && leb n 122
    then some (n - 71)
    else if leb 48 n && leb n 57
    then some (n + 4)
    else if eqb n 43
    then some 62
    else if eqb n 47
    then some 63
    else none

abbrev is_pad : Char → Bool
is_pad c = eqb (code c) 61

infixl 5 ◌>>=◌
abbrev ◌>>=◌ {ℓ κ} : {A : Type ℓ} {B : Type κ} → Option A → (A → Option B) → Option B
none >>= f = none
some a >>= f = f a

-- The last group of four, where padding may stand. The bits below the last byte are ignored, as in
-- the lenient mode of the library.
last_group : Char → Char → Char → Char → Option (List ℕ)
last_group w x y z =
    if is_pad y && is_pad z
    then (do p ← sextet w; q ← sextet x; some ((p * 4 + q / 16) ∷ []))
    else if is_pad z
    then (do
      p ← sextet w
      q ← sextet x
      r ← sextet y
      some ((p * 4 + q / 16) ∷ (q % 16 * 16 + r / 4) ∷ []))
    else do
      p ← sextet w
      q ← sextet x
      r ← sextet y
      s ← sextet z
      some ((p * 4 + q / 16) ∷ (q % 16 * 16 + r / 4) ∷ (r % 4 * 64 + s) ∷ [])

decode_chars : List Char → Option (List ℕ)
decode_chars [] = some []
decode_chars (w ∷ x ∷ y ∷ z ∷ []) = last_group w x y z
decode_chars (w ∷ x ∷ y ∷ z ∷ v ∷ more) = do
  p ← sextet w
  q ← sextet x
  r ← sextet y
  s ← sextet z
  rest ← decode_chars (v ∷ more)
  some ((p * 4 + q / 16) ∷ (q % 16 * 16 + r / 4) ∷ (r % 4 * 64 + s) ∷ rest)
decode_chars _ = none

-- Line ends are skipped wherever they stand.
without_line_ends : List Char → List Char
without_line_ends [] = []
without_line_ends (c ∷ s) =
    let rest = without_line_ends s in if eqb (code c) 10 || eqb (code c) 13 then rest else c ∷ rest

-- base64.StdEncoding.DecodeString
unfoldable pub decode : String → Option (List ℕ)
unfolding decode_chars last_group sextet without_line_ends
decode s = decode_chars (without_line_ends (chars s))

decode_tests :
    (encode (77 ∷ 97 ∷ []) ≡ "TWE=") × (decode "TWE=" ≡ some (77 ∷ 97 ∷ [])) × (decode "TWE" ≡ none)
unfolding encode decode
decode_tests = (refl, refl, refl)
