-- ===== src/Encoding/Base64/RoundTrip.antt =====
-- What is encoded in base64 is decoded again.
use k8s_container_service_pr.Base.{
  ℕ, zero, suc, not, none, ◌+◌, ◌*◌, ◌/◌, ◌%◌, ◌<◌, ◌≡◌, refl, ap, Bool, true, false, ◌&&◌, ◌||◌,
  Option, some, List, [], ◌∷◌, arith, eqb, All, chars-of_chars,
}
use mathlib.Core.Path.{subst, ◌∙◌}
use Prim.Native.Char.{Char, code}
use k8s_container_service_pr.Encoding.Base64.{
  pad, letter, encode_chars, encode, sextet, is_pad, last_group, decode_chars, without_line_ends,
  decode,
}

-- A test that every sextet passes, counted down from a bound.
every_sextet : (ℕ → Bool) → ℕ → Bool
every_sextet test zero = true
every_sextet test (suc left) = every_sextet test left && test left

every_sextet-passes :
    (test : ℕ → Bool) (left i : ℕ) → i < left → every_sextet test left ≡ true → test i ≡ true
unfolding every_sextet
every_sextet-passes test zero i small passed = absurd (omega arith)
every_sextet-passes test (suc left) i small passed = ground (arith, every_sextet-passes test left i)

is_data : Char → Bool
is_data c = not (eqb (code c) 61) && not (eqb (code c) 10) && not (eqb (code c) 13)

same : Option ℕ → ℕ → Bool
same none i = false
same (some j) i = eqb j i

same→eq : (o : Option ℕ) (i : ℕ) → same o i ≡ true → o ≡ some i
unfolding same
same→eq o i h = ground arith

and_left : (a b : Bool) → (a && b) ≡ true → a ≡ true
and_left a b h = ground arith

and_right : (a b : Bool) → (a && b) ≡ true → b ≡ true
and_right a b h = ground arith

sextet-letter_table : every_sextet (λ i. same (sextet (letter i)) i && is_data (letter i)) 64 ≡ true
unfolding every_sextet same sextet letter is_data
sextet-letter_table = refl

letter_both : (i : ℕ) → i < 64 → (same (sextet (letter i)) i && is_data (letter i)) ≡ true
letter_both i h =
    every_sextet-passes (λ j. same (sextet (letter j)) j && is_data (letter j)) 64 i h
      sextet-letter_table

sextet-letter : (i : ℕ) → i < 64 → sextet (letter i) ≡ some i
sextet-letter i h = same→eq (sextet (letter i)) i (and_left _ _ (letter_both i h))

is_data-letter : (i : ℕ) → i < 64 → is_data (letter i) ≡ true
is_data-letter i h = and_right _ _ (letter_both i h)

abbrev IsByte : ℕ → Type 0
IsByte b = b < 256

IsData : Char → Type 0
IsData c = (eqb (code c) 10 || eqb (code c) 13) ≡ false

IsData-letter : (i : ℕ) → i < 64 → IsData (letter i)
unfolding IsData is_data
IsData-letter i h = ground (arith, is_data-letter i h)

is_pad-letter : (i : ℕ) → i < 64 → is_pad (letter i) ≡ false
unfolding is_data
is_pad-letter i h = ground (arith, is_data-letter i h)

IsData-pad : IsData pad
unfolding IsData
IsData-pad = refl

All-IsData-encode_chars : (bs : List ℕ) → All IsByte bs → All IsData (encode_chars bs)
unfolding encode_chars
All-IsData-encode_chars [] h = tt
All-IsData-encode_chars (a ∷ []) h =
    (IsData-letter _ (omega arith), (IsData-letter _ (omega arith), (IsData-pad, (IsData-pad, tt))))
All-IsData-encode_chars (a ∷ b ∷ []) h = (
  IsData-letter _ (omega arith),
  (IsData-letter _ (omega arith), (IsData-letter _ (omega arith), (IsData-pad, tt))),
)
All-IsData-encode_chars (a ∷ b ∷ c ∷ rest) h = (
  IsData-letter _ (omega arith),
  (
    IsData-letter _ (omega arith),
    (
      IsData-letter _ (omega arith),
      (IsData-letter _ (omega arith), All-IsData-encode_chars rest h.1.1.1),
    ),
  ),
)

without_line_ends-data : (s : List Char) → All IsData s → without_line_ends s ≡ s
unfolding without_line_ends IsData
without_line_ends-data [] h = refl
without_line_ends-data (c ∷ s) h = rw (h.0, without_line_ends-data s h.1)

encode_chars-cons :
    (d : ℕ) (rest : List ℕ) → (v : Char) × (more : List Char) × (encode_chars (d ∷ rest) ≡ v ∷ more)
unfolding encode_chars
encode_chars-cons d [] = (_, _, refl)
encode_chars-cons d (b ∷ []) = (_, _, refl)
encode_chars-cons d (b ∷ c ∷ rest) = (_, _, refl)

decode_chars-group :
    (p q r s : ℕ) (v : Char) (more : List Char) (bs : List ℕ)
    → p < 64
    → q < 64
    → r < 64
    → s < 64
    → decode_chars (v ∷ more) ≡ some bs
    → decode_chars (letter p ∷ letter q ∷ letter r ∷ letter s ∷ v ∷ more)
      ≡ some ((p * 4 + q / 16) ∷ (q % 16 * 16 + r / 4) ∷ (r % 4 * 64 + s) ∷ bs)
unfolding decode_chars
decode_chars-group p q r s v more bs hp hq hr hs e =
    rw (sextet-letter p hp, sextet-letter q hq, sextet-letter r hr, sextet-letter s hs, e)

first_byte : (a b : ℕ) → b < 256 → a / 4 * 4 + (a % 4 * 16 + b / 16) / 16 ≡ a
first_byte a b hb = omega arith

second_byte :
    (a b c : ℕ)
    → b < 256
    → c < 256
    → (a % 4 * 16 + b / 16) % 16 * 16 + (b % 16 * 4 + c / 64) / 4 ≡ b
second_byte a b c hb hc = omega arith

third_byte : (b c : ℕ) → c < 256 → (b % 16 * 4 + c / 64) % 4 * 64 + c % 64 ≡ c
third_byte b c hc = omega arith

last_second : (a b : ℕ) → b < 256 → (a % 4 * 16 + b / 16) % 16 * 16 + b % 16 * 4 / 4 ≡ b
last_second a b hb = omega arith

bytes_of_sextets :
    (a b c : ℕ) (rest : List ℕ)
    → b < 256
    → c < 256
    → ◌≡◌ {A = Option (List ℕ)}
        (some (
          (a / 4 * 4 + (a % 4 * 16 + b / 16) / 16)
          ∷ ((a % 4 * 16 + b / 16) % 16 * 16 + (b % 16 * 4 + c / 64) / 4)
          ∷ ((b % 16 * 4 + c / 64) % 4 * 64 + c % 64)
          ∷ rest))
        (some (a ∷ b ∷ c ∷ rest))
bytes_of_sextets a b c rest hb hc =
    rw (first_byte a b hb, second_byte a b c hb hc, third_byte b c hc)

decode-encode_chars : (bs : List ℕ) → All IsByte bs → decode_chars (encode_chars bs) ≡ some bs
unfolding encode_chars decode_chars last_group
decode-encode_chars [] h = refl
decode-encode_chars (a ∷ []) h =
    rw (sextet-letter (a / 4) (omega arith), sextet-letter (a % 4 * 16) (omega arith))
      (ap (λ k. some (k ∷ [])) (let e : a / 4 * 4 + a % 4 * 16 / 16 ≡ a = omega arith in e))
decode-encode_chars (a ∷ b ∷ []) h =
    rw
      (
        is_pad-letter (b % 16 * 4) (omega arith),
        sextet-letter (a / 4) (omega arith),
        sextet-letter (a % 4 * 16 + b / 16) (omega arith),
        sextet-letter (b % 16 * 4) (omega arith),
      )
      (rw (first_byte a b h.1.0, last_second a b h.1.0))
decode-encode_chars (a ∷ b ∷ c ∷ []) h =
    rw
      (
        is_pad-letter (b % 16 * 4 + c / 64) (omega arith),
        is_pad-letter (c % 64) (omega arith),
        sextet-letter (a / 4) (omega arith),
        sextet-letter (a % 4 * 16 + b / 16) (omega arith),
        sextet-letter (b % 16 * 4 + c / 64) (omega arith),
        sextet-letter (c % 64) (omega arith),
      )
      (bytes_of_sextets a b c [] h.1.0 h.1.1.0)
decode-encode_chars (a ∷ b ∷ c ∷ d ∷ rest) h =
    let (v, more, e) = encode_chars-cons d rest in
    let ih = decode-encode_chars (d ∷ rest) h.1.1.1 in
    rw e (
      decode_chars-group (a / 4) (a % 4 * 16 + b / 16) (b % 16 * 4 + c / 64) (c % 64) v more
        (d ∷ rest) (omega arith) (omega arith) (omega arith) (omega arith)
        (subst (λ l. decode_chars l ≡ some (d ∷ rest)) e ih)
      ∙ bytes_of_sextets a b c (d ∷ rest) h.1.0 h.1.1.0)

-- Decoding an encoded byte slice gives the bytes back.
pub decode-encode : (bs : List ℕ) → All IsByte bs → decode (encode bs) ≡ some bs
unfolding decode encode
decode-encode bs h =
    rw
      (
        chars-of_chars (encode_chars bs),
        without_line_ends-data (encode_chars bs) (All-IsData-encode_chars bs h),
      )
      (decode-encode_chars bs h)
