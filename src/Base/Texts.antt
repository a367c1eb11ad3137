-- ===== src/Base/Texts.antt =====
-- Go strings as native texts: suffixes, the decimal and quoted forms of fmt, and their characters.
pub mod Compare
pub mod Order
pub mod Suffix
use Prim.Native.Char.{Char, code, nul}
use Prim.Native.String
use Prim.Native.String.{String}
use Prim.Native.Nat.{ℕ, zero, suc, ◌+◌, ◌*◌, ◌/◌, ◌%◌, ◌<◌, ◌≤◌}
use mathlib.Core.Path.{◌≡◌, refl, ap}
use mathlib.Core.Bool.{Bool, true, false, ◌||◌}
use mathlib.Core.Logic.{◌⊎◌, inl, inr}
use mathlib.Core.Option.{Option, none, some}
use mathlib.Core.List.{List, [], ◌∷◌, ◌++◌, map}
use native.Mathlib.Omega.{arith}
use text.Mathlib.Text.{◌==◌}
use k8s_container_service_pr.Base.Tests.{if◌then◌else◌, ltb, eqb, Bool-cases, ltb→lt}
use k8s_container_service_pr.Base.Lists.{All}

infixr 65 ◌<>◌
-- Concatenation of texts; `++` is that of lists.
abbrev pub ◌<>◌ : String → String → String
s <> t = String.◌++◌ s t

abbrev pub chars : String → List Char
chars String.[] = []
chars (String.◌∷◌ c s) = c ∷ chars s

abbrev pub of_chars : List Char → String
of_chars [] = ""
of_chars (c ∷ s) = String.◌∷◌ c (of_chars s)

pub chars-of_chars : (s : List Char) → chars (of_chars s) ≡ s
chars-of_chars [] = refl
chars-of_chars (c ∷ s) = ap (λ l. c ∷ l) (chars-of_chars s)

abbrev pub is_nil : String → Bool
is_nil String.[] = true
is_nil (String.◌∷◌ c s) = false

-- The character at a place of a table, and U+0000 past its end.
abbrev pub nth_char : List Char → ℕ → Char
nth_char [] i = nul
nth_char (c ∷ cs) zero = c
nth_char (c ∷ cs) (suc i) = nth_char cs i

-- The decimal digits of a number in front of others; the fuel is one more than the number.
decimal : ℕ → ℕ → List ℕ → List ℕ
decimal zero n ds = ds
decimal (suc fuel) n ds =
    let more = decimal fuel (n / 10) ((n % 10) ∷ ds) in if ltb n 10 then n ∷ ds else more

-- strconv.Itoa on a number that is not negative, as digits.
unfoldable pub digits : ℕ → List ℕ
unfolding decimal
digits n = decimal (suc n) n []

unfoldable pub itoa : ℕ → String
unfolding digits
itoa n = of_chars (map (nth_char (chars "0123456789")) (digits n))

-- The value of digits that follow a number read so far.
abbrev pub value_after : ℕ → List ℕ → ℕ
value_after n [] = n
value_after n (d ∷ ds) = value_after (n * 10 + d) ds

value_after-decimal :
    (fuel n : ℕ) (ds : List ℕ) → n < fuel → value_after 0 (decimal fuel n ds) ≡ value_after n ds
unfolding decimal
value_after-decimal zero n ds h = elim h [ ]
value_after-decimal (suc fuel) n ds h = elim (Bool-cases (ltb n 10)) [
  | inl small ↦ rw small (ap (λ k. value_after k ds) (omega_zero n))
  | inr large ↦
      rw (large, value_after-decimal fuel (n / 10) ((n % 10) ∷ ds) (ground arith))
        (ap (λ k. value_after k ds) (regroup n))
]
  where
    omega_zero : (k : ℕ) → 0 * 10 + k ≡ k
    omega_zero k = omega arith

    regroup : (k : ℕ) → k / 10 * 10 + k % 10 ≡ k
    regroup k = omega arith

-- The digits of a number have its value.
pub value_after-digits : (n : ℕ) → value_after 0 (digits n) ≡ n
unfolding digits
value_after-digits n = value_after-decimal (suc n) n [] (omega arith)

IsDigits-decimal :
    (fuel n : ℕ) (ds : List ℕ) → All (λ d. d < 10) ds → All (λ d. d < 10) (decimal fuel n ds)
unfolding decimal
IsDigits-decimal zero n ds h = h
IsDigits-decimal (suc fuel) n ds h = elim (Bool-cases (ltb n 10)) [
  | inl small ↦ rw small (ltb→lt n 10 small, h)
  | inr large ↦
      rw large (
        IsDigits-decimal fuel (n / 10) ((n % 10) ∷ ds)
          ((let e : n % 10 < 10 = omega arith in e), h))
]

pub All-digits_lt : (n : ℕ) → All (λ d. d < 10) (digits n)
unfolding digits
All-digits_lt n = IsDigits-decimal (suc n) n [] tt

decimal-ne-nil :
    (fuel n d : ℕ) (ds : List ℕ) → (x : ℕ) × (xs : List ℕ) × (decimal fuel n (d ∷ ds) ≡ x ∷ xs)
unfolding decimal
decimal-ne-nil zero n d ds = (d, ds, refl)
decimal-ne-nil (suc fuel) n d ds = elim (Bool-cases (ltb n 10)) [
  | inl small ↦ (n, d ∷ ds, rw small)
  | inr large ↦ let r = decimal-ne-nil fuel (n / 10) (n % 10) (d ∷ ds) in (r.0, r.1, rw large r.2)
]

-- A number has a first digit.
pub digits-cons : (n : ℕ) → (x : ℕ) × (xs : List ℕ) × (digits n ≡ x ∷ xs)
unfolding digits decimal
digits-cons n = elim (Bool-cases (ltb n 10)) [
  | inl small ↦ (n, [], rw small)
  | inr large ↦ let r = decimal-ne-nil n (n / 10) (n % 10) [] in (r.0, r.1, rw large r.2)
]

-- The letters of a text in a Go string literal: `strconv.Quote`, for texts whose characters from
-- U+0080 on are printable.
escape : Char → String
escape c =
    let n = code c in
    if eqb n 34
    then "\\\""
    else if eqb n 92
    then "\\\\"
    else if eqb n 7
    then "\\a"
    else if eqb n 8
    then "\\b"
    else if eqb n 12
    then "\\f"
    else if eqb n 10
    then "\\n"
    else if eqb n 13
    then "\\r"
    else if eqb n 9
    then "\\t"
    else if eqb n 11
    then "\\v"
    else if ltb n 32 || eqb n 127
    then "\\x" <> of_chars (nth_char hex (n / 16) ∷ nth_char hex (n % 16) ∷ [])
    else of_chars (c ∷ [])
  where
    hex : List Char
    hex = chars "0123456789abcdef"

escape_all : List Char → String
escape_all [] = ""
escape_all (c ∷ s) = escape c <> escape_all s

-- The verb %q of fmt.
unfoldable pub quote : String → String
unfolding escape escape_all
quote s = "\"" <> escape_all (chars s) <> "\""

quote_test : quote "a\"b" ≡ "\"a\\\"b\""
unfolding quote
quote_test = refl

itoa_test : itoa 1050 ≡ "1050"
unfolding itoa
itoa_test = refl
