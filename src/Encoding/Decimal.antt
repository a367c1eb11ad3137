-- ===== src/Encoding/Decimal.antt =====
-- strconv.Atoi on the bytes of a text, and its round trip with strconv.Itoa.
use Prim.Native.Char.{code}
use k8s_container_service_pr.Base.{
  ℕ, zero, suc, ◌+◌, ◌-◌, ◌*◌, ◌<◌, ◌≡◌, refl, true, ◌&&◌, String, Option, none, some, List, [],
  ◌∷◌, map, arith, ltb, leb, eqb, if◌then◌else◌, chars, itoa, digits, value_after,
  value_after-digits, All, All-digits_lt, digits-cons, chars-of_chars, nth_char,
}
use mathlib.Core.Path.{subst}
use k8s_container_service_pr.Base.Int.{ℤ, pos, negsuc}

-- The bytes of a text of ASCII characters.
abbrev pub bytes : String → List ℕ
bytes s = map code (chars s)

-- The value of decimal digits, and `none` at any other byte.
parse_digits : ℕ → List ℕ → Option ℕ
parse_digits n [] = some n
parse_digits n (b ∷ bs) =
    let rest = parse_digits (n * 10 + (b - 48)) bs in if leb 48 b && leb b 57 then rest else none

abbrev positive : Option ℕ → Option ℤ
positive none = none
positive (some n) = if ltb n 9223372036854775808 then some (pos n) else none

abbrev negative : Option ℕ → Option ℤ
negative none = none
negative (some zero) = some (pos 0)
negative (some (suc n)) = if ltb n 9223372036854775808 then some (negsuc n) else none

-- The digits after an optional sign: at least one.
digits_value : List ℕ → Option ℕ
digits_value [] = none
digits_value (b ∷ bs) = parse_digits 0 (b ∷ bs)

-- strconv.Atoi: an optional sign, then digits, in the range of a 64-bit int.
unfoldable pub atoi : List ℕ → Option ℤ
unfolding digits_value parse_digits
atoi [] = none
atoi (b ∷ bs) =
    if eqb b 43
    then positive (digits_value bs)
    else if eqb b 45
    then negative (digits_value bs)
    else positive (digits_value (b ∷ bs))

digit_byte : (d : ℕ) → d < 10 → code (nth_char (chars "0123456789") d) ≡ d + 48
digit_byte zero h = refl
digit_byte (suc zero) h = refl
digit_byte (suc (suc zero)) h = refl
digit_byte (suc (suc (suc zero))) h = refl
digit_byte (suc (suc (suc (suc zero)))) h = refl
digit_byte (suc (suc (suc (suc (suc zero))))) h = refl
digit_byte (suc (suc (suc (suc (suc (suc zero)))))) h = refl
digit_byte (suc (suc (suc (suc (suc (suc (suc zero))))))) h = refl
digit_byte (suc (suc (suc (suc (suc (suc (suc (suc zero)))))))) h = refl
digit_byte (suc (suc (suc (suc (suc (suc (suc (suc (suc zero))))))))) h = refl
digit_byte (suc (suc (suc (suc (suc (suc (suc (suc (suc (suc n)))))))))) h = absurd (omega arith)

abbrev plus48 : ℕ → ℕ
plus48 d = d + 48

bytes_of_digits :
    (ds : List ℕ)
    → All (λ d. d < 10) ds
    → map code (map (nth_char (chars "0123456789")) ds) ≡ map plus48 ds
bytes_of_digits [] h = refl
bytes_of_digits (d ∷ ds) h = rw (digit_byte d h.0, bytes_of_digits ds h.1)

-- The bytes of a decimal text are its digits above b'0'.
pub bytes-itoa : (n : ℕ) → bytes (itoa n) ≡ map plus48 (digits n)
unfolding itoa
bytes-itoa n =
    rw (chars-of_chars (map (nth_char (chars "0123456789")) (digits n)))
      (bytes_of_digits (digits n) (All-digits_lt n))

is_digit : (d : ℕ) → d < 10 → (leb 48 (plus48 d) && leb (plus48 d) 57) ≡ true
is_digit d h = ground arith

parse_digits-plus48 :
    (n : ℕ) (ds : List ℕ)
    → All (λ d. d < 10) ds
    → parse_digits n (map plus48 ds) ≡ some (value_after n ds)
unfolding parse_digits
parse_digits-plus48 n [] h = refl
parse_digits-plus48 n (d ∷ ds) h =
    let small : d < 10 = h.0 in
    let e : plus48 d - 48 ≡ d = omega arith in
    rw (is_digit d small, e) (parse_digits-plus48 (n * 10 + d) ds h.1)

atoi_of_digits :
    (d : ℕ) (ds : List ℕ) (n : ℕ)
    → All (λ d. d < 10) (d ∷ ds)
    → value_after 0 (d ∷ ds) ≡ n
    → n < 9223372036854775808
    → atoi (map plus48 (d ∷ ds)) ≡ some (pos n)
unfolding atoi
atoi_of_digits d ds n h e lt = ground (arith, parse_digits-plus48 0 (d ∷ ds) h)

-- Reading back the decimal text of a 64-bit number gives the number.
pub atoi-itoa : (n : ℕ) → n < 9223372036854775808 → atoi (bytes (itoa n)) ≡ some (pos n)
atoi-itoa n lt =
    let (d, ds, e) = digits-cons n in
    rw (bytes-itoa n, e)
      (atoi_of_digits d ds n (subst (All (λ k. k < 10)) e (All-digits_lt n))
        (subst (λ l. value_after 0 l ≡ n) e (value_after-digits n)) lt)

atoi_tests : (atoi (bytes "-7") ≡ some (negsuc 6)) × (atoi (bytes "1_0") ≡ none) × (atoi [] ≡ none)
unfolding atoi
atoi_tests = (refl, refl, refl)
