-- ===== src/Kubernetes/Paging/Pages.antt =====
-- A client that follows the page tokens of List over a cluster that does not change.
use k8s_container_service_pr.Base.{
  ℕ, zero, suc, ◌+◌, ◌-◌, ◌<◌, ◌≤◌, ◌≡◌, refl, ap, String, false, Option, none, some, List, [], ◌∷◌,
  ◌++◌, arith, length, take, drop, min, ltb, ltb→lt, ok, err, Bool-cases, inl, inr,
  take-append-drop, drop-drop, length-drop,
}
use k8s_container_service_pr.Kubernetes.Paging.{
  decode_page_token, encode_page_token, page_of, next_token,
}
use k8s_container_service_pr.Kubernetes.Paging.Tokens.{decode-encode_page_token}

abbrev prepend : {A : Type 0} → List A → Option (List A) → Option (List A)
prepend page none = none
prepend page (some rest) = some (page ++ rest)

-- All pages from a token on, one call of List for each unit of fuel.
pub follow : {A : Type 0} → ℕ → ℕ → String → List A → Option (List A)
follow zero size token xs = none
follow (suc fuel) size token xs = elim (decode_page_token {E = ⊥} token) [
  | err e ↦ none
  | ok offset ↦ elim (next_token offset size (length xs)) [
    | none ↦ some (page_of offset size xs)
    | some next ↦ prepend (page_of offset size xs) (follow fuel size next xs)
  ]
]

take_all : {A : Type 0} (n : ℕ) (xs : List A) → length xs ≤ n → take n xs ≡ xs
take_all zero [] h = refl
take_all zero (x ∷ xs) h = absurd (omega arith)
take_all (suc n) [] h = refl
take_all (suc n) (x ∷ xs) h = ap (λ l. x ∷ l) (take_all n xs (omega arith))

page_last :
    {A : Type 0} (o size : ℕ) (xs : List A)
    → o ≤ length xs
    → ltb (min o (length xs) + min size (length xs - min o (length xs))) (length xs) ≡ false
    → page_of o size xs ≡ drop o xs
unfolding page_of
page_last o size xs h e = take_all size (drop o xs) (rw (length-drop o xs) (ground arith))

page_more :
    {A : Type 0} (o size : ℕ) (xs : List A) → page_of o size xs ++ drop (o + size) xs ≡ drop o xs
unfolding page_of
page_more o size xs = rw (← drop-drop o size xs) (take-append-drop size (drop o xs))

follow_from :
    {A : Type 0} (fuel size o : ℕ) (token : String) (xs : List A)
    → decode_page_token {E = ⊥} token ≡ ok o
    → 0 < size
    → o ≤ length xs
    → length xs < fuel + o
    → length xs < 9223372036854775808
    → follow fuel size token xs ≡ some (drop o xs)
unfolding follow next_token
follow_from zero size o token xs d s h f b = absurd (omega arith)
follow_from (suc fuel) size o token xs d s h f b =
    elim (Bool-cases
      (ltb (min o (length xs) + min size (length xs - min o (length xs))) (length xs))) [
        | inl more ↦
            let m = ltb→lt _ _ more in
            let next : min o (length xs) + min size (length xs - min o (length xs)) ≡ o + size =
              omega arith in
            let rest =
              follow_from fuel size (o + size) (encode_page_token (o + size)) xs
                (decode-encode_page_token (o + size) (omega arith)) s (omega arith) (omega arith)
                b in
            rw (follow, d, more, next, rest) (ap some (page_more o size xs))
        | inr last ↦ rw (follow, d, last) (ap some (page_last o size xs h last))
      ]

-- Following the tokens from the first page gives every element once and in order, for every page
-- size above 0 and every list of less than 2^63 elements, after at most one call more than there are
-- elements.
pub follow_all :
    {A : Type 0} (size : ℕ) (xs : List A)
    → 0 < size
    → length xs < 9223372036854775808
    → follow (suc (length xs)) size "" xs ≡ some xs
follow_all size xs s b =
    follow_from (suc (length xs)) size 0 "" xs first_page s (omega arith) (omega arith) b
  where
    first_page : decode_page_token {E = ⊥} "" ≡ ok 0
    first_page = unfold decode_page_token in refl
