-- ===== src/Kubernetes/Paging/Tokens.antt =====
-- The page tokens of internal/kubernetes/store_list.go: what is encoded is read back, and what is no
-- token is refused.
use k8s_container_service_pr.Base.{
  ℕ, ◌+◌, ◌<◌, ◌≡◌, ◌≢◌, refl, ap, false, some, List, [], ◌∷◌, map, All, arith, ◌==◌, eq_iff,
  digits, All-digits_lt, digits-cons, itoa, ok, Bool-cases, inl, inr,
}
use k8s_container_service_pr.Encoding.Decimal.{bytes, bytes-itoa, atoi-itoa}
use k8s_container_service_pr.Encoding.Base64.{decode}
use k8s_container_service_pr.Encoding.Base64.RoundTrip.{decode-encode}
use k8s_container_service_pr.Kubernetes.Paging.{decode_page_token, encode_page_token}

IsByte-digits : (ds : List ℕ) → All (λ d. d < 10) ds → All (λ b. b < 256) (map (λ d. d + 48) ds)
IsByte-digits [] h = tt
IsByte-digits (d ∷ ds) h = ((let e : d + 48 < 256 = omega arith in e), IsByte-digits ds h.1)

IsByte-itoa : (n : ℕ) → All (λ b. b < 256) (bytes (itoa n))
IsByte-itoa n = rw (bytes-itoa n) (IsByte-digits (digits n) (All-digits_lt n))

decode-token : (n : ℕ) → decode (encode_page_token n) ≡ some (bytes (itoa n))
unfolding encode_page_token
decode-token n = decode-encode (bytes (itoa n)) (IsByte-itoa n)

decode_empty : decode "" ≡ some []
unfolding decode
decode_empty = refl

bytes-itoa-ne-nil : (n : ℕ) → bytes (itoa n) ≢ []
bytes-itoa-ne-nil n h =
    let (d, ds, e) = digits-cons n in cc (h, bytes-itoa n, ap (map (λ k. k + 48)) e)

token_not_empty : (n : ℕ) → (encode_page_token n == "") ≡ false
token_not_empty n = elim (Bool-cases (encode_page_token n == "")) [
  | inl e ↦ absurd (
      bytes-itoa-ne-nil n
        (cc (decode-token n, decode_empty, ap decode ((eq_iff (encode_page_token n) "").0 e))))
  | inr e ↦ e
]

-- The offset of a token that List has given out is read back, for every 64-bit offset.
pub decode-encode_page_token :
    {E : Type 0} (n : ℕ)
    → n < 9223372036854775808
    → decode_page_token {E = E} (encode_page_token n) ≡ ok n
unfolding decode_page_token
decode-encode_page_token n h = rw (token_not_empty n, decode-token n, atoi-itoa n h)
