-- ===== src/Kubernetes/Paging/Answer.antt =====
-- What List of internal/kubernetes/store_list.go answers, told without its own helpers.
use k8s_container_service_pr.Base.{
  ℕ, zero, suc, ◌+◌, ◌-◌, ◌<◌, ◌≤◌, ◌≡◌, ◌≢◌, refl, sym, ap, ◌∙◌, String, Option, none, some, List,
  [], ◌∷◌, ◌++◌, length, min, take, drop, take-append-drop, length-take, length-drop, ltb, ltb→lt,
  inl, inr, Bool-cases, false, ok, arith,
}
use mathlib.Core.Path.{subst}
use mathlib.Core.List.{Permᴰ}
use k8s_container_service_pr.Base.Int.{ℤ, pos, negsuc}
use k8s_container_service_pr.Api.{ContainerList, Container}
use k8s_container_service_pr.Dcm
use k8s_container_service_pr.Dcm.{LabelLib}
use k8s_container_service_pr.Units.{QuantityLib}
use k8s_container_service_pr.Kube.{Deployment, Client, request}
use k8s_container_service_pr.Kube.Distinct.{Distinct}
use k8s_container_service_pr.Kubernetes.Convert.{K8sConfig}
use k8s_container_service_pr.Kubernetes.Paging.{
  decode_page_token, page_size, page_of, next_token, encode_page_token, sort_by_name, list,
}
use k8s_container_service_pr.Kubernetes.Paging.Listing.{Listed, list-page, length-sort_by_name}
use k8s_container_service_pr.Kubernetes.Paging.Order.{Ordered, sort-Ordered, sort-Perm}
use k8s_container_service_pr.Kubernetes.Paging.Tokens.{decode-encode_page_token}

-- A page size that is asked for is taken if it is above 0, and is 50 else.
abbrev pub IsPageSize : ℤ → ℕ → Type 0
IsPageSize (pos zero) size = size ≡ 50
IsPageSize (pos (suc n)) size = size ≡ suc n
IsPageSize (negsuc n) size = size ≡ 50

-- The token after a page: none where nothing is left, and else one that says how much there was.
abbrev pub IsToken : {A : Type 0} → (E : Type 0) → Option String → ℕ → List A → Type 0
IsToken E none seen left = left ≡ []
IsToken E (some token) seen left = (left ≢ []) × (decode_page_token {E = E} token ≡ ok seen)

page_size-IsPageSize : (n : ℤ) → IsPageSize n (page_size n)
unfolding page_size
page_size-IsPageSize (pos zero) = refl
page_size-IsPageSize (pos (suc n)) = refl
page_size-IsPageSize (negsuc n) = refl

nil-length : {A : Type 0} (xs : List A) → length xs ≡ 0 → xs ≡ []
nil-length [] h = refl
nil-length (x ∷ xs) h = absurd (omega (arith, h))

not_nil : {A : Type 0} (xs : List A) → 0 < length xs → xs ≢ []
not_nil xs h e = absurd (omega (arith, h, ap length e))

not_ltb : (a b : ℕ) → ltb a b ≡ false → b ≤ a
not_ltb a b h = ground arith

next_token-IsToken :
    {A : Type 0} (E : Type 0) (offset size seen : ℕ) (xs : List A)
    → seen ≡ min offset (length xs) + min size (length xs - offset)
    → length xs < 9223372036854775808
    → IsToken E (next_token offset size (length xs)) seen (drop size (drop offset xs))
unfolding next_token
next_token-IsToken E offset size seen xs all small = elim (Bool-cases (ltb start (length xs))) [
  | inl more ↦ rw more (
    not_nil (drop size (drop offset xs)) (omega (arith, ltb→lt start (length xs) more, left)),
    subst (λ n. decode_page_token {E = E} (encode_page_token start) ≡ ok n)
        (let e : start ≡ seen = omega (arith, all) in e)
        (decode-encode_page_token start (omega (arith, small, ltb→lt start (length xs) more))),
  )
  | inr done ↦ rw done (
      nil-length (drop size (drop offset xs)) (omega (arith, not_ltb start (length xs) done, left)))
]
  where
    start : ℕ
    start = min offset (length xs) + min size (length xs - min offset (length xs))

    left : length (drop size (drop offset xs)) ≡ length xs - offset - size
    left = length-drop size (drop offset xs) ∙ ap (λ n. n - size) (length-drop offset xs)

module _ {W E Q : Type 0} (client : Client W E Q) (quantities : QuantityLib Q)
    (labels_lib : LabelLib) (cfg : K8sConfig) where
  -- The containers of a page of the deployments, and the token of the next page.
  abbrev pub IsPage : ℤ → ℕ → List (Deployment Q) → ContainerList → Type 0
  IsPage max_page_size offset ds l =
      (size : ℕ) × IsPageSize max_page_size size
      × ((before page after : List (Deployment Q)) × Permᴰ (before ++ (page ++ after)) ds
          × Ordered (before ++ (page ++ after))
          × (length before ≡ min offset (length ds))
          × (length page ≡ min size (length ds - offset))
          × ((cs : List Container) × (l.containers ≡ some cs)
              × Listed client quantities labels_lib cfg page cs)
          × IsToken E l.next_page_token (length before + length page) after)

  -- A successful List from an offset, over less than 2^63 deployments with distinct names: in the one
  -- order of the deployments by their names, as many are passed over as the offset says, and as many
  -- are shown as the page size that is asked for, or 50, allows and are left. The token is none where
  -- nothing is left, and else it is read as the offset of the next page.
  pub list-IsPage :
      (max_page_size : ℤ) (page_token : String) (w : W) (offset : ℕ) (ds : List (Deployment Q))
      (l : ContainerList)
      → decode_page_token {E = E} page_token ≡ ok offset
      → (client.list_deployments request cfg.namespace (Dcm.selector labels_lib) w).0 ≡ ok ds
      → Distinct ds
      → length ds < 9223372036854775808
      → (list client quantities labels_lib cfg max_page_size page_token w).0 ≡ ok l
      → IsPage max_page_size offset ds l
  unfolding page_of
  list-IsPage max_page_size page_token w offset ds l token listed distinct small h =
      let (cs, shown, each, count, next) =
        list-page client quantities labels_lib cfg max_page_size page_token w offset ds l token
          listed h in
      let size = page_size max_page_size in
      let sorted = sort_by_name ds in
      let whole : take offset sorted
            ++ (take size (drop offset sorted) ++ drop size (drop offset sorted))
          ≡ sorted =
        ap (λ t. take offset sorted ++ t) (take-append-drop size (drop offset sorted))
        ∙ take-append-drop offset sorted in
      let total = length-sort_by_name ds in
      let passed : length (take offset sorted) ≡ min offset (length ds) =
        length-take offset sorted ∙ ap (min offset) total in
      let page : length (take size (drop offset sorted)) ≡ min size (length ds - offset) =
        length-take size (drop offset sorted)
        ∙ ap (min size) (length-drop offset sorted ∙ ap (λ n. n - offset) total) in
      (
        size,
        page_size-IsPageSize max_page_size,
        (
          take offset sorted,
          take size (drop offset sorted),
          drop size (drop offset sorted),
          subst (λ xs. Permᴰ xs ds) (sym whole) (sort-Perm ds),
          subst Ordered (sym whole) (sort-Ordered ds distinct),
          passed,
          page,
          (cs, shown, each),
          subst
              (λ t.
                IsToken E t (length (take offset sorted) + length (take size (drop offset sorted)))
                  (drop size (drop offset sorted)))
              (ap (next_token offset size) total ∙ sym next)
              (next_token-IsToken E offset size _ sorted
                (ap (λ n. n + length (take size (drop offset sorted))) (length-take offset sorted)
                  ∙ ap (λ n. min offset (length sorted) + n)
                      (length-take size (drop offset sorted)
                        ∙ ap (min size) (length-drop offset sorted)))
                (subst (λ n. n < 9223372036854775808) (sym total) small)),
        ),
      )
