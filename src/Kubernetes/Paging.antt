-- ===== src/Kubernetes/Paging.antt =====
-- internal/kubernetes/store_list.go: List, its order and its page tokens.
pub mod Tokens
pub mod Listing
pub mod Answer
pub mod Pages
pub mod Reads
pub mod Order
pub mod Sorted
use Prim.Native.String.{compare}
use k8s_container_service_pr.Base.{
  ℕ, zero, suc, ◌+◌, ◌-◌, String, Bool, true, false, Option, none, some, List, [], ◌∷◌,
  if◌then◌else◌, ◌==◌, ltb, min, length, take, drop, lookup, or_empty, itoa, Result, ok, err,
  Ordering,
}
use k8s_container_service_pr.Base.Int.{ℤ, pos, negsuc}
use k8s_container_service_pr.Base.Exec.{Exec, pure, raise, ◌>>=◌, catch}
use k8s_container_service_pr.Encoding.Decimal.{atoi, bytes}
use k8s_container_service_pr.Encoding.Base64.{encode, decode}
use k8s_container_service_pr.Api.{Container, ContainerList}
use k8s_container_service_pr.Dcm
use k8s_container_service_pr.Dcm.{LabelLib}
use k8s_container_service_pr.Units.{QuantityLib}
use k8s_container_service_pr.Kube.{Deployment, Client, request}
use k8s_container_service_pr.Kubernetes.Convert.{K8sConfig}
use k8s_container_service_pr.Kubernetes.Store.{
  StoreError, invalid_argument_error, client_error, build_container,
}

abbrev default_page_size : ℕ
default_page_size = 50

-- maxPageSize, an int32, with its default.
unfoldable pub page_size : ℤ → ℕ
page_size (pos zero) = default_page_size
page_size (pos (suc n)) = suc n
page_size (negsuc n) = default_page_size

abbrev pub invalid_page_token : {E : Type 0} → StoreError E
invalid_page_token = invalid_argument_error "invalid page_token"

abbrev checked_offset : {E : Type 0} → Option ℤ → Result (StoreError E) ℕ
checked_offset none = err invalid_page_token
checked_offset (some (negsuc n)) = err invalid_page_token
checked_offset (some (pos n)) = ok n

abbrev decoded_offset : {E : Type 0} → Option (List ℕ) → Result (StoreError E) ℕ
decoded_offset none = err invalid_page_token
decoded_offset (some bs) = checked_offset (atoi bs)

-- decodePageToken
unfoldable pub decode_page_token : {E : Type 0} → String → Result (StoreError E) ℕ
decode_page_token token = if token == "" then ok 0 else decoded_offset (decode token)

-- The token of the page that begins at an offset.
unfoldable pub encode_page_token : ℕ → String
encode_page_token offset = encode (bytes (itoa offset))

abbrev pub name_lt : {Q : Type 0} → Deployment Q → Deployment Q → Bool
name_lt a b = elim (compare a.name b.name) [
  | Ordering.lt ↦ true
  | Ordering.eq ↦ false
  | Ordering.gt ↦ false
]

unfoldable pub insert_by_name :
    {Q : Type 0} → Deployment Q → List (Deployment Q) → List (Deployment Q)
insert_by_name d [] = d ∷ []
insert_by_name d (e ∷ es) =
    let rest = insert_by_name d es in if name_lt e d then e ∷ rest else d ∷ e ∷ es

-- sort.Slice by name. Names are distinct in a namespace, so every sort gives this order.
unfoldable pub sort_by_name : {Q : Type 0} → List (Deployment Q) → List (Deployment Q)
unfolding insert_by_name
sort_by_name [] = []
sort_by_name (d ∷ ds) = insert_by_name d (sort_by_name ds)

-- The page of a sorted list: the offset and the size are cut at its ends.
unfoldable pub page_of : {A : Type 0} → ℕ → ℕ → List A → List A
page_of offset size xs = take size (drop offset xs)

-- The token of the next page: `none` after the last one.
unfoldable pub next_token : ℕ → ℕ → ℕ → Option String
next_token offset size total =
    let start = min offset total in
    let limit = min size (total - start) in
    if ltb (start + limit) total then some (encode_page_token (start + limit)) else none

module _ {W E Q : Type 0} (client : Client W E Q) (quantities : QuantityLib Q)
    (labels_lib : LabelLib) (cfg : K8sConfig) where
  -- The loop over the page.
  unfoldable pub build_containers : List (Deployment Q) → Exec W (StoreError E) (List Container)
  build_containers [] = pure []
  build_containers (deploy ∷ deploys) = do
    c ←
        build_container client quantities labels_lib cfg deploy
          (or_empty (lookup Dcm.label_instance_id deploy.labels))
    cs ← build_containers deploys
    pure (c ∷ cs)

  -- List once the token is read.
  unfoldable pub list_from : ℕ → ℕ → Exec W (StoreError E) ContainerList
  unfolding build_containers page_of next_token
  list_from size offset = do
    deploys ←
        catch (client.list_deployments request cfg.namespace (Dcm.selector labels_lib))
          (λ e. raise (client_error e))
    let sorted = sort_by_name deploys
    containers ← build_containers (page_of offset size sorted)
    pure (record {
      containers = some containers;
      next_page_token = next_token offset size (length sorted);
    })

  -- List
  unfoldable pub list : ℤ → String → Exec W (StoreError E) ContainerList
  unfolding page_size decode_page_token list_from
  list max_page_size page_token = elim (decode_page_token page_token) [
    | err e ↦ raise e
    | ok offset ↦ list_from (page_size max_page_size) offset
  ]
