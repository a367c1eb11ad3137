-- ===== src/Server/Allowed.antt =====
-- What the contract of the store allows becomes what a client may see.
use k8s_container_service_pr.Base.{String, Option, ◌≡◌, inl, inr, ap, ◌∙◌, ◌<>◌, Result, ok, err}
use mathlib.Core.Path.{subst}
use k8s_container_service_pr.Api.{Container}
use k8s_container_service_pr.Dcm.{LabelLib}
use k8s_container_service_pr.Units.{QuantityLib}
use k8s_container_service_pr.Kube.{Client}
use k8s_container_service_pr.Kubernetes.Convert.{K8sConfig}
use k8s_container_service_pr.Kubernetes.Store.{StoreError}
use k8s_container_service_pr.Handlers.Errors.{Response, returned, map_get_error, map_delete_error}
use k8s_container_service_pr.Handlers.Handler.{Repository, respond, containers_base_path}
use k8s_container_service_pr.Handlers.Handler.Laws.{
  response_code, create_code, lookup_code, respond-get, respond-delete,
}
use k8s_container_service_pr.Apiserver.Router.{Request, Served}
use k8s_container_service_pr.Apiserver.Router.Laws.{outer}
use k8s_container_service_pr.Contract.{
  Abstract, Allowed, get_call, delete_call, create_call, answer_of, found, removed, made,
}
use k8s_container_service_pr.Server.Responses.{
  Wire, visit_get_container_response, visit_delete_container_response,
  visit_create_container_response,
}
use k8s_container_service_pr.Server.Strict.{
  StrictServerInterface, StrictHttpServerOptions, responded, answer,
}
use k8s_container_service_pr.Server.Answers.{creation, reading, deletion}
use k8s_container_service_pr.Server.Exchanges.{WireLaws, Encodes, Sent, HttpAllowed, Chosen}
use k8s_container_service_pr.Server.Rendered.{answer-Sent, delete-Sent, get-Shows}

module _ {W E Q : Type 0} (client : Client W E Q) (quantities : QuantityLib Q)
    (labels_lib : LabelLib) (cfg : K8sConfig) (wire : Wire) (wire_laws : WireLaws wire)
    (ssi : StrictServerInterface W) (options : StrictHttpServerOptions) (text : E → String)
    (store : Repository W E) (r : Request) (v : W) (s t : Abstract Q) where
  abbrev get_response : String → Result (StoreError E) Container → Response Container
  get_response id result =
      respond 200 (λ e. map_get_error text e (containers_base_path <> ("/" <> id))) result

  abbrev get_served : String → Result (StoreError E) Container → Served W
  get_served id result = outer r (
    answer wire ssi options (visit_get_container_response wire) r
        (returned (responded (get_response id result))),
    v,
  )

  get-coded :
      (id : String) (result : Result (StoreError E) Container)
      → Encodes wire.encode_container (get_response id result)
      → Sent (lookup_code 200 result) (get_served id result)
  unfolding visit_get_container_response
  get-coded id result encoded =
      subst (λ code. Sent code (get_served id result))
        (respond-get quantities text store (containers_base_path <> ("/" <> id)) result).0
        (answer-Sent wire wire_laws ssi options r v wire.encode_container (get_response id result)
          encoded)

  get-refused :
      (id : String) (f g : StoreError E)
      → f ≡ g
      → Encodes wire.encode_container (get_response id (err f))
      → Sent (lookup_code {A = Container} 200 (err g)) (get_served id (err f))
  get-refused id f g e encoded =
      subst (λ g. Sent (lookup_code {A = Container} 200 (err g)) (get_served id (err f))) e
        (get-coded id (err f) encoded)

  pub reading-Allowed :
      (id : String) (result : Result (StoreError E) Container)
      → Encodes wire.encode_container (get_response id result)
      → Allowed client quantities labels_lib cfg s t (get_call id) (answer_of found result)
      → HttpAllowed client quantities labels_lib cfg wire s t (reading id) (get_served id result)
  reading-Allowed id (ok c) encoded (same, stored) =
      (inl (c, get-Shows wire wire_laws ssi options r v 200 c encoded, stored), same)
  reading-Allowed id (err f) encoded (same, inl (free, e)) =
      (inr (inl (get-refused id f _ e encoded, free)), same)
  reading-Allowed id (err f) encoded (same, inr (inl (taken, e))) =
      (inr (inr (get-refused id f _ e encoded)), same)
  reading-Allowed id (err f) encoded (same, inr (inr (x, e))) =
      (inr (inr (get-refused id f _ e encoded)), same)

  abbrev delete_response : String → Result (StoreError E) (Unit {0}) → Response (Unit {0})
  delete_response id result =
      respond 204 (λ e. map_delete_error text e (containers_base_path <> ("/" <> id))) result

  abbrev delete_served : String → Result (StoreError E) (Unit {0}) → Served W
  delete_served id result = outer r (
    answer wire ssi options (visit_delete_container_response wire) r
        (returned (responded (delete_response id result))),
    v,
  )

  delete-coded :
      (id : String) (result : Result (StoreError E) (Unit {0}))
      → Sent (lookup_code 204 result) (delete_served id result)
  delete-coded id result =
      subst (λ code. Sent code (delete_served id result))
        (respond-delete quantities text store (containers_base_path <> ("/" <> id)) result).0
        (delete-Sent wire wire_laws ssi options r v (delete_response id result))

  delete-refused :
      (id : String) (f g : StoreError E)
      → f ≡ g
      → Sent (lookup_code {A = Unit {0}} 204 (err g)) (delete_served id (err f))
  delete-refused id f g e =
      subst (λ g. Sent (lookup_code {A = Unit {0}} 204 (err g)) (delete_served id (err f))) e
        (delete-coded id (err f))

  pub deletion-Allowed :
      (id : String) (result : Result (StoreError E) (Unit {0}))
      → Allowed client quantities labels_lib cfg s t
          (delete_call id)
          (answer_of (λ u. removed) result)
      → HttpAllowed client quantities labels_lib cfg wire s t
          (deletion id)
          (delete_served id result)
  deletion-Allowed id (ok u) (taken, freed) = inl (delete-coded id (ok u), taken, freed)
  deletion-Allowed id (err f) (same, inl (free, e)) =
      inr (inl (delete-refused id f _ e, free), same)
  deletion-Allowed id (err f) (same, inr (x, e)) = inr (inr (delete-refused id f _ e), same)

  abbrev create_served : Response Container → Served W
  create_served response = outer r (
    answer wire ssi options (visit_create_container_response wire) r
        (returned (responded response)),
    v,
  )

  pub create-Sent :
      (response : Response Container)
      → Encodes wire.encode_container response
      → Sent (response_code response) (create_served response)
  unfolding visit_create_container_response
  create-Sent response encoded =
      answer-Sent wire wire_laws ssi options r v wire.encode_container response encoded

  create-refused :
      (response : Response Container) (f g : StoreError E)
      → Encodes wire.encode_container response
      → response_code response ≡ create_code (err f)
      → f ≡ g
      → Sent (create_code (err g)) (create_served response)
  create-refused response f g encoded code e =
      subst (λ n. Sent n (create_served response)) (code ∙ ap (λ g. create_code (err g)) e)
        (create-Sent response encoded)

  pub creation-Allowed :
      (given : Option String) (id : String) (body : Container)
      (result : Result (StoreError E) Container) (response : Response Container)
      → Encodes wire.encode_container response
      → Chosen given id
      → response_code response ≡ create_code result
      → Allowed client quantities labels_lib cfg s t
          (create_call body.spec id)
          (answer_of made result)
      → HttpAllowed client quantities labels_lib cfg wire s t
          (creation given body)
          (create_served response)
  creation-Allowed given id body (ok c) response encoded chosen code (free, stored, shown) = inl (
    subst (λ n. Sent n (create_served response)) code (create-Sent response encoded),
    (id, chosen, free, stored),
  )
  creation-Allowed given id body (err f) response encoded chosen code (same, inl (taken, e)) =
      inr (inr (inl (create-refused response f _ encoded code e)), same)
  creation-Allowed given id body (err f) response encoded chosen code (same, inr (inl (free, e))) =
      inr (inr (inl (create-refused response f _ encoded code e)), same)
  creation-Allowed given id body (err f) response encoded chosen code (same, inr (inr (x, e))) =
      inr (inr (inr (create-refused response f _ encoded code e)), same)
