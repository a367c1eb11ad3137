-- ===== src/Server/Exchanged.antt =====
-- One request over the store of internal/kubernetes, from the handler's operation outwards.
use k8s_container_service_pr.Base.{String, Option, some, inl, inr, refl, Bool-cases, is_empty}
use mathlib.Core.Path.{subst}
use k8s_container_service_pr.Base.Int.{ℤ}
use k8s_container_service_pr.Api.{Time, Container}
use k8s_container_service_pr.Dcm.{LabelLib, LabelLaws}
use k8s_container_service_pr.Units.{QuantityLib}
use k8s_container_service_pr.Kube.{Client}
use k8s_container_service_pr.Kube.Laws.{View, SameDeployments, ClientLaws}
use k8s_container_service_pr.Kubernetes.Convert.{K8sConfig}
use k8s_container_service_pr.Kubernetes.Store
use k8s_container_service_pr.Kubernetes.Store.{StoreError}
use k8s_container_service_pr.Kubernetes.Store.Rollback.{RollsBack}
use k8s_container_service_pr.Kubernetes.Paging.{list}
use k8s_container_service_pr.Handlers.Errors.{problem}
use k8s_container_service_pr.Handlers.Handler
use k8s_container_service_pr.Handlers.Handler.{or_generated, or_zero, or_no_token}
use k8s_container_service_pr.Handlers.Handler.Laws.{
  request_errors, create_container-rejects, create_container-answers, handlers-answer,
}
use k8s_container_service_pr.Apiserver.Router.{Request, Served}
use k8s_container_service_pr.Apiserver.Router.Laws.{outer}
use k8s_container_service_pr.Contract.{
  Abstract, create_call, get_call, delete_call, list_call, perform, new_k8s_container_store,
}
use k8s_container_service_pr.Contract.Refinement.{perform-Step, map_of, Sound, IsSound-same}
use k8s_container_service_pr.Contract.Held.{Unchanged-same}
use k8s_container_service_pr.Server.Responses.{
  Wire, visit_list_containers_response, visit_get_health_response,
}
use k8s_container_service_pr.Server.Adapter.{ContainerHandler, strict_server}
use k8s_container_service_pr.Server.Answers.{
  Endpoint, listing, creation, health, deletion, reading, answered, options,
}
use k8s_container_service_pr.Server.Exchanges.{WireLaws, Encodes, OutcomeEncodes, Sent, HttpAllowed}
use k8s_container_service_pr.Server.Rendered.{answer-Sent}
use k8s_container_service_pr.Server.Allowed.{
  reading-Allowed, deletion-Allowed, creation-Allowed, create-Sent,
}
use k8s_container_service_pr.Server.Cases.{
  is_empty-nil, chosen, list_code-cases, listing-same, check_health-state,
}

module _ {W E Q : Type 0} (client : Client W E Q) (quantities : QuantityLib Q)
    (labels_lib : LabelLib) (cfg : K8sConfig) (text : E → String) (start_time : Time)
    (version : String) (now : W → Time) (new_uuid : W → String) where
  -- The handler of main.go, over the store of the cluster.
  abbrev pub provider_handler : ContainerHandler W E Q
  provider_handler = record {
    quantities = quantities;
    text = text;
    store = λ timeout. new_k8s_container_store client quantities labels_lib cfg;
    start_time = start_time;
    version = version;
    now = now;
    new_uuid = new_uuid;
  }

  module _ (view : View W Q) (laws : ClientLaws client labels_lib view)
      (label_laws : LabelLaws labels_lib) (wire : Wire) (wire_laws : WireLaws wire)
      (timeout : Option ℤ) (r : Request) (w : W) where
    abbrev held : W → Abstract Q
    held = map_of client quantities labels_lib cfg view laws label_laws

    abbrev IsSound : W → Type 0
    IsSound = Sound client quantities labels_lib cfg view laws label_laws

    abbrev run : Endpoint → Served W
    run e = outer r (answered wire provider_handler e timeout r w)

    abbrev Exchange : Endpoint → Type 0
    Exchange e =
        HttpAllowed client quantities labels_lib cfg wire (held w) (held (run e).after) e (run e)
        × IsSound (run e).after

    -- What a request relies on: what it shows of containers is encoded, and the rollback of a creation
    -- is answered.
    abbrev pub IsServed : Endpoint → Type 0
    IsServed (listing size token) =
        Encodes wire.encode_container_list
          (Handler.list_containers quantities text
            (new_k8s_container_store client quantities labels_lib cfg) size token w).0
    IsServed (creation given body) =
        OutcomeEncodes wire.encode_container
          (Handler.create_container quantities text
            (new_k8s_container_store client quantities labels_lib cfg) given (new_uuid w) body.spec
            w).0
        × RollsBack client quantities labels_lib cfg body.spec (or_generated given (new_uuid w)) w
    IsServed health = Unit
    IsServed (deletion id) = Unit
    IsServed (reading id) =
        Encodes wire.encode_container
          (Handler.get_container quantities text
            (new_k8s_container_store client quantities labels_lib cfg) id w).0

    module _ (sound : IsSound w) where
      reading-Exchange : (id : String) → IsServed (reading id) → Exchange (reading id)
      unfolding perform new_k8s_container_store strict_server Handler.get_container
      reading-Exchange id encoded =
          let (allowed, next) =
            perform-Step client quantities labels_lib cfg view laws label_laws (get_call id) w tt
              sound in
          (
            reading-Allowed client quantities labels_lib cfg wire wire_laws
                (strict_server provider_handler) (options wire provider_handler) text
                (new_k8s_container_store client quantities labels_lib cfg) r
                (Store.get client quantities labels_lib cfg id w).1 (held w)
                (held (Store.get client quantities labels_lib cfg id w).1) id
                (Store.get client quantities labels_lib cfg id w).0 encoded allowed,
            next,
          )

      deletion-Exchange : (id : String) → Exchange (deletion id)
      unfolding perform new_k8s_container_store strict_server Handler.delete_container
      deletion-Exchange id =
          let (allowed, next) =
            perform-Step client quantities labels_lib cfg view laws label_laws (delete_call id) w tt
              sound in
          (
            deletion-Allowed client quantities labels_lib cfg wire wire_laws
                (strict_server provider_handler) (options wire provider_handler) text
                (new_k8s_container_store client quantities labels_lib cfg) r
                (Store.delete client quantities labels_lib cfg id w).1 (held w)
                (held (Store.delete client quantities labels_lib cfg id w).1) id
                (Store.delete client quantities labels_lib cfg id w).0 allowed,
            next,
          )

      creation-Exchange :
          (given : Option String) (body : Container)
          → IsServed (creation given body)
          → Exchange (creation given body)
      unfolding perform new_k8s_container_store strict_server
      creation-Exchange given body (encoded, rolls_back) =
          elim (Bool-cases (
            is_empty (
              request_errors quantities text
                (new_k8s_container_store client quantities labels_lib cfg)
                (or_generated given (new_uuid w)) body.spec))) [
                  | inr wrong ↦
                      let (p, same, status) =
                        create_container-rejects quantities text
                          (new_k8s_container_store client quantities labels_lib cfg) given
                          (new_uuid w) body.spec w wrong in
                      rw same (
                        inr (
                          inl (
                              create-Sent client quantities labels_lib cfg wire wire_laws
                                (strict_server provider_handler) (options wire provider_handler)
                                text (new_k8s_container_store client quantities labels_lib cfg) r w
                                (held w) (held w) (problem 400 p) tt),
                          λ i. refl,
                        ),
                        sound,
                      )
                  | inl right ↦
                      let id = or_generated given (new_uuid w) in
                      let (response, done, code, consistent) =
                        create_container-answers quantities text
                          (new_k8s_container_store client quantities labels_lib cfg) given
                          (new_uuid w) body.spec w (is_empty-nil _ right) in
                      let (allowed, next) =
                        perform-Step client quantities labels_lib cfg view laws label_laws
                          (create_call body.spec id) w rolls_back sound in
                      rw done (
                        creation-Allowed client quantities labels_lib cfg wire wire_laws
                            (strict_server provider_handler) (options wire provider_handler) text
                            (new_k8s_container_store client quantities labels_lib cfg) r
                            (Store.create client quantities labels_lib cfg body.spec id w).1
                            (held w)
                            (held (Store.create client quantities labels_lib cfg body.spec id w).1)
                            given id body
                            (Store.create client quantities labels_lib cfg body.spec id w).0
                            response (rw done at encoded) (chosen given (new_uuid w)) code allowed,
                        next,
                      )
                ]

      listing-Exchange :
          (size : Option ℤ) (token : Option String)
          → IsServed (listing size token)
          → Exchange (listing size token)
      unfolding perform new_k8s_container_store strict_server visit_list_containers_response
      listing-Exchange size token encoded =
          let store = new_k8s_container_store client quantities labels_lib cfg in
          let (allowed, next) =
            perform-Step client quantities labels_lib cfg view laws label_laws
              (list_call (or_zero size) (or_no_token token)) w tt sound in
          (
            (
              list_code-cases
                  (list client quantities labels_lib cfg (or_zero size) (or_no_token token) w).0
                  (run (listing size token))
                  (subst (λ n. Sent n (run (listing size token)))
                    (handlers-answer quantities text store "" size token w).2
                    (answer-Sent wire wire_laws (strict_server provider_handler)
                      (options wire provider_handler) r
                      (answered wire provider_handler (listing size token) timeout r w).1
                      wire.encode_container_list
                      (Handler.list_containers quantities text store size token w).0 encoded)),
              listing-same client quantities labels_lib cfg (held w) _ (or_zero size)
                  (or_no_token token)
                  (list client quantities labels_lib cfg (or_zero size) (or_no_token token) w).0
                  allowed,
            ),
            next,
          )

      health-Exchange : Exchange health
      unfolding new_k8s_container_store strict_server Handler.get_health visit_get_health_response
      health-Exchange =
          let same : SameDeployments view cfg.namespace w (run health).after =
            rw (check_health-state client quantities labels_lib cfg w)
              (laws.server_version-keeps cfg.namespace w).0 in
          (
            (
              answer-Sent wire wire_laws (strict_server provider_handler)
                  (options wire provider_handler) r
                  (answered wire provider_handler health timeout r w).1 wire.encode_health
                  (Handler.get_health
                    (some (new_k8s_container_store client quantities labels_lib cfg)) start_time
                    version (now w) w).0
                  (wire_laws.encodes_health _),
              Unchanged-same client quantities labels_lib cfg view laws label_laws w _ same,
            ),
            IsSound-same client quantities labels_lib cfg view laws label_laws w _ same sound,
          )

      -- Every endpoint is answered as the contract of the service allows.
      pub answered-Exchange : (e : Endpoint) → IsServed e → Exchange e
      answered-Exchange (listing size token) served = listing-Exchange size token served
      answered-Exchange (creation given body) served = creation-Exchange given body served
      answered-Exchange health served = health-Exchange
      answered-Exchange (deletion id) served = deletion-Exchange id
      answered-Exchange (reading id) served = reading-Exchange id served
