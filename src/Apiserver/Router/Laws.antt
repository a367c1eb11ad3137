-- ===== src/Apiserver/Router/Laws.antt =====
-- What every request is answered with.
use k8s_container_service_pr.Base.{
  String, Bool, false, ◌&&◌, ◌||◌, Option, none, some, List, if◌then◌else◌, ◌==◌, ◌<>◌, ok, err,
  ◌≡◌, ◌≢◌, refl, sym, ap, ◌∙◌, inl, inr, Result-cases, Option-cases, Bool-cases,
}
use k8s_container_service_pr.Config.{Config}
use k8s_container_service_pr.Api.Enums.{invalid_argument}
use k8s_container_service_pr.Api.Paths.{post_path}
use k8s_container_service_pr.Handlers.Errors.{invalid_argument_title}
use k8s_container_service_pr.Apiserver.Scrub.{RequestFailure}
use k8s_container_service_pr.Apiserver.Recovery.{
  HandlerRun, WriterCall, Ending, returns, abort, panics, new_recording_writer, write_response,
  bad_request, recovery_middleware, logged_status, open_api_validation_middleware, request_timeout,
}
use k8s_container_service_pr.Apiserver.Recovery.Laws.{
  expected, recovery_middleware-expected, writer_calls-passed_on,
}
use k8s_container_service_pr.Apiserver.Router.{
  Request, Parts, Served, bad_request_handler, empty_id_handler, dispatch, validated,
  logging_middleware, serve,
}

-- What the OpenAPI document has against a request: nothing where it is not loaded or has no route.
abbrev pub rejection : {W : Type 0} → Parts W → Request → Option RequestFailure
rejection parts r = elim parts.spec_router [
  | err e ↦ none
  | ok spec ↦ if spec.finds_route r then spec.validate_request r else none
]

-- A GET or DELETE of the collection's path with a slash after it.
abbrev pub has_empty_id : {W : Type 0} → Parts W → Request → Bool
has_empty_id parts r = elim (post_path parts.paths) [
  | err e ↦ false
  | ok post ↦ (r.method == "GET" || r.method == "DELETE") && r.path == (post <> "/")
]

-- What a run of a handler comes to for the client and the log.
abbrev pub outer : {W : Type 0} → Request → HandlerRun × W → Served W
outer r (next, w) = record {
  run = expected (some r.uri) next;
  logged = logged_status next;
  after = w;
}

abbrev refused : {W : Type 0} → List WriterCall → W → Served W
refused calls w = record {
  run = record { calls = calls; ending = returns };
  logged = some 400;
  after = w;
}

abbrev empty_id : {W : Type 0} → Request → W → Served W
empty_id r = refused (
    write_response 400 invalid_argument invalid_argument_title
      "container_id is required and cannot be empty" (some r.uri))

-- A request that the document rejects and one without an identifier are answered 400, with their
-- reason, and without a call of the routes. For any other the routes answer, with the timeout of the
-- configuration; a panic of theirs is answered with the internal problem if nothing was sent before.
abbrev pub reply : {W : Type 0} → Config → Parts W → Request → W → Served W
reply cfg parts r w = elim (rejection parts r) [
  | some f ↦ refused (bad_request f (some r.uri)) w
  | none ↦
      if has_empty_id parts r
      then empty_id r w
      else outer r
          (parts.routes bad_request_handler (request_timeout cfg.server.request_timeout) r w)
]

expected-returns :
    (instance_ : Option String) (next : HandlerRun) (p : String)
    → (expected instance_ next).ending ≢ panics p
expected-returns instance_ next p = by_ending next.ending refl
  where
    by_ending : (e : Ending) → next.ending ≡ e → (expected instance_ next).ending ≢ panics p
    by_ending returns h = rw (expected, h) (λ z. absurd (returns≢panics (sym h ∙ z)))
      where
        returns≢panics : returns ≡ panics p → ⊥
        returns≢panics z = cc
    by_ending abort h = rw (expected, h) (λ z. absurd (abort≢panics (sym h ∙ z)))
      where
        abort≢panics : abort ≡ panics p → ⊥
        abort≢panics z = cc
    by_ending (panics q) h = rw (expected, h) (λ z. cc)

logging_middleware-run :
    {W : Type 0} (next : HandlerRun) (w : W)
    → logging_middleware (next, w) ≡ record { run = next; logged = logged_status next; after = w }
unfolding logging_middleware
logging_middleware-run next w =
    ap
      (λ calls. record {
        run = record { calls = calls; ending = next.ending };
        logged = logged_status next;
        after = w;
      })
      (writer_calls-passed_on next.calls new_recording_writer)

module _ {W : Type 0} (cfg : Config) (parts : Parts W) (r : Request) (w : W) where
  abbrev inner : HandlerRun × W
  inner = validated parts r (dispatch parts (request_timeout cfg.server.request_timeout) r) w

  serve-outer : serve cfg parts r w ≡ outer r inner
  unfolding serve
  serve-outer =
      ap (λ (s : Served W). record s { run = recovery_middleware (some r.uri) s.run })
        (logging_middleware-run inner.0 inner.1)
      ∙ ap (λ run. record { run = run; logged = logged_status inner.0; after = inner.1 })
          (recovery_middleware-expected (some r.uri) inner.0)

  empty_id_handler-refused : outer r (empty_id_handler r, w) ≡ empty_id r w
  unfolding empty_id_handler logged_status write_response
  empty_id_handler-refused = refl

  bad_request-refused :
      (f : RequestFailure)
      → outer r (record { calls = bad_request f (some r.uri); ending = returns }, w)
        ≡ refused (bad_request f (some r.uri)) w
  unfolding bad_request logged_status write_response
  bad_request-refused f = refl

  dispatch-outer : outer r (dispatch parts (request_timeout cfg.server.request_timeout) r w) ≡ (
      if has_empty_id parts r
      then empty_id r w
      else outer r
          (parts.routes bad_request_handler (request_timeout cfg.server.request_timeout) r w))
  unfolding dispatch
  dispatch-outer = elim (Result-cases (post_path parts.paths)) [
    | inr (e, h) ↦ rw (dispatch, has_empty_id, h) refl
    | inl (post, h) ↦
        elim (Bool-cases ((r.method == "GET" || r.method == "DELETE") && r.path == (post <> "/"))) [
          | inl g ↦ rw (dispatch, has_empty_id, h, g) empty_id_handler-refused
          | inr g ↦ rw (dispatch, has_empty_id, h, g) refl
        ]
  ]

  validated-reply : outer r inner ≡ reply cfg parts r w
  unfolding validated open_api_validation_middleware
  validated-reply = elim (Result-cases parts.spec_router) [
    | inr (e, h) ↦ rw (validated, reply, h) dispatch-outer
    | inl (spec, h) ↦ elim (Bool-cases (spec.finds_route r)) [
      | inr g ↦ rw (validated, reply, h, g) dispatch-outer
      | inl g ↦ elim (Option-cases (spec.validate_request r)) [
        | inl k ↦ rw (validated, reply, h, g, k) dispatch-outer
        | inr (f, k) ↦ rw (validated, reply, h, g, k) (bad_request-refused f)
      ]
    ]
  ]

  -- Every request is answered as `reply` says: 400 with the reason, without a call of the routes and
  -- with nothing changed behind them, where the OpenAPI document rejects it or its identifier is
  -- empty, and else as the routes answer, with the timeout of the configuration, where a panic ends in
  -- the internal problem if nothing was sent before it. No panic but that of an aborted request
  -- escapes.
  pub serve-reply :
      (serve cfg parts r w ≡ reply cfg parts r w)
      × ((p : String) → (serve cfg parts r w).run.ending ≢ panics p)
  serve-reply = (
    serve-outer ∙ validated-reply,
    (λ p z.
        expected-returns (some r.uri) inner.0 p
          (ap (λ (s : Served W). s.run.ending) (sym serve-outer) ∙ z)),
  )
