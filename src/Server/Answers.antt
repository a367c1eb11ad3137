-- ===== src/Server/Answers.antt =====
-- The endpoints of the API, what a request asks for, and what an endpoint answers.
use k8s_container_service_pr.Base.{
  String, Bool, true, false, not, ◌&&◌, ◌||◌, Option, none, some, List, [], ◌∷◌, ◌<>◌, ◌==◌, ◌≡◌,
  eqb, filter, ok,
}
use Prim.Native.Char.{Char, code}
use k8s_container_service_pr.Base.Int.{ℤ}
use k8s_container_service_pr.Api.{Container}
use k8s_container_service_pr.Handlers.Handler.{containers_base_path}
use k8s_container_service_pr.Apiserver.Recovery.{HandlerRun}
use k8s_container_service_pr.Apiserver.Router.{Request}
use k8s_container_service_pr.Server.Binding.{ParamLib}
use k8s_container_service_pr.Server.Responses.{
  Wire, visit_list_containers_response, visit_create_container_response, visit_get_health_response,
  visit_delete_container_response, visit_get_container_response,
}
use k8s_container_service_pr.Server.Strict.{StrictHttpServerOptions, answer}
use k8s_container_service_pr.Server.Routes.{Operation, Route, Mux}
use k8s_container_service_pr.Server.Adapter.{
  ContainerHandler, strict_server, new_request_error_handler, new_response_error_handler,
}

-- A character that a pattern of the router reads as itself.
abbrev pub is_plain_char : Char → Bool
is_plain_char c =
    not (eqb (code c) b'{' || eqb (code c) b'}' || eqb (code c) b':' || eqb (code c) b'*')

abbrev pub is_plain : String → Bool
is_plain String.[] = true
is_plain (String.◌∷◌ c s) = is_plain_char c && is_plain s

abbrev no_slash : String → Bool
no_slash String.[] = true
no_slash (String.◌∷◌ c s) = not (eqb (code c) b'/') && no_slash s

-- A segment of a path.
abbrev pub is_segment : String → Bool
is_segment String.[] = false
is_segment (String.◌∷◌ c s) = no_slash (String.◌∷◌ c s)

-- The route that a path without parameters has, the last one where there are several.
abbrev pub or_this : Option Operation → Bool → Operation → Option Operation
or_this (some o) b this = some o
or_this none true this = some this
or_this none false this = none

abbrev pub plain_route : List Route → String → String → Option Operation
plain_route [] method path = none
plain_route (r ∷ rs) method path =
    or_this (plain_route rs method path)
      (is_plain r.pattern && r.method == method && r.pattern == path) r.operation

-- The routes of a method that have parameters.
abbrev pub param_routes : List Route → String → List Route
param_routes table method = filter (λ r. r.method == method && not (is_plain r.pattern)) table

-- What is relied on of chi: a path that is a route's pattern to the letter finds this route, and with
-- a single route of the method that has parameters, one at the end of its pattern, a path whose last
-- segment stands for the parameter finds that route, unless it is a route's pattern to the letter.
pub record MuxLaws (mux : Mux) : Type 0 where
  pub plain :
      (table : List Route) (method path : String) (o : Operation)
      → plain_route table method path ≡ some o
      → mux.find table method path ≡ some (o, [])
  pub param :
      (table : List Route) (method prefix name segment : String) (o : Operation)
      → param_routes table method
        ≡ record { method = method; pattern = prefix <> ("/{" <> (name <> "}")); operation = o }
          ∷ []
      → is_plain prefix ≡ true
      → is_plain name ≡ true
      → is_segment segment ≡ true
      → plain_route table method (prefix <> ("/" <> segment)) ≡ none
      → mux.find table method (prefix <> ("/" <> segment)) ≡ some (o, (name, segment) ∷ [])

-- The operations of the API with what they are asked.
pub data Endpoint : Type 0 where
  listing : Option ℤ → Option String → Endpoint
  creation : Option String → Container → Endpoint
  health : Endpoint
  deletion : String → Endpoint
  reading : String → Endpoint

abbrev pub method_of : Endpoint → String
method_of (listing size token) = "GET"
method_of (creation id body) = "POST"
method_of health = "GET"
method_of (deletion id) = "DELETE"
method_of (reading id) = "GET"

abbrev pub path_of : Endpoint → String
path_of (listing size token) = containers_base_path
path_of (creation id body) = containers_base_path
path_of health = containers_base_path <> "/health"
path_of (deletion id) = containers_base_path <> ("/" <> id)
path_of (reading id) = containers_base_path <> ("/" <> id)

module _ (lib : ParamLib) (wire : Wire) where
  -- The parameters and the body of a request are those of the endpoint. A container that is read has
  -- an identifier other than the one that is reserved.
  abbrev pub Reads : Request → Endpoint → Type 0
  Reads r (listing size token) =
      (lib.bind_query_int32 "max_page_size" r.query ≡ ok size)
      × (lib.bind_query_string "page_token" r.query ≡ ok token)
  Reads r (creation id body) =
      (lib.bind_query_string "id" r.query ≡ ok id) × (wire.decode_container r.body ≡ ok body)
  Reads r health = Unit
  Reads r (deletion id) = (is_segment id ≡ true) × (lib.bind_path_string "container_id" id ≡ ok id)
  Reads r (reading id) =
      (is_segment id ≡ true)
      × (("health" == id) ≡ false)
      × (lib.bind_path_string "container_id" id ≡ ok id)

  abbrev pub Asks : Request → Endpoint → Type 0
  Asks r e = (r.method ≡ method_of e) × (r.path ≡ path_of e) × Reads r e

module _ {W E Q : Type 0} (wire : Wire) (h : ContainerHandler W E Q) where
  abbrev pub options : StrictHttpServerOptions
  options = record {
    request_error_handler_func = new_request_error_handler;
    response_error_handler_func = new_response_error_handler;
  }

  -- What an endpoint does to the writer and to the state: the handler's answer, rendered.
  abbrev pub answered : Endpoint → Option ℤ → Request → W → HandlerRun × W
  answered (listing size token) timeout r w =
      let (response, v) =
        (strict_server h).list_containers (record { max_page_size = size; page_token = token })
          timeout w in
      (answer wire (strict_server h) options (visit_list_containers_response wire) r response, v)
  answered (creation id body) timeout r w =
      let (response, v) = (strict_server h).create_container (record { id = id }) body timeout w in
      (answer wire (strict_server h) options (visit_create_container_response wire) r response, v)
  answered health timeout r w =
      let (response, v) = (strict_server h).get_health timeout w in
      (answer wire (strict_server h) options (visit_get_health_response wire) r response, v)
  answered (deletion id) timeout r w =
      let (response, v) = (strict_server h).delete_container id timeout w in
      (answer wire (strict_server h) options (visit_delete_container_response wire) r response, v)
  answered (reading id) timeout r w =
      let (response, v) = (strict_server h).get_container id timeout w in
      (answer wire (strict_server h) options (visit_get_container_response wire) r response, v)
