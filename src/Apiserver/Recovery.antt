-- ===== src/Apiserver/Recovery.antt =====
-- The middleware of internal/apiserver/server.go. A handler is what it does to its response writer,
-- and whether it then returns or panics.
pub mod Laws
use k8s_container_service_pr.Base.{
  ℕ, String, Bool, true, false, Option, none, some, List, [], ◌∷◌, ◌++◌, if◌then◌else◌, eqb,
}
use k8s_container_service_pr.Base.Int.{ℤ, pos, ltb_ℤ}
use k8s_container_service_pr.Api.{Error}
use k8s_container_service_pr.Api.Enums.{ErrorType, internal, invalid_argument}
use k8s_container_service_pr.Handlers.Errors.{
  internal_title, internal_detail, invalid_argument_title,
}
use k8s_container_service_pr.Apiserver.Scrub.{RequestFailure, scrub_validation_error}

-- What reaches a response writer: a header field, which is held back until something is sent, a
-- status line, a piece of the body, a problem body, a flush.
pub data WriterCall : Type 0 where
  set_header : String → String → WriterCall
  write_header : ℕ → WriterCall
  write : String → WriterCall
  write_problem : Error → WriterCall
  flush : WriterCall

-- statusRecordingResponseWriter, with the calls passed on to the writer below it.
pub record RecordingWriter : Type 0 where
  pub wrote_header : Bool
  pub status_code : ℕ
  pub passed_on : List WriterCall

-- A fresh one, as both middlewares make it.
abbrev pub new_recording_writer : RecordingWriter
new_recording_writer = record { wrote_header = false; status_code = 200; passed_on = [] }

abbrev ok_status : Bool → ℕ → ℕ
ok_status true code = code
ok_status false code = 200

-- WriteHeader, Write and Flush; the header is that of the writer below.
unfoldable pub writer_call : WriterCall → RecordingWriter → RecordingWriter
writer_call (set_header name value) w = record w {
  passed_on = w.passed_on ++ set_header name value ∷ [];
}
writer_call (write_header code) w = record {
  wrote_header = true;
  status_code = code;
  passed_on = w.passed_on ++ write_header code ∷ [];
}
writer_call (write b) w = record {
  wrote_header = true;
  status_code = ok_status w.wrote_header w.status_code;
  passed_on = w.passed_on ++ write b ∷ [];
}
writer_call (write_problem e) w = record {
  wrote_header = true;
  status_code = ok_status w.wrote_header w.status_code;
  passed_on = w.passed_on ++ write_problem e ∷ [];
}
writer_call flush w = record {
  wrote_header = true;
  status_code = w.status_code;
  passed_on = w.passed_on ++ flush ∷ [];
}

unfoldable pub writer_calls : List WriterCall → RecordingWriter → RecordingWriter
unfolding writer_call
writer_calls [] w = w
writer_calls (c ∷ cs) w = writer_calls cs (writer_call c w)

-- How a handler ends; `abort` is the panic with http.ErrAbortHandler.
pub data Ending : Type 0 where
  returns abort : Ending
  panics : String → Ending

pub record HandlerRun : Type 0 where
  pub calls : List WriterCall
  pub ending : Ending

-- httperror.WriteResponse
unfoldable pub write_response : ℕ → ErrorType → String → String → Option String → List WriterCall
write_response status_code err_type title detail instance_ =
    set_header "Content-Type" "application/problem+json"
    ∷ write_header status_code
    ∷ write_problem (record {
      detail = some detail;
      errors = none;
      instance_ = instance_;
      pointer = none;
      status = some status_code;
      title = title;
      type_ = err_type;
    })
    ∷ []

-- newBadRequestHandler and NewResponseErrorHandler
unfoldable pub bad_request : RequestFailure → Option String → List WriterCall
unfolding write_response scrub_validation_error
bad_request failure instance_ =
    write_response 400 invalid_argument invalid_argument_title (scrub_validation_error failure)
      instance_

unfoldable pub response_error : Option String → List WriterCall
unfolding write_response
response_error instance_ = write_response 500 internal internal_title internal_detail instance_

abbrev pub recovered : Bool → Option String → List WriterCall → HandlerRun
recovered true instance_ sent = record { calls = sent; ending = returns }
recovered false instance_ sent = record {
  calls = sent ++ response_error instance_;
  ending = returns;
}

abbrev recover_from : Ending → Option String → RecordingWriter → HandlerRun
recover_from returns instance_ sw = record { calls = sw.passed_on; ending = returns }
recover_from abort instance_ sw = record { calls = sw.passed_on; ending = abort }
recover_from (panics p) instance_ sw = recovered sw.wrote_header instance_ sw.passed_on

-- recoveryMiddleware round a handler: what reaches the server's own writer, and how that ends.
unfoldable pub recovery_middleware : Option String → HandlerRun → HandlerRun
unfolding writer_calls response_error
recovery_middleware instance_ next =
    recover_from next.ending instance_ (writer_calls next.calls new_recording_writer)

-- requestLoggingMiddleware: the status that is logged; it logs nothing if the handler panics.
unfoldable pub logged_status : HandlerRun → Option ℕ
unfolding writer_calls
logged_status next = elim next.ending [
  | returns ↦ some (writer_calls next.calls new_recording_writer).status_code
  | abort ↦ none
  | panics p ↦ none
]

-- openAPIValidationMiddleware, on whether the spec has a route and what validation answers, round a
-- handler that changes a state.
unfoldable pub open_api_validation_middleware :
    {W : Type 0}
    → Bool
    → Option RequestFailure
    → Option String
    → (W → HandlerRun × W)
    → W
    → HandlerRun × W
unfolding bad_request
open_api_validation_middleware route_found failure instance_ next w =
    if route_found
    then elim failure [
      | none ↦ next w
      | some f ↦ (record { calls = bad_request f instance_; ending = returns }, w)
    ]
    else next w

-- requestTimeoutMiddleware: the timeout that the handler's context gets.
unfoldable pub request_timeout : ℤ → Option ℤ
request_timeout timeout = if ltb_ℤ (pos 0) timeout then some timeout else none
