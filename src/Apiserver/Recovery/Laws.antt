-- ===== src/Apiserver/Recovery/Laws.antt =====
-- What a client and the log see of a handler that writes, returns or panics.
use k8s_container_service_pr.Base.{
  String, Bool, true, false, Option, List, [], ◌∷◌, ◌++◌, ◌≡◌, refl, sym, ap, ◌∙◌, any, ◌||◌, arith,
}
use mathlib.Core.List.{append_assoc, append-nil}
use k8s_container_service_pr.Apiserver.Recovery.{
  WriterCall, write_header, write, write_problem, flush, RecordingWriter, new_recording_writer,
  set_header, writer_call, writer_calls, Ending, returns, abort, panics, HandlerRun, response_error,
  recovery_middleware, recovered,
}

writer_call-passed_on :
    (c : WriterCall) (w : RecordingWriter) → (writer_call c w).passed_on ≡ w.passed_on ++ c ∷ []
unfolding writer_call
writer_call-passed_on (set_header name value) w = refl
writer_call-passed_on (write_header code) w = refl
writer_call-passed_on (write b) w = refl
writer_call-passed_on (write_problem e) w = refl
writer_call-passed_on flush w = refl

-- Whether a call sends something to the client, and whether one of several does.
abbrev pub sends : WriterCall → Bool
sends (set_header name value) = false
sends (write_header code) = true
sends (write b) = true
sends (write_problem e) = true
sends flush = true

abbrev pub has_sent : List WriterCall → Bool
has_sent = any sends

writer_call-wrote :
    (c : WriterCall) (w : RecordingWriter)
    → (writer_call c w).wrote_header ≡ (sends c || w.wrote_header)
unfolding writer_call
writer_call-wrote (set_header name value) w = refl
writer_call-wrote (write_header code) w = refl
writer_call-wrote (write b) w = refl
writer_call-wrote (write_problem e) w = refl
writer_call-wrote flush w = refl

pub writer_calls-passed_on :
    (cs : List WriterCall) (w : RecordingWriter) → (writer_calls cs w).passed_on ≡ w.passed_on ++ cs
unfolding writer_calls
writer_calls-passed_on [] w = sym (append-nil w.passed_on)
writer_calls-passed_on (c ∷ cs) w =
    writer_calls-passed_on cs (writer_call c w)
    ∙ ap (λ l. l ++ cs) (writer_call-passed_on c w)
    ∙ append_assoc w.passed_on (c ∷ []) cs

writer_calls-wrote :
    (cs : List WriterCall) (w : RecordingWriter)
    → (writer_calls cs w).wrote_header ≡ (w.wrote_header || has_sent cs)
unfolding writer_calls
writer_calls-wrote [] w = ground arith
writer_calls-wrote (c ∷ cs) w =
    ground (arith, writer_calls-wrote cs (writer_call c w), writer_call-wrote c w)

-- What the client gets after a panic: nothing more where something was sent already.
abbrev pub after_panic : Bool → Option String → List WriterCall
after_panic false instance_ = response_error instance_
after_panic true instance_ = []

abbrev pub expected : Option String → HandlerRun → HandlerRun
expected instance_ next = elim next.ending [
  | returns ↦ next
  | abort ↦ next
  | panics p ↦ record {
    calls = next.calls ++ after_panic (has_sent next.calls) instance_;
    ending = returns;
  }
]

writer_calls-fresh :
    (cs : List WriterCall) → (writer_calls cs new_recording_writer).wrote_header ≡ has_sent cs
writer_calls-fresh cs = writer_calls-wrote cs new_recording_writer

same_run :
    (next : HandlerRun) {e : Ending}
    → next.ending ≡ e
    → record { calls = next.calls; ending = e } ≡ next
same_run next h = ap (λ e. record { calls = next.calls; ending = e }) (sym h)

-- Round a handler that returns or aborts, the recovery middleware changes nothing. Where the handler
-- panics, the request ends without a panic: after what the handler sent, or with the problem of an
-- internal error, status 500, where it had sent nothing.
pub recovery_middleware-expected :
    (instance_ : Option String) (next : HandlerRun)
    → recovery_middleware instance_ next ≡ expected instance_ next
unfolding recovery_middleware
recovery_middleware-expected instance_ next = by_ending next.ending refl
  where
    sent : (writer_calls next.calls new_recording_writer).passed_on ≡ next.calls
    sent = writer_calls-passed_on next.calls new_recording_writer

    by_ending :
        (e : Ending)
        → next.ending ≡ e
        → recovery_middleware instance_ next ≡ expected instance_ next
    by_ending returns h = rw (recovery_middleware, expected, h, sent) (same_run next h)
    by_ending abort h = rw (recovery_middleware, expected, h, sent) (same_run next h)
    by_ending (panics p) h =
        rw (recovery_middleware, expected, h, sent, writer_calls-fresh next.calls)
          (split (has_sent next.calls) next.calls)
      where
        split :
            (b : Bool) (cs : List WriterCall)
            → recovered b instance_ cs
              ≡ record { calls = cs ++ after_panic b instance_; ending = returns }
        split false cs = refl
        split true cs = ap (λ l. record { calls = l; ending = returns }) (sym (append-nil cs))
