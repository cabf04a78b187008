-- ===== src/Gateway/Streaming.antt =====
-- internal/gateway/handler.go: `handleStream`. A stream is what its reads return, in order; it ends
-- with an error or with the end of the file, which the handler takes for the same. The writer can
-- flush, as that of net/http can.
use aigateway.Prelude.{
  ℕ, ◌+◌, String, Option, none, some, List, [], ◌∷◌, ◌++◌, length, leb, if◌then◌else◌,
}
use aigateway.Float.{Float64}
use aigateway.Types.{ChatCompletionRequest}
use aigateway.Middleware.Http.{Headers, header_set, Failure, error_response}
use aigateway.Policy.{is_block, Violation, Engine, check_output}
use aigateway.Webhook.{send}
use aigateway.Router.Stream.{streaming, stopped, route_stream}
use aigateway.Gateway.{Service, Handler, Moment, violation_event}

-- What is written to the client: a piece of the stream, or the event that ends it.
pub data Written : Type 0 where
  piece : List ℕ → Written
  refusal : String → Written

pub data StreamReply : Type 0 where
  not_started : Failure → StreamReply
  started : Headers → List Written → StreamReply

abbrev pub check_interval : ℕ
check_interval = 500

-- The violation of an output that blocks.
unfoldable pub blocking : Option Violation → Option Violation
blocking none = none
blocking (some v) = if is_block v.action then some v else none

module _ {fl : Float64} {C : Type 0} (svc : Service fl C) where
  -- The loop over the reads, with what was read so far and how much of it is not yet scanned.
  unfoldable pub relay :
      Option Engine → List (List ℕ) → List ℕ → ℕ → List Written × Option Violation
  unfolding blocking
  relay policy [] accumulated bytes_scanned = ([], none)
  relay policy ([] ∷ reads) accumulated bytes_scanned = relay policy reads accumulated bytes_scanned
  relay none ((b ∷ bs) ∷ reads) accumulated bytes_scanned =
      let (written, v) = relay none reads accumulated bytes_scanned in (piece (b ∷ bs) ∷ written, v)
  relay (some engine) ((b ∷ bs) ∷ reads) accumulated bytes_scanned =
      let all = accumulated ++ b ∷ bs in
      let scanned = bytes_scanned + length (b ∷ bs) in
      let (waiting, v') = relay (some engine) reads all scanned in
      let (written, v'') = relay (some engine) reads all 0 in
      if leb check_interval scanned
      then elim (blocking (check_output svc.text (svc.to_text all) engine)) [
        | some v ↦ (piece (b ∷ bs) ∷ refusal v.message ∷ [], some v)
        | none ↦ (piece (b ∷ bs) ∷ written, v'')
      ]
      else (piece (b ∷ bs) ∷ waiting, v')

  abbrev pub stream_headers : Headers → Headers
  stream_headers headers = header_set "Connection" "keep-alive" (
      header_set "Cache-Control" "no-cache" (header_set "Content-Type" "text/event-stream" headers))

  unfoldable pub handle_stream :
      Moment fl.F
      → String
      → ChatCompletionRequest
      → Headers
      → Handler fl C
      → StreamReply × Handler fl C
  unfolding relay
  handle_stream at tenant_id req headers h =
      let (stream, router) = route_stream at.streams req.model at.rollout h.router in
      elim stream [
        | stopped e ↦ (
          not_started (error_response 502 "provider_error" (svc.error_text e) headers),
          record h { router = router },
        )
        | streaming reads ↦
            let (written, v) = relay h.policy reads [] 0 in
            (
              started (stream_headers headers) written,
              record h {
                router = router;
                webhook = elim v [
                  | none ↦ h.webhook
                  | some found ↦
                      send
                        (violation_event fl svc "stream_policy_violation" tenant_id req.model found)
                        h.webhook
                ];
              },
            )
      ]
