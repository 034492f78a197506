-- ===== src/Conformance/Client/Loops.antt =====
-- A stream of the conformance client against the conformance server: what its loop over Recv gets.
use easy_rpc_go.Base.{
  ℕ, suc, ◌≤◌, ◌<◌, ◌≡◌, refl, ap, ◌∙◌, arith, true, false, List, [], ok, length, some, All,
}
use easy_rpc_go.Text.{Bytes}
use easy_rpc_go.Code.{Error}
use easy_rpc_go.Frame.{Gzip, default_max_message_bytes, frame, frame_flags, put_uint32}
use easy_rpc_go.Json.{JsonText}
use easy_rpc_go.Content.{proto}
use easy_rpc_go.Wire.Messages.{IsPlainMessage}
use easy_rpc_go.Server.Calls.{MethodSpec, ServiceRegistry}
use easy_rpc_go.Server.Stream.{end_frame}
use easy_rpc_go.Server.Stream.Transcript.{Transcript, transcript}
use easy_rpc_go.Server.Stream.Delivery.{Fits, farewell}
use easy_rpc_go.Client.Stream.{HttpStream, Collected}
use easy_rpc_go.Stubs.{MessageCodec, StreamMethod, call_stream, encode_msg}
use easy_rpc_go.Stubs.Delivery.{connection}
use easy_rpc_go.Stubs.Delivery.Streams.{StreamRoute, stream_call_context, call_stream-served}
use easy_rpc_go.Conformance.Client.{Checked, read_all}
use easy_rpc_go.Conformance.Client.Reading.{collect_more, settle, read_all-collect}
use easy_rpc_go.Conformance.Client.Setup.{Arrives}

module _ (recase : Bytes → Bytes) (gzip : Gzip) (text : JsonText) (version base : Bytes)
    (methods : List MethodSpec) (reg : ServiceRegistry) where
  module _ {I O : Type 0} (path : Bytes) (request : MessageCodec I) (response : MessageCodec O)
      (method : StreamMethod I O) (r : StreamRoute base methods reg path request response method)
      (message : I) (there : Arrives request message) where
    -- What the service does for the message, for responses that the codec encodes.
    abbrev pub told : Transcript
    told =
        transcript
          (method (stream_call_context r.spec proto) message (λ out. encode_msg response out proto))
          (stream_call_context r.spec proto).handler

    small : length (frame (encode_msg request message proto) false) ≤ default_max_message_bytes
    unfolding frame frame_flags put_uint32
    small = omega (arith, there.short)

    -- What the loop over it gets of a stream that delivers the transcript.
    abbrev delivers : Transcript → Collected
    delivers t = record {
      messages = t.payloads;
      error = some (farewell t.final).0;
      stream = record { body = []; ended = true; trailers = (farewell t.final).1 };
    }

    -- The stream opens, and the loop over it gets the payloads and then the end.
    pub loop-served :
        {C J : Type 0} (ctx : C) (t : Transcript)
        → told ≡ t
        → All (λ p. length p ≤ default_max_message_bytes) t.payloads
        → IsPlainMessage t.final
        → Fits (end_frame text t.final)
        → (s : HttpStream) × (call_stream request path
              (connection recase gzip text version base methods reg)
              ctx
              message
              []
            ≡ ok s)
          × ((decode : Bytes → Checked J) (ending : Error → Checked (Unit {0})) (fuel : ℕ)
              → length t.payloads < fuel
              → read_all gzip text decode ending fuel s
                ≡ settle gzip text decode ending (delivers t))
    loop-served ctx t e fits plain end_fits =
        let (s, opened, collected) =
          call_stream-served recase gzip text version base methods reg path request response method
            r proto message small there.same ctx [] refl (rw e fits) (rw e plain) (rw e end_fits) in
        (
          s,
          opened,
          λ decode ending fuel enough.
              read_all-collect gzip text decode ending fuel s
              ∙ ap (settle gzip text decode ending) (
                  collect_more gzip text (suc (length told.payloads)) fuel (farewell told.final).0 s
                    (rw e enough) (ap (λ (c : Collected). c.error) collected)
                  ∙ collected
                  ∙ ap delivers e),
        )
