-- ===== src/Official/Streams.antt =====
-- What the stream handler of the official conformance server sends.
use easy_rpc_go.Base.{
  ◌≡◌, refl, ap, ◌∙◌, Bool, true, false, List, [], ◌∷◌, ◌++◌, append-nil, map, Option, none, some,
  if◌then◌else◌,
}
use easy_rpc_go.Text.{Bytes}
use easy_rpc_go.Code.{Error, rpc}
use easy_rpc_go.HandlerContext
use easy_rpc_go.HandlerContext.{HandlerContext}
use easy_rpc_go.Server.Calls.{Context, Program, set_header, set_trailer}
use easy_rpc_go.Server.Stream.{final_message}
use easy_rpc_go.Server.Stream.Transcript.{Transcript, transcript}
use easy_rpc_go.Stubs.Official.Messages.{
  Header, ErrorMessage, StreamResponseDefinition, RequestInfo, ServerStreamRequest,
  ServerStreamResponse,
}
use easy_rpc_go.Official.{
  Runtime, request_info, to_rpc_error, apply_values, apply_all, apply_headers, call_values,
  call_all, call_headers,
}
use mathlib.Core.Option
use easy_rpc_go.Official.Laws.{prepared}
use easy_rpc_go.Official.Closing.{
  IsEcho, IsClosing, info-IsEcho, closing_error, closing_error-IsClosing,
}
use easy_rpc_go.Official.Handlers.{
  payload_of, emit_data, stream_outcome, stream_defined, server_stream,
}

-- The responses of a stream: the first carries the echo of the request.
abbrev pub echoed : RequestInfo → List Bytes → List ServerStreamResponse
echoed info [] = []
echoed info (d ∷ ds) =
    record { payload = some (record { content = d; request_info = some info }) }
    ∷ map (λ c. record { payload = some (record { content = c; request_info = none }) }) ds

transcript-later :
    (encode : ServerStreamResponse → Bytes) (info : RequestInfo) (ds : List Bytes)
    (rest : Bool → Program) (hc : HandlerContext)
    → transcript (emit_data encode info false ds rest) hc ≡ record {
      payloads =
          map encode (map (λ c. record { payload = payload_of c none }) ds)
          ++ (transcript (rest false) hc).payloads;
      final = (transcript (rest false) hc).final;
    }
unfolding transcript emit_data
transcript-later encode info [] rest hc = refl
transcript-later encode info (d ∷ ds) rest hc =
    ap
      (λ (t : Transcript). record t {
        payloads = encode (record { payload = payload_of d none }) ∷ t.payloads;
      })
      (transcript-later encode info ds rest hc)

set_header_agrees :
    (k v : Bytes) (p : Program) (hc : HandlerContext)
    → transcript (set_header k v p) hc ≡ transcript p (HandlerContext.set_header k v hc)
unfolding transcript
set_header_agrees k v p hc = refl

set_trailer_agrees :
    (k v : Bytes) (p : Program) (hc : HandlerContext)
    → transcript (set_trailer k v p) hc ≡ transcript p (HandlerContext.set_trailer k v hc)
unfolding transcript
set_trailer_agrees k v p hc = refl

-- The two ways in which a handler sets headers or trailers agree.
module _ (call : Bytes → Bytes → Program → Program)
    (change : Bytes → Bytes → HandlerContext → HandlerContext)
    (agree : (k v : Bytes) (p : Program) (hc : HandlerContext)
      → transcript (call k v p) hc ≡ transcript p (change k v hc)) where
  transcript-call_values :
      (name : Bytes) (vs : List Bytes) (p : Program) (hc : HandlerContext)
      → transcript (call_values call name vs p) hc ≡ transcript p (apply_values change name vs hc)
  transcript-call_values name [] p hc = refl
  transcript-call_values name (v ∷ vs) p hc =
      agree name v (call_values call name vs p) hc
      ∙ transcript-call_values name vs p (change name v hc)

  transcript-call_all :
      (list : List Header) (p : Program) (hc : HandlerContext)
      → transcript (call_all call list p) hc ≡ transcript p (apply_all change list hc)
  transcript-call_all [] p hc = refl
  transcript-call_all (h ∷ list) p hc =
      transcript-call_values h.name h.value (call_all call list p) hc
      ∙ transcript-call_all list p (apply_values change h.name h.value hc)

transcript-call_headers :
    (headers trailers : List Header) (p : Program) (hc : HandlerContext)
    → transcript (call_headers headers false (call_headers trailers true p)) hc
      ≡ transcript p (prepared headers trailers hc)
unfolding call_headers apply_headers
transcript-call_headers headers trailers p hc =
    transcript-call_all set_header HandlerContext.set_header set_header_agrees headers
      (call_all set_trailer trailers p) hc
    ∙ transcript-call_all set_trailer HandlerContext.set_trailer set_trailer_agrees trailers p _

transcript-outcome :
    (rt : Runtime) (info : RequestInfo) (e : Option ErrorMessage) (first : Bool)
    (hc : HandlerContext)
    → transcript (stream_outcome rt info e first) hc ≡ record {
      payloads = [];
      final =
          final_message
            (Option.map (λ x. rpc (to_rpc_error rt x (if first then some info else none))) e)
            hc.trailer;
    }
unfolding transcript stream_outcome
transcript-outcome rt info none first hc = refl
transcript-outcome rt info (some e) first hc = refl

transcript-emitted :
    (rt : Runtime) (encode : ServerStreamResponse → Bytes) (info : RequestInfo) (ds : List Bytes)
    (e : Option ErrorMessage) (hc : HandlerContext)
    → transcript (emit_data encode info true ds (stream_outcome rt info e)) hc ≡ record {
      payloads = map encode (echoed info ds);
      final = final_message (closing_error rt info ds e) hc.trailer;
    }
unfolding transcript emit_data
transcript-emitted rt encode info [] none hc = transcript-outcome rt info none true hc
transcript-emitted rt encode info [] (some e) hc = transcript-outcome rt info (some e) true hc
transcript-emitted rt encode info (d ∷ ds) none hc =
    rw
      (
        transcript-later encode info ds (stream_outcome rt info none) hc,
        transcript-outcome rt info none false hc,
        append-nil (map encode (map (λ c. record { payload = payload_of c none }) ds)),
      )
      refl
transcript-emitted rt encode info (d ∷ ds) (some e) hc =
    rw
      (
        transcript-later encode info ds (stream_outcome rt info (some e)) hc,
        transcript-outcome rt info (some e) false hc,
        append-nil (map encode (map (λ c. record { payload = payload_of c none }) ds)),
      )
      refl

transcript-defined :
    (rt : Runtime) (ctx : Context) (message : ServerStreamRequest) (def : StreamResponseDefinition)
    (encode : ServerStreamResponse → Bytes) (hc : HandlerContext)
    → message.response_definition ≡ some def
    → transcript (server_stream rt ctx message encode) hc ≡ record {
      payloads =
          map encode
            (echoed (request_info rt ctx (rt.pack_stream message) [] []) def.response_data);
      final =
          final_message
            (closing_error rt
              (request_info rt ctx (rt.pack_stream message) [] [])
              def.response_data
              def.error)
            (prepared def.response_headers def.response_trailers hc).trailer;
    }
unfolding server_stream stream_defined
transcript-defined rt ctx message def encode hc e =
    let info = request_info rt ctx (rt.pack_stream message) [] [] in
    ap (λ o. transcript (stream_defined rt encode info o) hc) e
    ∙ transcript-call_headers def.response_headers def.response_trailers _ hc
    ∙ transcript-emitted rt encode info def.response_data def.error
        (prepared def.response_headers def.response_trailers hc)

-- For a request with a definition, ServerStream of the official server emits one response per
-- datum, in order, with the echo of the request in the first alone, and ends with the trailers that
-- the definition asks for and with its error, if it has one: its code, its message, its details,
-- each under the last part of its type's URL, and behind them the echo where no response carried
-- it. The echo has the headers of the call, the timeout that they ask for, and the request.
pub transcript-server_stream :
    (rt : Runtime) (ctx : Context) (message : ServerStreamRequest) (def : StreamResponseDefinition)
    (encode : ServerStreamResponse → Bytes) (hc : HandlerContext)
    → message.response_definition ≡ some def
    → (info : RequestInfo) × IsEcho rt ctx (rt.pack_stream message) info
      × ((e : Option Error) × IsClosing rt info def.response_data def.error e
          × (transcript (server_stream rt ctx message encode) hc ≡ record {
            payloads = map encode (echoed info def.response_data);
            final =
                final_message e (prepared def.response_headers def.response_trailers hc).trailer;
          }))
transcript-server_stream rt ctx message def encode hc h =
    let info = request_info rt ctx (rt.pack_stream message) [] [] in
    (
      info,
      info-IsEcho rt ctx (rt.pack_stream message),
      (
        closing_error rt info def.response_data def.error,
        closing_error-IsClosing rt info def.response_data def.error,
        transcript-defined rt ctx message def encode hc h,
      ),
    )
