-- ===== src/Tests/Official.antt =====
-- The official conformance server, with runtimes that stand for those of protobuf.
use easy_rpc_go.Base.{◌≡◌, refl, arith, [], ◌∷◌, ◌++◌, Option, none, some, ok, map, false}
use easy_rpc_go.Base.Int.{pos}
use easy_rpc_go.Text.{codes}
use easy_rpc_go.Code.{Error}
use easy_rpc_go.Headers.{values}
use easy_rpc_go.HandlerContext.{new_handler_context}
use easy_rpc_go.Server.Calls.{Context}
use easy_rpc_go.Server.Stream.{final_message}
use easy_rpc_go.Server.Stream.Transcript.{transcript}
use easy_rpc_go.Stubs.Official.{Codecs}
use easy_rpc_go.Stubs.Official.Messages.{
  Any, RequestInfo, StreamResponseDefinition, ServerStreamRequest, ServerStreamResponse,
}
use easy_rpc_go.Official.{Runtime, parse_query}
use easy_rpc_go.Official.Handlers.{server_stream}
use easy_rpc_go.Official.Laws.{prepared, values-prepared}
use easy_rpc_go.Official.Streams.{echoed, transcript-server_stream}
use easy_rpc_go.Official.Closing.{IsEcho, IsClosing}
use easy_rpc_go.Official.Queries.{parse_query-query}
use easy_rpc_go.Official.Handshake.{read_sized, sized, read_sized-sized}
use easy_rpc_go.Tests.Run.{always}

abbrev pub any : Any
any = record { type_url = codes "type.googleapis.com/demo.Request"; value = codes "r" }

abbrev pub runtime : Runtime
runtime = record {
  pack_unary = λ m. any;
  pack_idempotent = λ m. any;
  pack_stream = λ m. any;
  marshal_info = λ info. codes "info";
  parse_duration = λ s. some (pos 5000000);
}

abbrev pub official_codecs : Codecs
official_codecs = record {
  unary_request = always (record { response_definition = none; request_data = [] });
  unary_response = always (record { payload = none });
  server_stream_request = always (record { response_definition = none; request_data = [] });
  server_stream_response = always (record { payload = none });
  client_stream_request = always (record { response_definition = none; request_data = [] });
  client_stream_response = always (record { payload = none });
  bidi_stream_request =
      always (record { response_definition = none; full_duplex = false; request_data = [] });
  bidi_stream_response = always (record { payload = none });
  unimplemented_request = always (record {});
  unimplemented_response = always (record {});
  idempotent_unary_request = always (record { response_definition = none; request_data = [] });
  idempotent_unary_response = always (record { payload = none });
}

-- Two messages, a trailer, and an error.
abbrev definition : StreamResponseDefinition
definition = record {
  response_headers = record { name = codes "x-a"; value = codes "1" ∷ codes "2" ∷ [] } ∷ [];
  response_data = codes "one" ∷ codes "two" ∷ [];
  response_delay_ms = 0;
  error = some (record { code = pos 8; message = some (codes "quota"); details = [] });
  response_trailers = record { name = codes "x-t"; value = codes "3" ∷ [] } ∷ [];
}

abbrev asked : ServerStreamRequest
asked = record { response_definition = some definition; request_data = [] }

abbrev ctx : Context
ctx = record { headers = []; handler = new_handler_context []; deadline = none }

transcript-server_stream_example :
    (info : RequestInfo) × IsEcho runtime ctx any info
    × ((e : Option Error) × IsClosing runtime info definition.response_data definition.error e
        × (transcript (server_stream runtime ctx asked (λ r. codes "m")) ctx.handler ≡ record {
          payloads =
              map (λ (r : ServerStreamResponse). codes "m") (echoed info definition.response_data);
          final =
              final_message e
                (prepared definition.response_headers definition.response_trailers
                  ctx.handler).trailer;
        }))
transcript-server_stream_example =
    transcript-server_stream runtime ctx asked definition (λ r. codes "m") ctx.handler refl

values-prepared_example :
    (values
        (codes "x-a")
        (prepared definition.response_headers definition.response_trailers ctx.handler).header
      ≡ codes "1" ∷ codes "2" ∷ [])
    × (values
          (codes "x-a")
          (prepared definition.response_headers definition.response_trailers ctx.handler).trailer
        ≡ [])
unfolding values new_handler_context
values-prepared_example =
    values-prepared (codes "x-a") definition.response_headers definition.response_trailers
      ctx.handler

parse_query-query_example :
    parse_query (codes "encoding=proto&connect=v1")
    ≡ record { name = codes "encoding"; value = codes "proto" ∷ [] }
      ∷ record { name = codes "connect"; value = codes "v1" ∷ [] }
      ∷ []
parse_query-query_example =
    parse_query-query ((codes "encoding", codes "proto") ∷ (codes "connect", codes "v1") ∷ [])
      (omega arith)

read_sized-sized_example :
    read_sized (sized (codes "abc") ++ codes "next") ≡ (ok (codes "abc"), codes "next")
read_sized-sized_example = read_sized-sized (codes "abc") (codes "next") (omega arith)
