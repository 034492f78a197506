-- ===== src/Official.antt =====
-- The official conformance server (cmd/conformance-official-server/main.go): the echo of a request,
-- the headers and errors that a request asks for, and the handlers of its service. The delays that
-- a request asks for pass no time here.
pub mod Handlers
pub mod Laws
pub mod Closing
pub mod Streams
pub mod Queries
pub mod Handshake
use easy_rpc_go.Base.{
  ℕ, zero, suc, ◌/◌, Bool, true, false, List, [], ◌∷◌, ◌++◌, map, Option, none, some, Result, ok,
  err, ◌==◌, if◌then◌else◌, is_empty as is_empty_list,
}
use mathlib.Core.Option
use easy_rpc_go.Base.Int.{ℤ, pos, negsuc}
use easy_rpc_go.Text.{Bytes, codes, is_empty, before, split}
use easy_rpc_go.Code.{Error, rpc, RpcError, rpc_error, ErrorDetail}
use easy_rpc_go.Headers.{Entry, Headers, get}
use easy_rpc_go.Timeout.{header_timeout, millisecond}
use easy_rpc_go.HandlerContext
use easy_rpc_go.HandlerContext.{HandlerContext}
use easy_rpc_go.Server.Calls.{
  Context, headers_from_context, Program, return, emit, set_header, set_trailer,
}
use easy_rpc_go.Conformance.{stopped}
use easy_rpc_go.Stubs.Official.{ConformanceService}
use easy_rpc_go.Stubs.Official.Messages.{
  Any, Header, ErrorMessage, UnaryOutcome, neither, response_data, error, UnaryResponseDefinition,
  StreamResponseDefinition, RequestInfo, ConformancePayload, UnaryRequest, UnaryResponse,
  IdempotentUnaryRequest, IdempotentUnaryResponse, ServerStreamRequest, ServerStreamResponse,
}

-- What stands behind the first `=`, if there is one.
unfoldable pub after_equals : Bytes → Option Bytes
after_equals [] = none
after_equals (c ∷ s) = if c == b'=' then some s else after_equals s

abbrev pub or_nothing : Option Bytes → Bytes
or_nothing none = []
or_nothing (some s) = s

-- The loop of `parseQuery`; `strings.SplitN(kv, "=", 2)` cuts at the first `=`.
unfoldable pub parse_pairs : List Bytes → List Header
unfolding after_equals before
parse_pairs [] = []
parse_pairs (kv ∷ kvs) =
    if is_empty kv
    then parse_pairs kvs
    else record { name = before b'=' kv; value = or_nothing (after_equals kv) ∷ [] }
      ∷ parse_pairs kvs

unfoldable pub parse_query : Bytes → List Header
unfolding parse_pairs split
parse_query q = parse_pairs (split b'&' q)

-- `s[strings.LastIndex(s, "/")+1:]`, from what stands behind the last slash so far.
unfoldable pub behind_slash : Bytes → Bytes → Bytes
behind_slash last [] = last
behind_slash last (c ∷ s) = behind_slash (if c == b'/' then s else last) s

unfoldable pub type_name : Bytes → Bytes
unfolding behind_slash
type_name url = behind_slash url url

abbrev pub to_detail : Any → ErrorDetail
to_detail d = record { kind = type_name d.type_url; value = d.value }

-- The two loops of `applyHeaders`, on the context of a unary handler.
abbrev pub apply_values :
    (Bytes → Bytes → HandlerContext → HandlerContext)
    → Bytes
    → List Bytes
    → HandlerContext
    → HandlerContext
apply_values set_value name [] hc = hc
apply_values set_value name (v ∷ vs) hc = apply_values set_value name vs (set_value name v hc)

abbrev pub apply_all :
    (Bytes → Bytes → HandlerContext → HandlerContext)
    → List Header
    → HandlerContext
    → HandlerContext
apply_all set_value [] hc = hc
apply_all set_value (h ∷ list) hc =
    apply_all set_value list (apply_values set_value h.name h.value hc)

unfoldable pub apply_headers : List Header → Bool → HandlerContext → HandlerContext
unfolding HandlerContext.set_trailer HandlerContext.set_header
apply_headers list true hc = apply_all HandlerContext.set_trailer list hc
apply_headers list false hc = apply_all HandlerContext.set_header list hc

-- The same loops as the calls of a stream handler.
abbrev pub call_values :
    (Bytes → Bytes → Program → Program) → Bytes → List Bytes → Program → Program
call_values set_value name [] rest = rest
call_values set_value name (v ∷ vs) rest = set_value name v (call_values set_value name vs rest)

abbrev pub call_all : (Bytes → Bytes → Program → Program) → List Header → Program → Program
call_all set_value [] rest = rest
call_all set_value (h ∷ list) rest =
    call_values set_value h.name h.value (call_all set_value list rest)

unfoldable pub call_headers : List Header → Bool → Program → Program
call_headers list true rest = call_all set_trailer list rest
call_headers list false rest = call_all set_header list rest

-- What the server uses of its runtimes: `anypb.New` on each request that it echoes, `proto.Marshal`
-- of a RequestInfo with its error dropped, and `time.ParseDuration` with the nanoseconds that it
-- returns, which computes with floats.
pub record Runtime : Type 0 where
  pub pack_unary : UnaryRequest → Any
  pub pack_idempotent : IdempotentUnaryRequest → Any
  pub pack_stream : ServerStreamRequest → Any
  pub marshal_info : RequestInfo → Bytes
  pub parse_duration : Bytes → Option ℤ

-- `ms / time.Millisecond`, towards zero.
abbrev pub negated : ℕ → ℤ
negated zero = pos 0
negated (suc n) = negsuc n

abbrev pub in_milliseconds : ℤ → ℤ
in_milliseconds (pos d) = pos (d / millisecond)
in_milliseconds (negsuc d) = negated (suc d / millisecond)

-- `info.TimeoutMs`, from the header.
abbrev pub timeout_in : Runtime → Bytes → Option ℤ
timeout_in rt t =
    if is_empty t then none else Option.map in_milliseconds (rt.parse_duration (t ++ codes "ms"))

-- `requestInfo` of a request that is packed already. No metadata are nil, as no headers are.
unfoldable pub request_info : Runtime → Context → Any → Headers → Bytes → RequestInfo
unfolding headers_from_context parse_query get
request_info rt ctx message hdrs query =
    let md = headers_from_context ctx in
    let hs = if is_empty_list md then hdrs else md in
    record {
      request_headers = map (λ (e : Entry). record { name = e.0; value = e.1 }) hs;
      timeout_ms = timeout_in rt (get header_timeout hs);
      requests = message ∷ [];
      connect_get_info = if is_empty query then none else some (parse_query query);
    }

-- The detail that carries the echo of the request.
unfoldable pub info_details : Runtime → Option RequestInfo → List ErrorDetail
info_details rt none = []
info_details rt (some info) =
    record {
      kind = codes "connectrpc.conformance.v1.ConformancePayload.RequestInfo";
      value = rt.marshal_info info;
    }
    ∷ []

unfoldable pub to_rpc_error : Runtime → ErrorMessage → Option RequestInfo → RpcError
unfolding type_name info_details
to_rpc_error rt e info = record {
  code = e.code;
  message = or_nothing e.message;
  details = map to_detail e.details ++ info_details rt info;
}
