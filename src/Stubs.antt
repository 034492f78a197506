-- ===== src/Stubs.antt =====
-- What protoc-gen-easyrpc-go writes for a service (the *.easyrpc.go files): encodeMsg, decodeMsg,
-- the handlers that Register puts into the registry, and the methods of the client. Their text is
-- the same for each method but for names and types, which are arguments here. The runtimes of
-- protobuf are a parameter. A service shares its `HandlerContext` with Dispatch, and returns it as
-- it left it.
pub mod Conformance
pub mod Official
pub mod Registered
pub mod Delivery
use easy_rpc_go.Base.{true, false, List, [], ◌∷◌, none, some, Result, ok, err, if◌then◌else◌}
use easy_rpc_go.Text.{Bytes, codes, eq_text}
use easy_rpc_go.Code.{Error, rpc}
use easy_rpc_go.Frame.{frame}
use easy_rpc_go.Message.{Request, Response}
use easy_rpc_go.Content.{ContentKind, proto, json, CallOption, content_type_for}
use easy_rpc_go.HandlerContext.{HandlerContext}
use easy_rpc_go.Server.Calls.{
  Context, UnaryHandler, Program, return, StreamHandler, ServiceRegistry,
}
use easy_rpc_go.Client.Interceptors.{Transport}

-- `proto.Marshal`, `proto.Unmarshal` into an empty message, and the two of protojson, which skips
-- fields that it does not know.
pub record MessageCodec (M : Type 0) : Type 0 where
  pub marshal : M → Result Error Bytes
  pub unmarshal : Bytes → Result Error M
  pub marshal_json : M → Result Error Bytes
  pub unmarshal_json : Bytes → Result Error M

abbrev pub bytes_or : Bytes → Result Error Bytes → Bytes
bytes_or default (ok b) = b
bytes_or default (err e) = default

-- `protoBytes`: the bytes of a message that Marshal refuses are nil.
unfoldable pub proto_bytes : {M : Type 0} → MessageCodec M → M → Bytes
proto_bytes c m = bytes_or [] (c.marshal m)

unfoldable pub encode_msg : {M : Type 0} → MessageCodec M → M → ContentKind → Bytes
unfolding proto_bytes
encode_msg c m json = bytes_or (codes "{}") (c.marshal_json m)
encode_msg c m proto = proto_bytes c m

unfoldable pub decode_msg : {M : Type 0} → MessageCodec M → Bytes → ContentKind → Result Error M
decode_msg c b json = c.unmarshal_json b
decode_msg c b proto = c.unmarshal b

-- A unary method of a service, and a stream method. The latter gets the encoding in which its
-- `emit` sends a message as one that does not end the stream.
abbrev pub UnaryMethod : Type 0 → Type 0 → Type 0
UnaryMethod I O = Context → I → Result Error O × HandlerContext

abbrev pub StreamMethod : Type 0 → Type 0 → Type 0
StreamMethod I O = Context → I → (O → Bytes) → Program

module _ {O : Type 0} (response : MessageCodec O) where
  -- What stands behind the call of the service.
  abbrev pub encoded :
      ContentKind → Result Error O × HandlerContext → Result Error Bytes × HandlerContext
  encoded kind (err e, hc) = (err e, hc)
  encoded kind (ok out, hc) = (ok (encode_msg response out kind), hc)

  -- What a method of the client makes of the transport's result.
  unfoldable pub received : ContentKind → Result Error Response → Result Error O
  unfolding decode_msg
  received kind (err e) = err e
  received kind (ok resp) = elim resp.error [
    | some e ↦ err (rpc e)
    | none ↦ decode_msg response resp.body kind
  ]

module _ {I O : Type 0} (request : MessageCodec I) (response : MessageCodec O) where
  -- What stands behind the decoding of the request.
  abbrev pub call_decoded :
      UnaryMethod I O → Context → Result Error I → Result Error Bytes × HandlerContext
  call_decoded method ctx (err e) = (err e, ctx.handler)
  call_decoded method ctx (ok message) = encoded response ctx.handler.kind (method ctx message)

  -- The handler `reg.Unary[name]`.
  unfoldable pub unary_handler : UnaryMethod I O → UnaryHandler
  unfolding decode_msg encode_msg
  unary_handler method ctx req = call_decoded method ctx (decode_msg request req ctx.handler.kind)

  abbrev pub stream_decoded : StreamMethod I O → Context → Result Error I → Program
  stream_decoded method ctx (err e) = return (some e)
  stream_decoded method ctx (ok message) =
      method ctx message (λ out. encode_msg response out ctx.handler.kind)

  -- The handler `reg.Stream[name]`.
  unfoldable pub stream_handler : StreamMethod I O → StreamHandler
  unfolding decode_msg encode_msg
  stream_handler method ctx req =
      stream_decoded method ctx (decode_msg request req ctx.handler.kind)

-- An assignment to the registry: `reg.Unary[name] = h` or `reg.Stream[name] = h`.
pub data Registration : Type 0 where
  unary : Bytes → UnaryHandler → Registration
  stream : Bytes → StreamHandler → Registration

abbrev pub assign : Registration → ServiceRegistry → ServiceRegistry
assign (unary name h) reg = record reg {
  unary = λ n. if eq_text n name then some h else reg.unary n;
}
assign (stream name h) reg = record reg {
  stream = λ n. if eq_text n name then some h else reg.stream n;
}

-- The assignments of a Register function, one after the other.
abbrev pub assign_all : List Registration → ServiceRegistry → ServiceRegistry
assign_all [] reg = reg
assign_all (r ∷ rs) reg = assign_all rs (assign r reg)

-- `for _, o := range opts { o(&kind) }`.
abbrev pub apply_options : List CallOption → ContentKind → ContentKind
apply_options [] kind = kind
apply_options (o ∷ opts) kind = apply_options opts (o kind)

-- The request of a unary call, and that of a stream.
unfoldable pub unary_request : {I : Type 0} → MessageCodec I → Bytes → I → ContentKind → Request
unfolding encode_msg content_type_for
unary_request request path message kind = record {
  url = path;
  headers = (codes "Content-Type", content_type_for false kind ∷ []) ∷ [];
  body = encode_msg request message kind;
}

unfoldable pub stream_request : {I : Type 0} → MessageCodec I → Bytes → I → ContentKind → Request
unfolding encode_msg content_type_for
stream_request request path message kind = record {
  url = path;
  headers = (codes "Content-Type", content_type_for true kind ∷ []) ∷ [];
  body = frame (encode_msg request message kind) false;
}

module _ {C S I : Type 0} (request : MessageCodec I) where
  -- A unary method of the client.
  unfoldable pub call_unary :
      {O : Type 0}
      → MessageCodec O
      → Bytes
      → Transport C (Result Error Response) S
      → C
      → I
      → List CallOption
      → Result Error O
  unfolding unary_request received
  call_unary response path rt ctx message opts =
      let kind = apply_options opts proto in
      received response kind (rt.send ctx (unary_request request path message kind))

  -- A stream method of the client.
  unfoldable pub call_stream : {R : Type 0} → Bytes → Transport C R S → C → I → List CallOption → S
  unfolding stream_request
  call_stream path rt ctx message opts =
      let kind = apply_options opts proto in
      rt.open_stream ctx (stream_request request path message kind)
