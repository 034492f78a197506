-- ===== src/Stubs/Delivery/Arriving.antt =====
-- What the server gets of a unary call of a generated client, and that its checks accept it.
use easy_rpc_go.Base.{◌≤◌, ◌≡◌, refl, sym, ◌∙◌, false, List, [], ◌∷◌, length, inl, inr, some, ok}
use easy_rpc_go.Text.{Bytes, codes, eq_text}
use easy_rpc_go.Headers.{Headers, get, values, set, go_headers}
use easy_rpc_go.Frame.{default_max_message_bytes}
use easy_rpc_go.Content.{
  ContentKind, proto, json, content_type_for, content_kind_of, is_stream_content_type,
}
use easy_rpc_go.Server.Calls.{MethodSpec, find_method}
use easy_rpc_go.Server.Dispatch.{path_of, request_encoding, check}
use easy_rpc_go.Server.Dispatch.Computed.{IsComputed-iff}
use easy_rpc_go.Client.Unary.{request_headers}

-- The headers that the server gets of a unary call: those of the stub, of Send and of the adapter.
abbrev pub call_headers : ContentKind → Headers
call_headers kind =
    (codes "Content-Type", content_type_for false kind ∷ [])
    ∷ (codes "Accept-Encoding", codes "gzip" ∷ [])
    ∷ (codes ":method", codes "POST" ∷ [])
    ∷ []

pub call_headers_lem :
    (kind : ContentKind)
    → set (codes ":method") (codes "POST") (
        go_headers
          (request_headers ((codes "Content-Type", content_type_for false kind ∷ []) ∷ [])))
      ≡ call_headers kind
unfolding set go_headers request_headers content_type_for values
call_headers_lem proto = refl
call_headers_lem json = refl

-- What the checks of Dispatch read of these headers.
pub call_headers_read :
    (kind : ContentKind)
    → (get (codes "connect-protocol-version") (call_headers kind) ≡ [])
      × (get (codes ":method") (call_headers kind) ≡ codes "POST")
      × (content_kind_of (get (codes "Content-Type") (call_headers kind)) ≡ some kind)
      × (is_stream_content_type (get (codes "Content-Type") (call_headers kind)) ≡ false)
      × (request_encoding (call_headers kind) ≡ [])
unfolding get content_type_for content_kind_of is_stream_content_type request_encoding
call_headers_read proto = (refl, refl, refl, refl, refl)
call_headers_read json = (refl, refl, refl, refl, refl)

pub accepted :
    (kind : ContentKind) (path body : Bytes) (methods : List MethodSpec) (spec : MethodSpec)
    → find_method (path_of path) methods ≡ some spec
    → spec.server_stream ≡ false
    → length body ≤ default_max_message_bytes
    → check (record { url = path; headers = call_headers kind; body = body }) methods
      ≡ ok (record { spec = spec; kind = kind; is_gzip = false })
unfolding eq_text
accepted kind path body methods spec found unary small =
    let (version, post, codec, shape, encoding) = call_headers_read kind in
    (IsComputed-iff _ methods _).1 (record {
      version = inl version;
      size = small;
      post = inr post;
      method = found;
      codec = codec;
      shape = shape ∙ sym unary;
      encoding = inl encoding;
      gzip = rw encoding refl;
    })
