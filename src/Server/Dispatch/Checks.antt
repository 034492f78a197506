-- ===== src/Server/Dispatch/Checks.antt =====
-- Which requests reach a handler, said of the texts of the request.
use easy_rpc_go.Base.{◌≤◌, ◌≡◌, ◌↔◌, List, ok, length}
use easy_rpc_go.Text.{codes}
use easy_rpc_go.Headers.{get}
use easy_rpc_go.Frame.{default_max_message_bytes}
use easy_rpc_go.Message.{Request}
use easy_rpc_go.Server.Calls.{MethodSpec}
use easy_rpc_go.Server.Dispatch.{Accepted, check}
use easy_rpc_go.Server.Dispatch.Computed.{OneOf, IsComputed, IsComputed-iff}
use easy_rpc_go.Server.Dispatch.Named.{
  media_name, IsMedia, IsFirst, IsEncoded, IsMedia-iff, IsEncoded-iff, IsFirst-iff,
}

-- What Dispatch demands of a request in front of a handler, and what it finds out.
pub record IsAccepted (req : Request) (methods : List MethodSpec) (a : Accepted) : Type 0 where
  pub version : OneOf (get (codes "connect-protocol-version") req.headers) (codes "1")
  pub size : length req.body ≤ default_max_message_bytes
  pub post : OneOf (get (codes ":method") req.headers) (codes "POST")
  pub method : IsFirst req.url methods a.spec
  pub codec :
      IsMedia (get (codes "Content-Type") req.headers) (media_name a.spec.server_stream a.kind)
  pub encoding :
      IsEncoded a.is_gzip
        (get (codes "content-encoding") req.headers)
        (get (codes "connect-content-encoding") req.headers)

IsAccepted-sound :
    (req : Request) (methods : List MethodSpec) (a : Accepted)
    → IsComputed req methods a
    → IsAccepted req methods a
IsAccepted-sound req methods a c = record {
  version = c.version;
  size = c.size;
  post = c.post;
  method = (IsFirst-iff req.url methods a.spec).0 c.method;
  codec = (IsMedia-iff _ a.spec.server_stream a.kind).0 (c.codec, c.shape);
  encoding = (IsEncoded-iff req.headers a.is_gzip).0 (c.encoding, c.gzip);
}

IsAccepted-complete :
    (req : Request) (methods : List MethodSpec) (a : Accepted)
    → IsAccepted req methods a
    → IsComputed req methods a
IsAccepted-complete req methods a h =
    let (codec, shape) = (IsMedia-iff _ a.spec.server_stream a.kind).1 h.codec in
    let (encoding, gzip) = (IsEncoded-iff req.headers a.is_gzip).1 h.encoding in
    record {
      version = h.version;
      size = h.size;
      post = h.post;
      method = (IsFirst-iff req.url methods a.spec).1 h.method;
      codec = codec;
      shape = shape;
      encoding = encoding;
      gzip = gzip;
    }

-- A request passes the checks of Dispatch, with a method, a codec and a decision on gzip, exactly
-- if its protocol version is 1 or not given, its body keeps the limit, its method is POST or not
-- given, the method is the first whose path is the URL up to its query, the content type is, in any
-- case and with white space around it or parameters behind it, the media type of the codec and the
-- method's shape, and the encoding is, in any case and with white space around it, gzip for the
-- decision on gzip and identity or not given for the other, in Connect-Content-Encoding where
-- Content-Encoding is not given.
pub check_iff :
    (req : Request) (methods : List MethodSpec) (a : Accepted)
    → (check req methods ≡ ok a) ↔ IsAccepted req methods a
check_iff req methods a =
    let (sound, complete) = IsComputed-iff req methods a in
    (
      λ e. IsAccepted-sound req methods a (sound e),
      λ h. complete (IsAccepted-complete req methods a h),
    )
