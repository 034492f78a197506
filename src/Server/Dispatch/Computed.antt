-- ===== src/Server/Dispatch/Computed.antt =====
-- Which requests reach a handler, in the terms of the functions of Dispatch.
use easy_rpc_go.Base.{
  ◌≤◌, ◌≡◌, refl, sym, ap, ◌∙◌, ◌↔◌, ◌⊎◌, inl, inr, arith, Bool, true, false, List, [], ◌∷◌, Option,
  none, some, Result, ok, length, Bool-cases, Option-cases,
}
use easy_rpc_go.Text.{Bytes, codes, eq_text}
use easy_rpc_go.Text.Laws.{eq_text_iff}
use easy_rpc_go.Headers.{Headers, get}
use easy_rpc_go.Frame.{default_max_message_bytes}
use easy_rpc_go.Message.{Request}
use easy_rpc_go.Content.{ContentKind, content_kind_of, is_stream_content_type}
use easy_rpc_go.Server.Calls.{MethodSpec, find_method}
use easy_rpc_go.Server.Dispatch.{
  Refusal, Accepted, is_other, guard, check_version, check_size, check_post, path_of, negotiate,
  request_encoding, check_encoding, check_kind, check_codec, check_method, unless, check,
}

-- A header that is missing, empty or the value.
abbrev pub OneOf : Bytes → Bytes → Type 0
OneOf x value = (x ≡ []) ⊎ (x ≡ value)

-- What the functions in front of a handler compute for a request that reaches one.
pub record IsComputed (req : Request) (methods : List MethodSpec) (a : Accepted) : Type 0 where
  pub version : OneOf (get (codes "connect-protocol-version") req.headers) (codes "1")
  pub size : length req.body ≤ default_max_message_bytes
  pub post : OneOf (get (codes ":method") req.headers) (codes "POST")
  pub method : find_method (path_of req.url) methods ≡ some a.spec
  pub codec : content_kind_of (get (codes "Content-Type") req.headers) ≡ some a.kind
  pub shape : is_stream_content_type (get (codes "Content-Type") req.headers) ≡ a.spec.server_stream
  pub encoding : OneOf (request_encoding req.headers) (codes "gzip")
  pub gzip : a.is_gzip ≡ eq_text (request_encoding req.headers) (codes "gzip")

is_other_iff : (x v : Bytes) → (is_other x v ≡ false) ↔ OneOf x v
unfolding is_other
is_other_iff [] v = (λ h. inl refl, λ h. refl)
is_other_iff (c ∷ x) v = ground (arith, eq_text_iff (c ∷ x) v)

unless_ok :
    {A : Type 0} (o : Option Refusal) (rest : Result Refusal A) (a : A)
    → unless o rest ≡ ok a
    → (o ≡ none) × (rest ≡ ok a)
unless_ok (some r) rest a e = ground arith
unless_ok none rest a e = (refl, e)

guard-none : (t : Bool) (r : Refusal) → guard t r ≡ none → t ≡ false
guard-none true r e = ground arith
guard-none false r e = refl

negotiate_ok :
    (spec : MethodSpec) (ct : Bytes) (kind : ContentKind)
    → negotiate spec ct ≡ some kind
    → (content_kind_of ct ≡ some kind) × (is_stream_content_type ct ≡ spec.server_stream)
unfolding negotiate
negotiate_ok spec ct kind e = elim (Option-cases (content_kind_of ct)) [
  | inl n ↦ ground (arith)
  | inr (k, n) ↦ elim (Bool-cases (is_stream_content_type ct)) [
    | inl s ↦ ground (arith)
    | inr s ↦ ground (arith)
  ]
]

version_sound :
    (h : Headers)
    → check_version h ≡ none
    → OneOf (get (codes "connect-protocol-version") h) (codes "1")
unfolding check_version
version_sound h e = (is_other_iff _ _).0 (guard-none _ _ e)

size_sound : (s : Bytes) → check_size s ≡ none → length s ≤ default_max_message_bytes
unfolding check_size
size_sound s e = ground (arith, guard-none _ _ e)

post_sound : (h : Headers) → check_post h ≡ none → OneOf (get (codes ":method") h) (codes "POST")
unfolding check_post
post_sound h e = (is_other_iff _ _).0 (guard-none _ _ e)

encoding_sound : (enc : Bytes) → check_encoding enc ≡ none → OneOf enc (codes "gzip")
unfolding check_encoding
encoding_sound enc e = (is_other_iff _ _).0 (guard-none _ _ e)

-- What the checks behind the method return for a codec.
abbrev found : MethodSpec → Headers → ContentKind → Accepted
found spec h kind = record {
  spec = spec;
  kind = kind;
  is_gzip = eq_text (request_encoding h) (codes "gzip");
}

kind_sound :
    (spec : MethodSpec) (h : Headers) (o : Option ContentKind) (a : Accepted)
    → check_kind spec h o ≡ ok a
    → (o ≡ some a.kind) × (check_encoding (request_encoding h) ≡ none) × (found spec h a.kind ≡ a)
unfolding check_kind
kind_sound spec h none a e = ground arith
kind_sound spec h (some kind) a e =
    let (enc, made) = unless_ok (check_encoding (request_encoding h)) _ a e in
    let same_found : found spec h kind ≡ a = cc made in
    (
      ap (λ (x : Accepted). some x.kind) same_found,
      enc,
      ap (λ k. found spec h k) (sym (ap (λ (x : Accepted). x.kind) same_found)) ∙ same_found,
    )

method_sound :
    (o : Option MethodSpec) (h : Headers) (a : Accepted)
    → check_method o h ≡ ok a
    → (o ≡ some a.spec) × (check_codec a.spec h ≡ ok a)
unfolding check_method check_codec
method_sound none h a e = ground arith
method_sound (some spec) h a e =
    let (kind, enc, made) = kind_sound spec h _ a e in
    let from = ap (λ (x : Accepted). x.spec) made in
    (ap some from, sym (ap (λ s. check_codec s h) from) ∙ e)

-- A request that passes meets the demands.
IsComputed-sound :
    (req : Request) (methods : List MethodSpec) (a : Accepted)
    → check req methods ≡ ok a
    → IsComputed req methods a
unfolding check check_codec
IsComputed-sound req methods a e =
    let (version, e1) = unless_ok (check_version req.headers) _ a e in
    let (size, e2) = unless_ok (check_size req.body) _ a e1 in
    let (post, e3) = unless_ok (check_post req.headers) _ a e2 in
    let (method, e4) = method_sound (find_method (path_of req.url) methods) req.headers a e3 in
    let (kind, enc, made) = kind_sound a.spec req.headers _ a e4 in
    let (codec, shape) = negotiate_ok a.spec (get (codes "Content-Type") req.headers) a.kind kind in
    record {
      version = version_sound req.headers version;
      size = size_sound req.body size;
      post = post_sound req.headers post;
      method = method;
      codec = codec;
      shape = shape;
      encoding = encoding_sound (request_encoding req.headers) enc;
      gzip = sym (ap (λ (x : Accepted). x.is_gzip) made);
    }

unless_none :
    {A : Type 0} (t : Bool) (r : Refusal) (rest : Result Refusal A)
    → t ≡ false
    → unless (guard t r) rest ≡ rest
unless_none true r rest e = ground arith
unless_none false r rest e = refl

negotiate_complete :
    (spec : MethodSpec) (ct : Bytes) (kind : ContentKind)
    → content_kind_of ct ≡ some kind
    → is_stream_content_type ct ≡ spec.server_stream
    → negotiate spec ct ≡ some kind
unfolding negotiate
negotiate_complete spec ct kind e shape = ground arith

-- A request that meets the demands passes.
IsComputed-complete :
    (req : Request) (methods : List MethodSpec) (a : Accepted)
    → IsComputed req methods a
    → check req methods ≡ ok a
unfolding check check_version check_size check_post check_method check_codec check_kind
    check_encoding
IsComputed-complete req methods a h =
    unless_none _ _ _ ((is_other_iff _ _).1 h.version)
    ∙ unless_none _ _ _ (ground (arith, h.size))
    ∙ unless_none _ _ _ ((is_other_iff _ _).1 h.post)
    ∙ rw (h.method, negotiate_complete a.spec _ a.kind h.codec h.shape)
        (unless_none _ _ _ ((is_other_iff _ _).1 h.encoding)
          ∙ ap (λ g. ok (record a { is_gzip = g })) (sym h.gzip))

-- A request passes the checks exactly if the functions compute that for it.
pub IsComputed-iff :
    (req : Request) (methods : List MethodSpec) (a : Accepted)
    → (check req methods ≡ ok a) ↔ IsComputed req methods a
IsComputed-iff req methods a = (IsComputed-sound req methods a, IsComputed-complete req methods a)
