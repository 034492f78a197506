-- ===== src/Server/Dispatch/Named.antt =====
-- What the functions in front of a handler compute, said of the texts of the request: the method, the
-- media type and the encoding.
use easy_rpc_go.Base.{
  ◌≡◌, ◌≢◌, refl, sym, ap, ◌∙◌, ◌↔◌, ◌⊎◌, inl, inr, arith, Bool, true, false, List, [], ◌∷◌, ◌++◌,
  some, All, Bool-cases, if◌then◌else◌,
}
use easy_rpc_go.Text.{Bytes, codes, eq_text, is_empty, to_lower, trim_space, before}
use easy_rpc_go.Text.Laws.{eq_text_iff}
use easy_rpc_go.Text.Trim.{Spells, trimmed_iff, trim_space-to_lower, IsCut, before_iff}
use easy_rpc_go.Headers.{Headers, get}
use easy_rpc_go.Content.{
  ContentKind, proto, json, media_type, kind_of_media, content_kind_of, is_stream_media,
  is_stream_content_type,
}
use easy_rpc_go.Server.Calls.{MethodSpec, find_method}
use easy_rpc_go.Server.Dispatch.{path_of, request_encoding}
use easy_rpc_go.Server.Dispatch.Computed.{OneOf}

-- The media types of the two codecs, for calls with one response and for streams.
abbrev pub media_name : Bool → ContentKind → Bytes
media_name false proto = codes "application/proto"
media_name false json = codes "application/json"
media_name true proto = codes "application/connect+proto"
media_name true json = codes "application/connect+json"

-- The content type names a media type in front of its parameters.
abbrev pub IsMedia : Bytes → Bytes → Type 0
IsMedia content_type media = (head : Bytes) × IsCut b';' content_type head × Spells head media

-- The first method with the path of the URL, which is the URL up to its query.
abbrev pub IsFirst : Bytes → List MethodSpec → MethodSpec → Type 0
IsFirst url methods m =
    IsCut b'?' url m.path
    × ((front : List MethodSpec) × (back : List MethodSpec) × (methods ≡ front ++ m ∷ back)
        × All (λ other. other.path ≢ m.path) front)

-- Content-Encoding counts, or Connect-Content-Encoding where that says nothing.
abbrev pub IsGzip : Bytes → Bytes → Type 0
IsGzip unary stream = Spells unary (codes "gzip") ⊎ (Spells unary [] × Spells stream (codes "gzip"))

abbrev pub IsPlain : Bytes → Bytes → Type 0
IsPlain unary stream =
    Spells unary (codes "identity")
    ⊎ (Spells unary [] × (Spells stream [] ⊎ Spells stream (codes "identity")))

abbrev pub IsEncoded : Bool → Bytes → Bytes → Type 0
IsEncoded true unary stream = IsGzip unary stream
IsEncoded false unary stream = IsPlain unary stream

found_first :
    (path : Bytes) (methods : List MethodSpec) (m : MethodSpec)
    → find_method path methods ≡ some m
    → (m.path ≡ path)
      × ((front : List MethodSpec) × (back : List MethodSpec) × (methods ≡ front ++ m ∷ back)
          × All (λ other. other.path ≢ m.path) front)
unfolding find_method
found_first path [] m e = cc e
found_first path (n ∷ methods) m e = elim (Bool-cases (eq_text n.path path)) [
  | inl same ↦
      let it : n ≡ m = grind (arith, e, same) in
      (
        ap (λ (x : MethodSpec). x.path) (sym it) ∙ (eq_text_iff n.path path).0 same,
        ([], methods, ap (λ x. x ∷ methods) it, tt),
      )
  | inr other ↦
      let (path_m, (front, back, split, earlier)) =
        found_first path methods m (grind (arith, e, other)) in
      (
        path_m,
        (
          n ∷ front,
          back,
          ap (λ ms. n ∷ ms) split,
          ((λ same. grind (arith, other, eq_text_iff n.path path, same, path_m)), earlier),
        ),
      )
]

first_found :
    (path : Bytes) (front back : List MethodSpec) (m : MethodSpec)
    → m.path ≡ path
    → All (λ other. other.path ≢ m.path) front
    → find_method path (front ++ m ∷ back) ≡ some m
unfolding find_method
first_found path [] back m e h = rw ((eq_text_iff m.path path).1 e) refl
first_found path (n ∷ front) back m e (ne, h) =
    let differs : eq_text n.path path ≡ false = ground (arith, ne, e, eq_text_iff n.path path) in
    rw differs (first_found path front back m e h)

media_complete :
    (stream : Bool) (kind : ContentKind)
    → (kind_of_media (media_name stream kind) ≡ some kind)
      × (is_stream_media (media_name stream kind) ≡ stream)
unfolding kind_of_media is_stream_media eq_text
media_complete true proto = (refl, refl)
media_complete true json = (refl, refl)
media_complete false proto = (refl, refl)
media_complete false json = (refl, refl)

a_media :
    (media : Bytes) (kind : ContentKind)
    → kind_of_media media ≡ some kind
    → (b : Bool) × (k : ContentKind) × (media ≡ media_name b k)
unfolding kind_of_media
a_media media kind e = elim (Bool-cases (eq_text media (codes "application/proto"))) [
  | inl same ↦ (false, proto, (eq_text_iff media _).0 same)
  | inr no1 ↦ elim (Bool-cases (eq_text media (codes "application/connect+proto"))) [
    | inl same ↦ (true, proto, (eq_text_iff media _).0 same)
    | inr no2 ↦ elim (Bool-cases (eq_text media (codes "application/json"))) [
      | inl same ↦ (false, json, (eq_text_iff media _).0 same)
      | inr no3 ↦ elim (Bool-cases (eq_text media (codes "application/connect+json"))) [
        | inl same ↦ (true, json, (eq_text_iff media _).0 same)
        | inr no4 ↦ grind (arith, e, no1, no2, no3, no4)
      ]
    ]
  ]
]

known_media :
    (media : Bytes) (stream : Bool) (kind : ContentKind) (b : Bool) (k : ContentKind)
    → kind_of_media media ≡ some kind
    → is_stream_media media ≡ stream
    → media ≡ media_name b k
    → media ≡ media_name stream kind
known_media media stream kind b k e f same =
    let (e', f') = media_complete b k in
    let kinds : k ≡ kind = cc (e, e', same) in
    let streams : b ≡ stream = cc (f, f', same) in same ∙ cc (kinds, streams)

media_sound :
    (media : Bytes) (stream : Bool) (kind : ContentKind)
    → kind_of_media media ≡ some kind
    → is_stream_media media ≡ stream
    → media ≡ media_name stream kind
media_sound media stream kind e f =
    let (b, k, same) = a_media media kind e in known_media media stream kind b k e f same

media_tight :
    (stream : Bool) (kind : ContentKind)
    → trim_space (media_name stream kind) ≡ media_name stream kind
unfolding trim_space
media_tight true proto = refl
media_tight true json = refl
media_tight false proto = refl
media_tight false json = refl

-- What the functions compute of the content type, said of its text.
pub IsMedia-iff :
    (content_type : Bytes) (stream : Bool) (kind : ContentKind)
    → ((content_kind_of content_type ≡ some kind) × (is_stream_content_type content_type ≡ stream))
      ↔ IsMedia content_type (media_name stream kind)
unfolding content_kind_of is_stream_content_type media_type
IsMedia-iff content_type stream kind =
    let head = before b';' content_type in
    let commute = trim_space-to_lower head in
    (
      (λ (e, f). (
        head,
        (before_iff b';' content_type head).0 refl,
        (trimmed_iff head (media_name stream kind) (media_tight stream kind)).0
            (commute ∙ media_sound (to_lower (trim_space head)) stream kind e f),
      )),
      λ (text, cut, spells).
          let same = (before_iff b';' content_type text).1 cut in
          let named =
            ap (λ t. to_lower (trim_space t)) same
            ∙ sym (trim_space-to_lower text)
            ∙ (trimmed_iff text (media_name stream kind) (media_tight stream kind)).1 spells in
          rw named (media_complete stream kind),
    )

-- The encoding that the two trimmed values stand for.
abbrev chosen : Bytes → Bytes → Bytes
chosen unary stream =
    let enc = if is_empty unary then stream else unary in
    if eq_text enc (codes "identity") then [] else enc

chosen-gzip :
    (unary stream : Bytes)
    → (chosen unary stream ≡ codes "gzip")
      ↔ ((unary ≡ codes "gzip") ⊎ ((unary ≡ []) × (stream ≡ codes "gzip")))
chosen-gzip [] stream = ground (arith, eq_text_iff stream (codes "identity"))
chosen-gzip (c ∷ unary) stream = ground (arith, eq_text_iff (c ∷ unary) (codes "identity"))

chosen-plain :
    (unary stream : Bytes)
    → (chosen unary stream ≡ []) ↔ (
        (unary ≡ codes "identity") ⊎ ((unary ≡ []) × ((stream ≡ []) ⊎ (stream ≡ codes "identity"))))
chosen-plain [] stream = ground (arith, eq_text_iff stream (codes "identity"))
chosen-plain (c ∷ unary) stream = ground (arith, eq_text_iff (c ∷ unary) (codes "identity"))

IsGzip-iff :
    (h : Headers)
    → (request_encoding h ≡ codes "gzip")
      ↔ IsGzip (get (codes "content-encoding") h) (get (codes "connect-content-encoding") h)
unfolding request_encoding trim_space
IsGzip-iff h =
    let u = get (codes "content-encoding") h in
    let s = get (codes "connect-content-encoding") h in
    let c = chosen-gzip (trim_space (to_lower u)) (trim_space (to_lower s)) in
    let ug = trimmed_iff u (codes "gzip") refl in
    let un = trimmed_iff u [] refl in
    let sg = trimmed_iff s (codes "gzip") refl in ground (arith, c, ug, un, sg)

IsPlain-iff :
    (h : Headers)
    → (request_encoding h ≡ [])
      ↔ IsPlain (get (codes "content-encoding") h) (get (codes "connect-content-encoding") h)
unfolding request_encoding trim_space
IsPlain-iff h =
    let u = get (codes "content-encoding") h in
    let s = get (codes "connect-content-encoding") h in
    let c = chosen-plain (trim_space (to_lower u)) (trim_space (to_lower s)) in
    let ui = trimmed_iff u (codes "identity") refl in
    let un = trimmed_iff u [] refl in
    let si = trimmed_iff s (codes "identity") refl in
    let sn = trimmed_iff s [] refl in ground (arith, c, ui, un, si, sn)

pub IsEncoded-iff :
    (h : Headers) (gzip : Bool)
    → (OneOf (request_encoding h) (codes "gzip")
        × (gzip ≡ eq_text (request_encoding h) (codes "gzip")))
      ↔ IsEncoded gzip (get (codes "content-encoding") h) (get (codes "connect-content-encoding") h)
IsEncoded-iff h true = ground (arith, IsGzip-iff h, eq_text_iff (request_encoding h) (codes "gzip"))
IsEncoded-iff h false =
    ground (arith, IsPlain-iff h, eq_text_iff (request_encoding h) (codes "gzip"))

pub IsFirst-iff :
    (url : Bytes) (methods : List MethodSpec) (m : MethodSpec)
    → (find_method (path_of url) methods ≡ some m) ↔ IsFirst url methods m
unfolding path_of
IsFirst-iff url methods m = (
  (λ e.
      let (path, found) = found_first (before b'?' url) methods m e in
      ((before_iff b'?' url m.path).0 (sym path), found)),
  λ (cut, (front, back, split, earlier)).
      let path = (before_iff b'?' url m.path).1 cut in
      ap (find_method (before b'?' url)) split
      ∙ first_found (before b'?' url) front back m (sym path) earlier,
)
