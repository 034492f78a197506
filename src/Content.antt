-- ===== src/Content.antt =====
-- Content types: the codec and the shape of a call (protocol.go: ContentKindOf,
-- IsStreamContentType, ContentTypeFor, WithKind; server.go: acceptsGzip).
pub mod Laws
use easy_rpc_go.Base.{ℕ, Bool, true, false, ◌||◌, List, [], ◌∷◌, Option, none, some, if◌then◌else◌}
use easy_rpc_go.Text.{Bytes, codes, eq_text, to_lower, trim_space, before, split}

-- The two values of `ContentKind`; the third that `ContentKindOf` returns, "", is `none`.
pub data ContentKind : Type 0 where
  proto json : ContentKind

-- An option of a client call changes the kind it starts with.
abbrev pub CallOption : Type 0
CallOption = ContentKind → ContentKind

unfoldable pub with_kind : ContentKind → CallOption
with_kind kind = λ k. kind

-- `strings.ToLower(strings.TrimSpace(strings.SplitN(contentType, ";", 2)[0]))`.
unfoldable pub media_type : Bytes → Bytes
unfolding to_lower trim_space before
media_type content_type = to_lower (trim_space (before b';' content_type))

unfoldable pub kind_of_media : Bytes → Option ContentKind
unfolding eq_text
kind_of_media ct =
    if eq_text ct (codes "application/proto") || eq_text ct (codes "application/connect+proto")
    then some proto
    else if eq_text ct (codes "application/json") || eq_text ct (codes "application/connect+json")
    then some json
    else none

unfoldable pub content_kind_of : Bytes → Option ContentKind
unfolding media_type kind_of_media
content_kind_of content_type = kind_of_media (media_type content_type)

unfoldable pub is_stream_media : Bytes → Bool
unfolding eq_text
is_stream_media ct =
    eq_text ct (codes "application/connect+proto") || eq_text ct (codes "application/connect+json")

unfoldable pub is_stream_content_type : Bytes → Bool
unfolding media_type is_stream_media
is_stream_content_type content_type = is_stream_media (media_type content_type)

unfoldable pub content_type_for : Bool → ContentKind → Bytes
content_type_for true json = codes "application/connect+json"
content_type_for false json = codes "application/json"
content_type_for true proto = codes "application/connect+proto"
content_type_for false proto = codes "application/proto"

-- `strings.TrimSpace(e) == EncodingGzip` for one element of the list.
unfoldable pub any_gzip : List Bytes → Bool
unfolding eq_text trim_space
any_gzip [] = false
any_gzip (e ∷ es) = eq_text (trim_space e) (codes "gzip") || any_gzip es

-- `acceptsGzip`, and the loop over the same values that `Dispatch` writes out for streams.
unfoldable pub accepts_gzip : List Bytes → Bool
unfolding any_gzip split
accepts_gzip [] = false
accepts_gzip (v ∷ vals) = any_gzip (split b',' v) || accepts_gzip vals
