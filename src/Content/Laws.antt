-- ===== src/Content/Laws.antt =====
-- Content types against one another.
use easy_rpc_go.Base.{◌≡◌, ◌≢◌, refl, arith, Bool, true, false, ◌∷◌, ◌++◌, none, some}
use easy_rpc_go.Text.{Bytes}
use easy_rpc_go.Content.{
  ContentKind, proto, json, content_kind_of, is_stream_content_type, content_type_for,
}

-- The content type that a side writes is read by the other as the codec and shape that were meant,
-- whatever parameters follow it behind a semicolon.
pub content_kind_of-content_type_for :
    (shape : Bool) (kind : ContentKind) (params : Bytes)
    → (content_kind_of (content_type_for shape kind ++ b';' ∷ params) ≡ some kind)
      × (is_stream_content_type (content_type_for shape kind ++ b';' ∷ params) ≡ shape)
unfolding content_kind_of is_stream_content_type content_type_for
content_kind_of-content_type_for true proto params = (refl, refl)
content_kind_of-content_type_for true json params = (refl, refl)
content_kind_of-content_type_for false proto params = (refl, refl)
content_kind_of-content_type_for false json params = (refl, refl)

-- A streaming content type always names a codec.
pub is_stream-content_kind_of :
    (ct : Bytes) → is_stream_content_type ct ≡ true → content_kind_of ct ≢ none
unfolding content_kind_of is_stream_content_type
is_stream-content_kind_of ct h = ground (arith)
