-- ===== src/Wire/Details.antt =====
-- Error details in their JSON shape (protocol.go: encodeWireDetails, decodeWireDetails).
use easy_rpc_go.Base.{
  Bool, ◌||◌, not, List, [], ◌∷◌, Option, none, some, ◌≡◌, refl, arith, if◌then◌else◌, All, IsByte,
}
use easy_rpc_go.Text.{Bytes, is_empty}
use easy_rpc_go.Code.{ErrorDetail}
use easy_rpc_go.Base64.{encode, decode_wire_base64}
use easy_rpc_go.Base64.RoundTrip.{decode_wire_base64-encode}
use easy_rpc_go.Wire.Structs.{WireDetail}

unfoldable pub encode_wire_details : List ErrorDetail → List WireDetail
unfolding encode
encode_wire_details [] = []
encode_wire_details (d ∷ ds) =
    record { kind = d.kind; value = encode d.value } ∷ encode_wire_details ds

abbrev pub with_value : Bytes → Option Bytes → List ErrorDetail → List ErrorDetail
with_value kind none out = out
with_value kind (some raw) out = record { kind = kind; value = raw } ∷ out

unfoldable pub decode_wire_details : List WireDetail → List ErrorDetail
decode_wire_details [] = []
decode_wire_details (d ∷ ds) =
    let rest = decode_wire_details ds in
    if is_empty d.kind || is_empty d.value
    then rest
    else with_value d.kind (decode_wire_base64 d.value) rest

-- The details that the other side gets: those with a type and a value that are not empty.
abbrev pub is_kept : ErrorDetail → Bool
is_kept d = not (is_empty d.kind || is_empty d.value)

unfoldable pub kept : List ErrorDetail → List ErrorDetail
kept [] = []
kept (d ∷ ds) = let rest = kept ds in if is_kept d then d ∷ rest else rest

is_empty-encode : (s : Bytes) → is_empty (encode s) ≡ is_empty s
unfolding encode
is_empty-encode [] = refl
is_empty-encode (a ∷ []) = refl
is_empty-encode (a ∷ b ∷ []) = refl
is_empty-encode (a ∷ b ∷ c ∷ s) = refl

-- Details whose values are bytes come back in their order, but for those with an empty type or an
-- empty value.
pub decode_wire_details-encode_wire_details :
    (ds : List ErrorDetail)
    → All (λ d. All IsByte d.value) ds
    → decode_wire_details (encode_wire_details ds) ≡ kept ds
unfolding decode_wire_details encode_wire_details kept
decode_wire_details-encode_wire_details [] h = refl
decode_wire_details-encode_wire_details (d ∷ ds) (b, h) =
    rw
      (
        is_empty-encode d.value,
        decode_wire_base64-encode d.value b,
        decode_wire_details-encode_wire_details ds h,
      )
      (ground arith)
