-- ===== src/Wire/Messages.antt =====
-- Whole messages over the wire: which of a message arrives.
use easy_rpc_go.Base.{
  ℕ, ◌+◌, ◌*◌, ◌/◌, ◌%◌, ◌<◌, ◌≡◌, refl, arith, false, ◌&&◌, List, [], ◌∷◌, if◌then◌else◌, All,
  IsByte, Bool-cases, inl, inr,
}
use easy_rpc_go.Base.Distinct.{Distinct, All-perm}
use easy_rpc_go.Base.Int.{ℤ, pos, negsuc, is_zero}
use easy_rpc_go.Text.{Bytes, codes, is_empty}
use easy_rpc_go.Code.{ErrorDetail, code_to_string, code_from_string, code_names, name_in}
use easy_rpc_go.Base64.{encode, sextet_char}
use easy_rpc_go.Headers.{Headers, name}
use easy_rpc_go.Json.{IsPlain, Marshals, MarshalsItems, MarshalsMembers}
use easy_rpc_go.Wire.Structs.{EndStreamMessage, clean_end}
use easy_rpc_go.Wire.Details.{encode_wire_details, kept, decode_wire_details-encode_wire_details}
use easy_rpc_go.Wire.Marshal.{
  detail_items, details_member, error_json, value_items, sort_entries, entry_members,
  metadata_member,
}
use easy_rpc_go.Wire.RoundTrip.{sort_entries-perm}
use easy_rpc_go.Wire.Codec.{to_end_stream_json, of_end_stream_json, no_details}

-- What makes a message plain: its texts are ASCII and its values are bytes.
pub record IsPlainMessage (m : EndStreamMessage) : Type 0 where
  pub message : IsPlain m.message
  pub kinds : All (λ d. IsPlain d.kind) m.details
  pub values : All (λ d. All IsByte d.value) m.details
  pub names : All (λ e. IsPlain (name e)) m.metadata
  pub texts : All (λ e. All IsPlain e.1) m.metadata
  pub distinct : Distinct name m.metadata

-- The message that arrives: a code that is one of the seventeen, the details that are not empty,
-- and the metadata in order. Without a code and details it is a clean end.
abbrev pub arrived : EndStreamMessage → EndStreamMessage
arrived m =
    if is_zero m.code && no_details m.details
    then record clean_end { metadata = sort_entries m.metadata }
    else record {
      code = pos (code_from_string (code_to_string (if is_zero m.code then pos 2 else m.code)));
      message = m.message;
      details = kept m.details;
      metadata = sort_entries m.metadata;
    }

name_in-named : (c : ℕ) → (is_empty (name_in code_names c) ≡ false) × IsPlain (name_in code_names c)
unfolding name_in
name_in-named c = ground arith

pub code_to_string-named :
    (c : ℤ) → (is_empty (code_to_string c) ≡ false) × IsPlain (code_to_string c)
unfolding code_to_string
code_to_string-named (pos c) = name_in-named c
code_to_string-named (negsuc c) = (refl, omega arith)

pub struct_message :
    (m : EndStreamMessage)
    → All (λ d. All IsByte d.value) m.details
    → of_end_stream_json (record (to_end_stream_json m) { metadata = sort_entries m.metadata })
      ≡ arrived m
unfolding of_end_stream_json to_end_stream_json
struct_message m h = elim (Bool-cases (is_zero m.code && no_details m.details)) [
  | inl clean ↦ rw clean refl
  | inr failed ↦
      rw
        (
          failed,
          (code_to_string-named (if is_zero m.code then pos 2 else m.code)).0,
          decode_wire_details-encode_wire_details m.details h,
        )
        refl
]

sextet_char-plain : (n : ℕ) → n < 64 → sextet_char n < 128
unfolding sextet_char
sextet_char-plain n h = ground arith

encode-IsPlain : (s : Bytes) → All IsByte s → IsPlain (encode s)
unfolding encode
encode-IsPlain [] h = tt
encode-IsPlain (a ∷ []) h =
    ground (arith, sextet_char-plain (a / 4), sextet_char-plain (a % 4 * 16))
encode-IsPlain (a ∷ b ∷ []) h = ground (
  arith,
  sextet_char-plain (a / 4),
  sextet_char-plain (a % 4 * 16 + b / 16),
  sextet_char-plain (b % 16 * 4),
)
encode-IsPlain (a ∷ b ∷ c ∷ s) (ha, (hb, (hc, h))) = (
  sextet_char-plain (a / 4) (omega arith),
  (
    sextet_char-plain (a % 4 * 16 + b / 16) (omega arith),
    (
      sextet_char-plain (b % 16 * 4 + c / 64) (omega arith),
      (sextet_char-plain (c % 64) (omega arith), encode-IsPlain s h),
    ),
  ),
)

IsPlain-type : IsPlain (codes "type")
IsPlain-type = omega arith

detail_items-Marshals :
    (ds : List ErrorDetail)
    → All (λ d. IsPlain d.kind) ds
    → All (λ d. All IsByte d.value) ds
    → MarshalsItems (detail_items (encode_wire_details ds))
unfolding detail_items encode_wire_details
detail_items-Marshals [] h k = tt
detail_items-Marshals (d ∷ ds) (p, h) (b, k) = (
  (omega arith, (p, (omega arith, (encode-IsPlain d.value b, tt)))),
  detail_items-Marshals ds h k,
)

value_items-Marshals : (vs : List Bytes) → All IsPlain vs → MarshalsItems (value_items vs)
unfolding value_items
value_items-Marshals [] h = tt
value_items-Marshals (v ∷ vs) (p, h) = (p, value_items-Marshals vs h)

entry_members-Marshals :
    (h : Headers)
    → All (λ e. IsPlain (name e)) h
    → All (λ e. All IsPlain e.1) h
    → MarshalsMembers (entry_members h)
unfolding entry_members
entry_members-Marshals [] p q = tt
entry_members-Marshals ((k, vs) ∷ h) (p, ps) (q, qs) =
    (p, (value_items-Marshals vs q, entry_members-Marshals h ps qs))

pub metadata_member-Marshals :
    (h : Headers)
    → All (λ e. IsPlain (name e)) h
    → All (λ e. All IsPlain e.1) h
    → MarshalsMembers (metadata_member h)
unfolding metadata_member
metadata_member-Marshals [] p q = tt
metadata_member-Marshals (e ∷ h) p q = (
  omega arith,
  (
    entry_members-Marshals (sort_entries (e ∷ h))
        (All-perm (λ e. IsPlain (name e)) (sort_entries-perm (e ∷ h)) p)
        (All-perm (λ e. All IsPlain e.1) (sort_entries-perm (e ∷ h)) q),
    tt,
  ),
)

details_member-Marshals :
    (ds : List ErrorDetail)
    → All (λ d. IsPlain d.kind) ds
    → All (λ d. All IsByte d.value) ds
    → MarshalsMembers (details_member (encode_wire_details ds))
unfolding details_member encode_wire_details
details_member-Marshals [] h k = tt
details_member-Marshals (d ∷ ds) h k = (omega arith, (detail_items-Marshals (d ∷ ds) h k, tt))

pub error_json-Marshals :
    (c : ℤ) (message : Bytes) (ds : List ErrorDetail)
    → IsPlain message
    → All (λ d. IsPlain d.kind) ds
    → All (λ d. All IsByte d.value) ds
    → Marshals (
        error_json
          (record { code = code_to_string c; message = message; details = encode_wire_details ds }))
unfolding error_json
error_json-Marshals c message ds p h k =
    (omega arith, ((code_to_string-named c).1, (omega arith, (p, details_member-Marshals ds h k))))
