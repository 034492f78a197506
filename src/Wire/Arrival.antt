-- ===== src/Wire/Arrival.antt =====
-- The two directions of a message joined through the JSON text.
use easy_rpc_go.Base.{
  ◌≡◌, ◌≢◌, refl, ◌∙◌, arith, ◌&&◌, List, [], ◌∷◌, some, if◌then◌else◌, All, IsByte, Bool-cases,
  inl, inr,
}
use easy_rpc_go.Base.Options.{◌>>=◌}
use easy_rpc_go.Base.Int.{ℤ, pos, is_zero}
use easy_rpc_go.Text.{Bytes}
use easy_rpc_go.Code.{ErrorDetail, code_to_string, code_from_string}
use easy_rpc_go.Json.{JsonText, IsPlain, Marshals}
use easy_rpc_go.Wire.Structs.{EndStreamMessage, WireError}
use easy_rpc_go.Wire.Details.{kept, decode_wire_details-encode_wire_details}
use easy_rpc_go.Wire.Marshal.{end_stream_json, error_json}
use easy_rpc_go.Wire.Unmarshal.{end_stream_of, error_of}
use easy_rpc_go.Wire.RoundTrip.{end_stream_of-end_stream_json, members_details}
use easy_rpc_go.Wire.Messages.{
  IsPlainMessage, arrived, struct_message, metadata_member-Marshals, error_json-Marshals,
  code_to_string-named,
}
use easy_rpc_go.Wire.Codec.{
  to_end_stream_json, encode_end_stream, decode_end_stream, no_details, or_clean, encode_error_json,
  decode_error_json, error_parts,
}

error_Marshals :
    (m : EndStreamMessage) → IsPlainMessage m → Marshals (end_stream_json (to_end_stream_json m))
unfolding end_stream_json to_end_stream_json
error_Marshals m p = elim (Bool-cases (is_zero m.code && no_details m.details)) [
  | inl clean ↦ rw clean (metadata_member-Marshals m.metadata p.names p.texts)
  | inr failed ↦ rw failed (
    omega arith,
    (
      error_json-Marshals (if is_zero m.code then pos 2 else m.code) m.message m.details p.message
          p.kinds p.values,
      metadata_member-Marshals m.metadata p.names p.texts,
    ),
  )
]

module _ (text : JsonText) where
  open text use {print, parse, parse-print, print-ne-nil}

  decode_end_stream_parse :
      (s : Bytes) → s ≢ [] → decode_end_stream text s ≡ or_clean (parse s >>= end_stream_of)
  unfolding decode_end_stream
  decode_end_stream_parse [] h = absurd (h refl)
  decode_end_stream_parse (c ∷ s) h = refl

  pub decode_end_stream-encode_end_stream :
      (m : EndStreamMessage)
      → IsPlainMessage m
      → decode_end_stream text (encode_end_stream text m) ≡ arrived m
  unfolding encode_end_stream
  decode_end_stream-encode_end_stream m p =
      decode_end_stream_parse _
        (print-ne-nil (end_stream_json (to_end_stream_json m)) (error_Marshals m p))
      ∙ rw
          (
            parse-print (end_stream_json (to_end_stream_json m)) (error_Marshals m p),
            end_stream_of-end_stream_json (to_end_stream_json m) p.distinct,
          )
          (struct_message m p.values)

  decode_error_json_parse :
      (s : Bytes) → s ≢ [] → decode_error_json text s ≡ error_parts (parse s >>= error_of)
  unfolding decode_error_json
  decode_error_json_parse [] h = absurd (h refl)
  decode_error_json_parse (c ∷ s) h = refl

  error_of-error_json : (e : WireError) → error_of (error_json e) ≡ some e
  unfolding error_of error_json
  error_of-error_json e = members_details e.code e.message e.details

  -- The body of a unary error gives back the code by its name, the message, and the details whose
  -- type and value are not empty. The texts are ASCII and the values bytes.
  pub decode_error_json-encode_error_json :
      (c : ℤ) (message : Bytes) (ds : List ErrorDetail)
      → IsPlain message
      → All (λ d. IsPlain d.kind) ds
      → All (λ d. All IsByte d.value) ds
      → decode_error_json text (encode_error_json text c message ds)
        ≡ (pos (code_from_string (code_to_string c)), message, kept ds)
  unfolding encode_error_json
  decode_error_json-encode_error_json c message ds p h k =
      decode_error_json_parse _ (print-ne-nil _ (error_json-Marshals c message ds p h k))
      ∙ rw
          (
            parse-print _ (error_json-Marshals c message ds p h k),
            error_of-error_json _,
            (code_to_string-named c).0,
            decode_wire_details-encode_wire_details ds k,
          )
          refl
