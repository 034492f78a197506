-- ===== src/Wire/Codec.antt =====
-- The messages themselves (protocol.go: EncodeEndStream, DecodeEndStream; server.go:
-- EncodeErrorJSON, DecodeErrorJSON).
use easy_rpc_go.Base.{Bool, true, false, ◌&&◌, List, [], ◌∷◌, Option, none, some, if◌then◌else◌}
use easy_rpc_go.Base.Int.{ℤ, pos, is_zero}
use easy_rpc_go.Base.Options.{◌>>=◌}
use easy_rpc_go.Text.{Bytes, is_empty}
use easy_rpc_go.Code.{ErrorDetail, code_to_string, code_from_string}
use easy_rpc_go.Json.{JsonText}
use easy_rpc_go.Wire.Structs.{WireError, EndStreamJson, EndStreamMessage, clean_end}
use easy_rpc_go.Wire.Details.{encode_wire_details, decode_wire_details}
use easy_rpc_go.Wire.Marshal.{end_stream_json, error_json}
use easy_rpc_go.Wire.Unmarshal.{end_stream_of, error_of}

abbrev pub no_details : List ErrorDetail → Bool
no_details [] = true
no_details (d ∷ ds) = false

-- The struct that `EncodeEndStream` fills in.
unfoldable pub to_end_stream_json : EndStreamMessage → EndStreamJson
unfolding code_to_string encode_wire_details
to_end_stream_json m = record {
  error =
      if is_zero m.code && no_details m.details
      then none
      else some (record {
        code = code_to_string (if is_zero m.code then pos 2 else m.code);
        message = m.message;
        details = encode_wire_details m.details;
      });
  metadata = m.metadata;
}

-- The message that `DecodeEndStream` makes of the struct.
unfoldable pub of_end_stream_json : EndStreamJson → EndStreamMessage
unfolding code_from_string decode_wire_details
of_end_stream_json es = elim es.error [
  | none ↦ record clean_end { metadata = es.metadata }
  | some e ↦ record {
    code = pos (if is_empty e.code then 2 else code_from_string e.code);
    message = e.message;
    details = decode_wire_details e.details;
    metadata = es.metadata;
  }
]

abbrev pub or_clean : Option EndStreamJson → EndStreamMessage
or_clean none = clean_end
or_clean (some es) = of_end_stream_json es

-- `(0, "", nil)`, and what an error body carries.
abbrev pub not_an_error : ℤ × Bytes × List ErrorDetail
not_an_error = (pos 0, [], [])

abbrev pub error_parts : Option WireError → ℤ × Bytes × List ErrorDetail
error_parts none = not_an_error
error_parts (some e) =
    if is_empty e.code
    then not_an_error
    else (pos (code_from_string e.code), e.message, decode_wire_details e.details)

module _ (text : JsonText) where
  open text use {print, parse}

  unfoldable pub encode_end_stream : EndStreamMessage → Bytes
  unfolding to_end_stream_json end_stream_json
  encode_end_stream m = print (end_stream_json (to_end_stream_json m))

  unfoldable pub decode_end_stream : Bytes → EndStreamMessage
  unfolding of_end_stream_json end_stream_of
  decode_end_stream [] = clean_end
  decode_end_stream (c ∷ s) = or_clean (do v ← parse (c ∷ s); end_stream_of v)

  unfoldable pub encode_error_json : ℤ → Bytes → List ErrorDetail → Bytes
  unfolding error_json
  encode_error_json code message details = print (
      error_json (record {
        code = code_to_string code;
        message = message;
        details = encode_wire_details details;
      }))

  unfoldable pub decode_error_json : Bytes → ℤ × Bytes × List ErrorDetail
  unfolding error_of
  decode_error_json [] = not_an_error
  decode_error_json (c ∷ s) = error_parts (do v ← parse (c ∷ s); error_of v)
