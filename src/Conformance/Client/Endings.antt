-- ===== src/Conformance/Client/Endings.antt =====
-- How the streams of the conformance client's checks end.
use easy_rpc_go.Base.{arith, [], ◌∷◌}
use easy_rpc_go.Base.Int.{pos}
use easy_rpc_go.Text.{codes}
use easy_rpc_go.Code.{code_to_string}
use easy_rpc_go.Headers.{Headers}
use easy_rpc_go.Frame.{frame, frame_flags, put_uint32}
use easy_rpc_go.Json.Tokens.{is_unsafe}
use easy_rpc_go.Json.Codec.{json_text, print_text}
use easy_rpc_go.Wire.Structs.{EndStreamMessage, clean_end}
use easy_rpc_go.Wire.Messages.{IsPlainMessage}
use easy_rpc_go.Wire.Marshal.{error_json, metadata_member, entry_members, sort_entries}
use easy_rpc_go.Wire.Codec.{encode_end_stream}
use easy_rpc_go.Server.Stream.{end_frame}
use easy_rpc_go.Server.Stream.Delivery.{Fits}

-- How a stream ends that has trailers at most.
abbrev pub ends_with : Headers → EndStreamMessage
ends_with trailers = record clean_end { metadata = trailers }

pub ends_with-IsPlainMessage : IsPlainMessage (ends_with [])
ends_with-IsPlainMessage = record {
  message = omega arith;
  kinds = tt;
  values = tt;
  names = tt;
  texts = tt;
  distinct = tt;
}

pub ends_with-Fits : Fits (end_frame json_text (ends_with []))
unfolding end_frame frame frame_flags put_uint32 encode_end_stream print_text is_unsafe error_json
    metadata_member entry_members sort_entries
ends_with-Fits = omega arith

abbrev pub trailed : Headers
trailed = (codes "x-ctrailer", codes "done" ∷ []) ∷ []

pub trailed-IsPlainMessage : IsPlainMessage (ends_with trailed)
trailed-IsPlainMessage = record {
  message = omega arith;
  kinds = tt;
  values = tt;
  names = (omega arith, tt);
  texts = ((omega arith, tt), tt);
  distinct = (tt, tt);
}

pub trailed-Fits : Fits (end_frame json_text (ends_with trailed))
unfolding end_frame frame frame_flags put_uint32 encode_end_stream print_text is_unsafe error_json
    metadata_member entry_members sort_entries
trailed-Fits = omega arith

-- How the stream of StreamFailDetails ends.
abbrev pub boomed : EndStreamMessage
boomed = record {
  code = pos 13;
  message = codes "boom";
  details = record { kind = codes "t/stream"; value = codes "sd" } ∷ [];
  metadata = [];
}

pub boomed-IsPlainMessage : IsPlainMessage boomed
boomed-IsPlainMessage = record {
  message = omega arith;
  kinds = (omega arith, tt);
  values = (omega arith, tt);
  names = tt;
  texts = tt;
  distinct = tt;
}

pub boomed-Fits : Fits (end_frame json_text boomed)
unfolding end_frame frame frame_flags put_uint32 encode_end_stream print_text is_unsafe error_json
    metadata_member entry_members sort_entries code_to_string
boomed-Fits = omega arith
