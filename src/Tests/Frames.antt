-- ===== src/Tests/Frames.antt =====
-- Frames: whole, compressed, cut and enveloped.
use easy_rpc_go.Frame.Request.Fuel.{count_from-count_frames}
use easy_rpc_go.Base.{◌≤◌, ◌≡◌, ◌≢◌, ◌↔◌, refl, arith, Bool, true, false, [], ◌∷◌, ◌++◌, ok, err}
use easy_rpc_go.Text.{Bytes, codes}
use easy_rpc_go.Code.{rpc, rpc_error}
use easy_rpc_go.Frame.{
  Framed, put_uint32, frame_flags, frame, frame_compressed, has_flag, read_full, read_payload,
  read_frame_flags, read_frame_decompressed, default_max_message_bytes,
}
use easy_rpc_go.Frame.Read.{read_frame_flags_sound}
use easy_rpc_go.Frame.RoundTrip.{
  read_frame_decompressed-frame_compressed, read_frame_decompressed_corrupt,
  read_frame_flags_truncated,
}
use easy_rpc_go.Frame.Request.{count_from, count_frames, read_single_frame}
use easy_rpc_go.Frame.Request.Agreement.{count_frames-read_single_frame}
use easy_rpc_go.Server.Stream.{data_frame}
use easy_rpc_go.Server.Stream.Delivery.{delivered, read_frame_decompressed-data_frame}
use easy_rpc_go.Tests.Samples.{stored}

-- A frame of two bytes, and one byte behind it.
abbrev two : Bytes
two = 0 ∷ 0 ∷ 0 ∷ 0 ∷ 2 ∷ 65 ∷ 66 ∷ 9 ∷ []

abbrev framed : Framed
framed = record { payload = 65 ∷ 66 ∷ []; end_stream = false; flags = 0 }

read_two : read_frame_flags two ≡ (ok framed, 9 ∷ [])
unfolding read_frame_flags read_full read_payload
read_two = refl

read_frame_flags_sound_example :
    (two ≡ frame_flags 0 (65 ∷ 66 ∷ []) ++ 9 ∷ [])
    × (2 ≤ default_max_message_bytes)
    × (false ≡ has_flag 0 0x02)
read_frame_flags_sound_example = read_frame_flags_sound two (9 ∷ []) framed (omega arith) read_two

read_frame_decompressed-frame_compressed_example :
    read_frame_decompressed stored (frame_compressed stored (codes "hello") ++ 9 ∷ [])
    ≡ (ok (codes "hello", false), 9 ∷ [])
read_frame_decompressed-frame_compressed_example =
    read_frame_decompressed-frame_compressed stored (codes "hello") (31 ∷ 139 ∷ codes "hello")
      (9 ∷ []) refl (omega arith)

read_frame_decompressed_corrupt_example :
    read_frame_decompressed stored (frame_flags 1 (65 ∷ 66 ∷ []) ++ [])
    ≡ (err (rpc (rpc_error 13 (codes "corrupt gzip frame: " ++ codes "gzip: invalid header"))), [])
read_frame_decompressed_corrupt_example =
    read_frame_decompressed_corrupt stored 1 (65 ∷ 66 ∷ []) [] (codes "gzip: invalid header") refl
      refl (omega arith)

read_frame_flags_truncated_example :
    read_frame_flags (0 ∷ 0 ∷ 0 ∷ 0 ∷ 2 ∷ 65 ∷ []) ≢ (ok framed, [])
unfolding frame_flags put_uint32
read_frame_flags_truncated_example =
    read_frame_flags_truncated 0 66 (65 ∷ 66 ∷ []) (0 ∷ 0 ∷ 0 ∷ 0 ∷ 2 ∷ 65 ∷ []) [] [] framed
      (omega arith) refl

count_frames-read_single_frame_example :
    ((count_frames (0 ∷ 0 ∷ 0 ∷ 0 ∷ 1 ∷ 65 ∷ []) ≡ ok 1)
      × (read_single_frame stored (0 ∷ 0 ∷ 0 ∷ 0 ∷ 1 ∷ 65 ∷ []) ≡ ok (65 ∷ [])))
    ↔ ((end : Bool) × (read_frame_decompressed stored (0 ∷ 0 ∷ 0 ∷ 0 ∷ 1 ∷ 65 ∷ [])
          ≡ (ok (65 ∷ [], end), [])))
count_frames-read_single_frame_example =
    count_frames-read_single_frame stored (0 ∷ 0 ∷ 0 ∷ 0 ∷ 1 ∷ 65 ∷ []) (65 ∷ [])

read_frame_decompressed-data_frame_example :
    read_frame_decompressed stored (data_frame stored true (codes "short") ++ 9 ∷ [])
    ≡ (ok (codes "short", false), 9 ∷ [])
unfolding data_frame delivered frame frame_flags put_uint32
read_frame_decompressed-data_frame_example =
    read_frame_decompressed-data_frame stored true (codes "short") (9 ∷ []) (omega arith)

count_from-count_frames_example :
    count_from 9 (0 ∷ 0 ∷ 0 ∷ 0 ∷ 1 ∷ 65 ∷ []) 0 ≡ count_frames (0 ∷ 0 ∷ 0 ∷ 0 ∷ 1 ∷ 65 ∷ [])
count_from-count_frames_example =
    count_from-count_frames 9 (0 ∷ 0 ∷ 0 ∷ 0 ∷ 1 ∷ 65 ∷ []) (omega arith)
