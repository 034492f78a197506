-- ===== src/Frame.antt =====
-- Stream frames: five bytes of flags and big-endian length, then the payload (protocol.go: Frame,
-- FrameCompressed, readFrameFlags, ReadFrame, ReadFrameDecompressed; server.go: countFrames,
-- readSingleFrame). A reader is the list of the bytes that it still holds, and reading returns what
-- is left. gzip (compress/gzip) is a parameter.
pub mod Read
pub mod RoundTrip
pub mod Request
use easy_rpc_go.Base.{
  ℕ, zero, suc, ◌+◌, ◌-◌, ◌*◌, ◌/◌, ◌%◌, ◌^◌, ◌≡◌, Bool, true, false, not, List, [], ◌∷◌, ◌++◌,
  Option, none, some, Result, ok, err, bit_and, bit_or, length, take, drop, ltb, leb, ◌==◌,
  if◌then◌else◌,
}
use easy_rpc_go.Text.{Bytes, codes}
use easy_rpc_go.Code.{Error, eof, unexpected_eof, rpc, RpcError, rpc_error}

-- compress/gzip, as `GzipCompress` and `GzipDecompress` use it: a failure of decompression carries
-- its text. Documented: what the writer wrote, the reader reads back.
pub record Gzip : Type 0 where
  pub compress : Bytes → Result Bytes Bytes
  pub decompress : Bytes → Result Bytes Bytes
  pub decompress-compress : (s z : Bytes) → compress s ≡ ok z → decompress z ≡ ok s

abbrev pub default_max_message_bytes : ℕ
default_max_message_bytes = 4 * 1024 * 1024

-- `binary.BigEndian.PutUint32(…, uint32(n))`.
unfoldable pub put_uint32 : ℕ → Bytes
put_uint32 n = n / 2 ^ 24 % 256 ∷ n / 2 ^ 16 % 256 ∷ n / 2 ^ 8 % 256 ∷ n % 256 ∷ []

-- `binary.BigEndian.Uint32`.
unfoldable pub uint32 : ℕ → ℕ → ℕ → ℕ → ℕ
uint32 a b c d = a * 2 ^ 24 + b * 2 ^ 16 + c * 2 ^ 8 + d

-- The frame with the flags given.
unfoldable pub frame_flags : ℕ → Bytes → Bytes
frame_flags flags payload = flags ∷ put_uint32 (length payload) ++ payload

unfoldable pub frame : Bytes → Bool → Bytes
unfolding frame_flags
frame payload end_stream = frame_flags (if end_stream then 0x02 else 0) payload

-- `out[0] |= 0x01`.
unfoldable pub or_first : ℕ → Bytes → Bytes
or_first bit [] = []
or_first bit (b ∷ s) = bit_or b bit ∷ s

-- A read takes bytes off the reader, also where it fails.
abbrev pub Reader : Type 0 → Type 0
Reader A = Bytes → Result Error A × Bytes

abbrev pub continue :
    {A B : Type 0} → Result Error A × Bytes → (A → Reader B) → Result Error B × Bytes
continue (ok a, rest) f = f a rest
continue (err e, rest) f = (err e, rest)

infixl 5 ◌>>=◌
abbrev pub ◌>>=◌ : {A B : Type 0} → Reader A → (A → Reader B) → Reader B
◌>>=◌ m f r = continue (m r) f

abbrev pub lift : {A : Type 0} → Result Error A → Reader A
lift x r = (x, r)

-- `io.ReadFull(r, buf)` with `n = len(buf)`.
unfoldable pub read_full : ℕ → Reader Bytes
read_full n r =
    if leb n (length r)
    then (ok (take n r), drop n r)
    else (if length r == 0 then err eof else err unexpected_eof, [])

-- The four length bytes and the flags of a header.
pub record Header : Type 0 where
  pub flags : ℕ
  pub size : ℕ

unfoldable pub parse_header : Bytes → Header
unfolding uint32
parse_header (f ∷ a ∷ b ∷ c ∷ d ∷ s) = record { flags = f; size = uint32 a b c d }
parse_header s = record { flags = 0; size = 0 }

pub record Framed : Type 0 where
  pub payload : Bytes
  pub end_stream : Bool
  pub flags : ℕ

abbrev pub has_flag : ℕ → ℕ → Bool
has_flag flags bit = not (bit_and flags bit == 0)

-- What `readFrameFlags` does behind the header.
unfoldable pub read_payload : Header → Reader Framed
read_payload h =
    if ltb default_max_message_bytes h.size
    then lift (err (rpc (rpc_error 8 (codes "frame too large"))))
    else do
      payload ← read_full h.size
      lift (ok (record { payload = payload; end_stream = has_flag h.flags 0x02; flags = h.flags }))

unfoldable pub read_frame_flags : Reader Framed
unfolding parse_header
read_frame_flags = do hdr ← read_full 5; read_payload (parse_header hdr)

-- What `ReadFrame` does behind the header: the same without the flags.
unfoldable pub read_plain : Header → Reader (Bytes × Bool)
read_plain h =
    if ltb default_max_message_bytes h.size
    then lift (err (rpc (rpc_error 8 (codes "frame too large"))))
    else do payload ← read_full h.size; lift (ok (payload, has_flag h.flags 0x02))

unfoldable pub read_frame : Reader (Bytes × Bool)
unfolding parse_header
read_frame = do hdr ← read_full 5; read_plain (parse_header hdr)

module _ (gzip : Gzip) where
  open gzip use {compress, decompress}

  -- `FrameCompressed`, with the payload itself where compression fails.
  unfoldable pub frame_compressed : Bytes → Bytes
  unfolding or_first
  frame_compressed payload = elim (compress payload) [
    | ok z ↦ or_first 0x01 (frame z false)
    | err e ↦ frame payload false
  ]

  -- The payload as the flags say.
  unfoldable pub inflate : Framed → Result Error Bytes
  inflate f =
      if has_flag f.flags 0x01
      then elim (decompress f.payload) [
        | ok z ↦ ok z
        | err text ↦ err (rpc (rpc_error 13 (codes "corrupt gzip frame: " ++ text)))
      ]
      else ok f.payload

  unfoldable pub read_frame_decompressed : Reader (Bytes × Bool)
  read_frame_decompressed = do
    f ← read_frame_flags
    payload ← lift (inflate f)
    lift (ok (payload, f.end_stream))
