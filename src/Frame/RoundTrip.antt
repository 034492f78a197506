-- ===== src/Frame/RoundTrip.antt =====
-- What a client reads of the frames that a server writes, whole, compressed or cut.
use mathlib.Core.List.{append_assoc}
use easy_rpc_go.Base.{
  ℕ, ◌≤◌, ◌≡◌, ◌≢◌, refl, sym, ap, ◌∙◌, arith, Bool, true, false, [], ◌∷◌, ◌++◌, Result, ok, err,
  length, take, drop, append-nil, length-append, inl, inr,
}
use easy_rpc_go.Text.{Bytes, codes}
use easy_rpc_go.Code.{Error, eof, rpc, rpc_error}
use easy_rpc_go.Frame.{
  Gzip, default_max_message_bytes, put_uint32, frame_flags, frame, read_full, Header, parse_header,
  Framed, has_flag, read_payload, read_frame_flags, read_frame, continue, frame_compressed, inflate,
  read_frame_decompressed, lift,
}
use easy_rpc_go.Frame.Read.{
  read_full-append, read_full_sound, read_full_cases, read_frame_flags-frame_flags, without_flags,
  read_frame-read_frame_flags, read_header,
}

abbrev empty_payload : ℕ → Bytes → Framed
empty_payload f p = record { payload = p; end_stream = has_flag f 0x02; flags = f }

module _ (gzip : Gzip) where
  open gzip use {compress, decompress, decompress-compress}

  -- What is read of a frame with any flags.
  read_flags :
      (f : ℕ) (p r : Bytes)
      → length p ≤ default_max_message_bytes
      → read_frame_decompressed gzip (frame_flags f p ++ r)
        ≡ continue (inflate gzip (empty_payload f p), r) (λ q. lift (ok (q, has_flag f 0x02)))
  unfolding read_frame_decompressed
  read_flags f p r h = rw (read_frame_flags-frame_flags f p r h) refl

  -- A plain frame gives its payload and its end flag, and nothing behind it is touched.
  pub read_frame_decompressed-frame :
      (p r : Bytes) (end : Bool)
      → length p ≤ default_max_message_bytes
      → read_frame_decompressed gzip (frame p end ++ r) ≡ (ok (p, end), r)
  unfolding frame inflate
  read_frame_decompressed-frame p r true h = read_flags 2 p r h
  read_frame_decompressed-frame p r false h = read_flags 0 p r h

  inflate_compressed : (p z : Bytes) → compress p ≡ ok z → inflate gzip (empty_payload 1 z) ≡ ok p
  unfolding inflate
  inflate_compressed p z e = rw (decompress-compress p z e) refl

  compressed_flags : (p z : Bytes) → compress p ≡ ok z → frame_compressed gzip p ≡ frame_flags 1 z
  unfolding frame_compressed frame frame_flags
  compressed_flags p z e = rw (e, frame_compressed) refl

  -- A compressed frame gives the payload that was compressed, and nothing behind it is touched. The
  -- compressor succeeds, and its result keeps the limit.
  pub read_frame_decompressed-frame_compressed :
      (p z r : Bytes)
      → compress p ≡ ok z
      → length z ≤ default_max_message_bytes
      → read_frame_decompressed gzip (frame_compressed gzip p ++ r) ≡ (ok (p, false), r)
  read_frame_decompressed-frame_compressed p z r e h =
      ap (λ s. read_frame_decompressed gzip (s ++ r)) (compressed_flags p z e)
      ∙ read_flags 1 z r h
      ∙ rw (inflate_compressed p z e) refl

  -- A flagged payload that gzip refuses is an error of code 13 with gzip's text, never the raw
  -- bytes, if the payload keeps the limit.
  pub read_frame_decompressed_corrupt :
      (f : ℕ) (p r text : Bytes)
      → has_flag f 0x01 ≡ true
      → decompress p ≡ err text
      → length p ≤ default_max_message_bytes
      → read_frame_decompressed gzip (frame_flags f p ++ r)
        ≡ (err (rpc (rpc_error 13 (codes "corrupt gzip frame: " ++ text))), r)
  unfolding inflate
  read_frame_decompressed_corrupt f p r text flagged corrupt h =
      read_flags f p r h ∙ rw (flagged, corrupt) refl

read_full-more :
    (n : ℕ) (r s rest more : Bytes)
    → read_full n r ≡ (ok s, rest)
    → read_full n (r ++ more) ≡ (ok s, rest ++ more)
read_full-more n r s rest more e =
    let (split, size) = read_full_sound n r s rest e in
    rw (split, append_assoc s rest more, ← size) (read_full-append s (rest ++ more))

read_payload-more :
    (h : Header) (r rest more : Bytes) (f : Framed)
    → read_payload h r ≡ (ok f, rest)
    → read_payload h (r ++ more) ≡ (ok f, rest ++ more)
unfolding read_payload
read_payload-more h r rest more f e = elim (read_full_cases h.size r) [
  | inl q ↦ ground (arith, read_full-more h.size r _ _ more q)
  | inr (x, q) ↦ ground arith
]

-- Bytes that arrive later do not change a frame that was read, and stay behind it.
pub read_frame_flags-more :
    (r rest more : Bytes) (f : Framed)
    → read_frame_flags r ≡ (ok f, rest)
    → read_frame_flags (r ++ more) ≡ (ok f, rest ++ more)
unfolding read_frame_flags
read_frame_flags-more r rest more f e = elim (read_full_cases 5 r) [
  | inl q ↦
      rw (read_full-more 5 r _ _ more q)
        (read_payload-more (parse_header (take 5 r)) (drop 5 r) rest more f (rw q at e))
  | inr (x, q) ↦ cc (rw q at e)
]

-- No proper prefix of a frame within the limit passes for a frame.
pub read_frame_flags_truncated :
    (f x : ℕ) (p front back rest : Bytes) (g : Framed)
    → length p ≤ default_max_message_bytes
    → frame_flags f p ≡ front ++ x ∷ back
    → read_frame_flags front ≢ (ok g, rest)
read_frame_flags_truncated f x p front back rest g h split e =
    let whole = read_frame_flags-frame_flags f p [] h in
    let longer = read_frame_flags-more front rest (x ∷ back) g e in
    let same =
      sym longer ∙ ap read_frame_flags (sym split ∙ sym (append-nil (frame_flags f p))) ∙ whole in
    omega (
      arith,
      ap (λ (t : Result Error Framed × Bytes). length t.1) same,
      length-append rest (x ∷ back),
    )

header_only :
    (f y : ℕ) (ys : Bytes)
    → length (y ∷ ys) ≤ default_max_message_bytes
    → read_frame (take 5 (frame_flags f (y ∷ ys))) ≡ (err eof, [])
unfolding frame_flags put_uint32 read_payload read_full
header_only f y ys h =
    read_frame-read_frame_flags _
    ∙ ap without_flags (read_header f (length (y ∷ ys)) [] (omega arith))
    ∙ ground arith

-- A frame of a payload that is not empty, within the limit and cut right behind its header, is
-- reported by ReadFrame as io.EOF.
pub read_frame_header_only :
    (y : ℕ) (ys : Bytes) (end : Bool)
    → length (y ∷ ys) ≤ default_max_message_bytes
    → read_frame (take 5 (frame (y ∷ ys) end)) ≡ (err eof, [])
unfolding frame
read_frame_header_only y ys true h = header_only 2 y ys h
read_frame_header_only y ys false h = header_only 0 y ys h
