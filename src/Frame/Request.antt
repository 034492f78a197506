-- ===== src/Frame/Request.antt =====
-- The enveloped request of a server-stream call (server.go: countFrames, readSingleFrame).
pub mod Fuel
pub mod Agreement
use mathlib.Core.List.{append_assoc}
use easy_rpc_go.Base.{
  ℕ, zero, suc, ◌+◌, ◌-◌, ◌≤◌, ◌<◌, ◌≡◌, ◌≢◌, refl, sym, ap, ◌∙◌, arith, Bool, true, false, List,
  [], ◌∷◌, ◌++◌, Option, none, some, Result, ok, err, length, take, drop, ltb, leb, ◌==◌,
  if◌then◌else◌, All, length-append, drop-append,
}
use easy_rpc_go.Text.{Bytes, codes}
use easy_rpc_go.Code.{RpcError, rpc_error}
use easy_rpc_go.Frame.{
  Gzip, default_max_message_bytes, parse_header, has_flag, Header, frame_flags, put_uint32, uint32,
}

-- The loop of `countFrames`; the list is `body[off:]`, empty where `off` has passed the end. Each
-- round takes five bytes or more, so the length of the body is fuel enough.
unfoldable pub count_from : ℕ → Bytes → ℕ → Result RpcError ℕ
unfolding parse_header
count_from fuel [] n = ok n
count_from zero (b ∷ s) n = ok n
count_from (suc fuel) (b ∷ s) n =
    let size = (parse_header (b ∷ s)).size in
    let rest = count_from fuel (drop (5 + size) (b ∷ s)) (n + 1) in
    if ltb (length (b ∷ s)) 5
    then err (rpc_error 13 (codes "truncated frame header"))
    else if ltb default_max_message_bytes size
    then err (rpc_error 8 (codes "frame too large"))
    else rest

unfoldable pub count_frames : Bytes → Result RpcError ℕ
unfolding count_from
count_frames body = count_from (length body) body 0

module _ (gzip : Gzip) where
  open gzip use {decompress}

  unfoldable pub read_single_frame : Bytes → Result RpcError Bytes
  unfolding parse_header
  read_single_frame body =
      let h = parse_header body in
      let payload = take h.size (drop 5 body) in
      if ltb (length body) 5
      then err (rpc_error 13 (codes "stream request: truncated frame header"))
      else if ltb default_max_message_bytes h.size
      then err (rpc_error 8 (codes "frame too large"))
      else if ltb (length body) (5 + h.size)
      then err (rpc_error 13 (codes "stream request: truncated frame"))
      else if has_flag h.flags 0x01
      then elim (decompress payload) [
        | ok z ↦ ok z
        | err text ↦ err (rpc_error 13 (codes "stream request: corrupt gzip frame"))
      ]
      else ok payload

-- The bytes of a sequence of frames, each with its flags.
abbrev pub frames : List (ℕ × Bytes) → Bytes
frames [] = []
frames ((f, p) ∷ fs) = frame_flags f p ++ frames fs

abbrev Fits : ℕ × Bytes → Type 0
Fits (f, p) = length p ≤ default_max_message_bytes

parse_header-frame_flags :
    (f : ℕ) (p r : Bytes)
    → length p ≤ default_max_message_bytes
    → parse_header (frame_flags f p ++ r) ≡ record { flags = f; size = length p }
unfolding parse_header frame_flags put_uint32 uint32
parse_header-frame_flags f p r h = ground arith

length-frame_flags : (f : ℕ) (p : Bytes) → length (frame_flags f p) ≡ 5 + length p
unfolding frame_flags put_uint32
length-frame_flags f p = omega arith

-- One round of the loop on a header that is whole and within the limit.
count_round :
    (fuel n : ℕ) (s : Bytes)
    → 5 ≤ length s
    → (parse_header s).size ≤ default_max_message_bytes
    → count_from (suc fuel) s n ≡ count_from fuel (drop (5 + (parse_header s).size) s) (n + 1)
unfolding count_from
count_round fuel n [] h k = absurd (omega arith)
count_round fuel n (b ∷ s) h k = ground arith

drop_frame : (f : ℕ) (p r : Bytes) → drop (5 + length p) (frame_flags f p ++ r) ≡ r
drop_frame f p r = rw (← length-frame_flags f p) (drop-append (frame_flags f p) r)

-- One round takes one frame.
count_step :
    (fuel f n : ℕ) (p r : Bytes)
    → length p ≤ default_max_message_bytes
    → count_from (suc fuel) (frame_flags f p ++ r) n ≡ count_from fuel r (n + 1)
count_step fuel f n p r h =
    let header = ap (λ (x : Header). x.size) (parse_header-frame_flags f p r h) in
    count_round fuel n (frame_flags f p ++ r)
      (omega (arith, length-append (frame_flags f p) r, length-frame_flags f p))
      (omega (arith, header))
    ∙ ap (λ s. count_from fuel s (n + 1)) (rw header (drop_frame f p r))

count_from_nil : (fuel n : ℕ) → count_from fuel [] n ≡ ok n
unfolding count_from
count_from_nil zero n = refl
count_from_nil (suc fuel) n = refl

count_from-frames :
    (fuel n : ℕ) (fs : List (ℕ × Bytes))
    → All Fits fs
    → length (frames fs) ≤ fuel
    → count_from fuel (frames fs) n ≡ ok (n + length fs)
count_from-frames fuel n [] a h = count_from_nil fuel n ∙ ap ok (omega arith)
count_from-frames zero n ((f, p) ∷ fs) a h =
    absurd (omega (arith, length-append (frame_flags f p) (frames fs), length-frame_flags f p))
count_from-frames (suc fuel) n ((f, p) ∷ fs) (k, a) h =
    count_step fuel f n p (frames fs) k
    ∙ count_from-frames fuel (n + 1) fs a
        (omega (arith, length-append (frame_flags f p) (frames fs), length-frame_flags f p))
    ∙ ap ok (omega arith)

-- A body of whole frames within the limit is counted exactly.
pub count_frames-frames :
    (fs : List (ℕ × Bytes)) → All Fits fs → count_frames (frames fs) ≡ ok (length fs)
unfolding count_frames
count_frames-frames fs a =
    count_from-frames (length (frames fs)) 0 fs a (omega arith) ∙ ap ok (omega arith)
