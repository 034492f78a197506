-- ===== src/Frame/Read.antt =====
-- Reading frames: one header, then a payload of the size that it states.
use easy_rpc_go.Base.{
  ℕ, ◌/◌, ◌%◌, ◌^◌, ◌≤◌, ◌<◌, ◌≡◌, refl, ap, ◌∙◌, arith, Bool, [], ◌∷◌, ◌++◌, Result, ok, err,
  length, take, drop, leb, ◌==◌, take-append, drop-append, length-append, IsByte,
}
use mathlib.Core.List.{append_assoc}
use easy_rpc_go.Base.{take-append-drop, length-take, ◌⊎◌, inl, inr, Bool-cases, All, All_left}
use easy_rpc_go.Text.{Bytes, codes}
use easy_rpc_go.Code.{Error, eof, unexpected_eof, rpc, rpc_error}
use easy_rpc_go.Frame.{
  default_max_message_bytes, put_uint32, uint32, frame_flags, read_full, Header, parse_header,
  Framed, has_flag, read_payload, read_frame_flags, read_frame, continue, read_plain,
}

uint32_digits :
    (n : ℕ)
    → n < 2 ^ 32
    → uint32 (n / 2 ^ 24 % 256) (n / 2 ^ 16 % 256) (n / 2 ^ 8 % 256) (n % 256) ≡ n
unfolding uint32
uint32_digits n h = omega arith

pub read_full-append : (s r : Bytes) → read_full (length s) (s ++ r) ≡ (ok s, r)
unfolding read_full
read_full-append s r = rw (length-append s r, take-append s r, drop-append s r) (ground arith)

header_five :
    (f a b c d : ℕ) (r : Bytes)
    → read_full 5 (f ∷ a ∷ b ∷ c ∷ d ∷ r) ≡ (ok (f ∷ a ∷ b ∷ c ∷ d ∷ []), r)
header_five f a b c d r = read_full-append (f ∷ a ∷ b ∷ c ∷ d ∷ []) r

-- A header is taken apart into its flags and its size.
pub read_header :
    (f n : ℕ) (r : Bytes)
    → n < 2 ^ 32
    → read_frame_flags (f ∷ put_uint32 n ++ r) ≡ read_payload (record { flags = f; size = n }) r
unfolding read_frame_flags put_uint32 parse_header
read_header f n r h = rw (header_five f _ _ _ _ r, uint32_digits n h) refl

read_payload_fits :
    (f : ℕ) (p r : Bytes)
    → length p ≤ default_max_message_bytes
    → read_payload (record { flags = f; size = length p }) (p ++ r)
      ≡ (ok (record { payload = p; end_stream = has_flag f 0x02; flags = f }), r)
unfolding read_payload
read_payload_fits f p r h = ground (arith, read_full-append p r)

-- A frame within the size limit is read back whole, with nothing of what follows.
pub read_frame_flags-frame_flags :
    (f : ℕ) (p r : Bytes)
    → length p ≤ default_max_message_bytes
    → read_frame_flags (frame_flags f p ++ r)
      ≡ (ok (record { payload = p; end_stream = has_flag f 0x02; flags = f }), r)
unfolding frame_flags
read_frame_flags-frame_flags f p r h =
    ap read_frame_flags (ap (λ s. f ∷ s) (append_assoc (put_uint32 (length p)) p r))
    ∙ read_header f (length p) (p ++ r) (omega arith)
    ∙ read_payload_fits f p r h

-- A frame over the limit is refused by its header, and its payload stays in the reader.
pub read_frame_flags_too_large :
    (f : ℕ) (p r : Bytes)
    → default_max_message_bytes < length p
    → length p < 2 ^ 32
    → read_frame_flags (frame_flags f p ++ r)
      ≡ (err (rpc (rpc_error 8 (codes "frame too large"))), p ++ r)
unfolding frame_flags
read_frame_flags_too_large f p r h k =
    ap read_frame_flags (ap (λ s. f ∷ s) (append_assoc (put_uint32 (length p)) p r))
    ∙ read_header f (length p) (p ++ r) k
    ∙ (unfold read_payload in ground arith)

-- What `ReadFrame` returns, of what `readFrameFlags` returns.
abbrev pub without_flags : Result Error Framed × Bytes → Result Error (Bytes × Bool) × Bytes
without_flags (ok f, r) = (ok (f.payload, f.end_stream), r)
without_flags (err e, r) = (err e, r)

read_plain-read_payload :
    (h : Header) (r : Bytes) → read_plain h r ≡ without_flags (read_payload h r)
unfolding read_plain read_payload
read_plain-read_payload h r = ground arith

without_flags-continue :
    (x : Result Error Bytes × Bytes)
    → continue x (λ hdr. read_plain (parse_header hdr))
      ≡ without_flags (continue x (λ hdr. read_payload (parse_header hdr)))
without_flags-continue (ok hdr, r) = read_plain-read_payload (parse_header hdr) r
without_flags-continue (err e, r) = refl

-- The two frame readers of the package, ReadFrame and readFrameFlags, agree on every input but for
-- the flags.
pub read_frame-read_frame_flags : (r : Bytes) → read_frame r ≡ without_flags (read_frame_flags r)
unfolding read_frame read_frame_flags
read_frame-read_frame_flags r = without_flags-continue (read_full 5 r)

pub read_full_sound :
    (n : ℕ) (r s rest : Bytes) → read_full n r ≡ (ok s, rest) → (r ≡ s ++ rest) × (length s ≡ n)
unfolding read_full
read_full_sound n r s rest e = ground (arith, take-append-drop n r, length-take n r)

pub read_full_cases :
    (n : ℕ) (r : Bytes)
    → (read_full n r ≡ (ok (take n r), drop n r)) ⊎ ((e : Error) × (read_full n r ≡ (err e, [])))
unfolding read_full
read_full_cases n r = elim (Bool-cases (leb n (length r))) [
  | inl enough ↦ inl (rw enough refl)
  | inr short ↦ elim (Bool-cases (length r == 0)) [
    | inl none_left ↦ inr (eof, rw (short, none_left) refl)
    | inr some_left ↦ inr (unexpected_eof, rw (short, some_left) refl)
  ]
]

-- What a successful read of a payload returns, and what it took.
pub read_payload_sound :
    (h : Header) (f : Framed) (r rest : Bytes)
    → read_payload h r ≡ (ok f, rest)
    → (r ≡ f.payload ++ rest)
      × (length f.payload ≡ h.size)
      × (f.flags ≡ h.flags)
      × (f.end_stream ≡ has_flag h.flags 0x02)
      × (h.size ≤ default_max_message_bytes)
unfolding read_payload
read_payload_sound h f r rest e = elim (read_full_cases h.size r) [
  | inl q ↦ let (split, size) = read_full_sound h.size r _ _ q in ground (arith)
  | inr (x, q) ↦ ground arith
]

parse_sound :
    (s : Bytes)
    → length s ≡ 5
    → All IsByte s
    → s ≡ (parse_header s).flags ∷ put_uint32 (parse_header s).size
unfolding parse_header put_uint32 uint32
parse_sound (f ∷ a ∷ b ∷ c ∷ d ∷ []) e (_, (ha, (hb, (hc, (hd, _))))) = ground arith
parse_sound _ e h = ground arith

-- A frame that is read from bytes is the encoding of its flags and payload, what is left is what
-- stood behind it, its payload keeps the limit, and its end mark is the flag 0x02.
pub read_frame_flags_sound :
    (r rest : Bytes) (f : Framed)
    → All IsByte r
    → read_frame_flags r ≡ (ok f, rest)
    → (r ≡ frame_flags f.flags f.payload ++ rest)
      × (length f.payload ≤ default_max_message_bytes)
      × (f.end_stream ≡ has_flag f.flags 0x02)
unfolding read_frame_flags frame_flags
read_frame_flags_sound r rest f bytes e = elim (read_full_cases 5 r) [
  | inl q ↦
      let (split, size) = read_full_sound 5 r _ _ q in
      let (p, n, fl, en, lim) =
        read_payload_sound (parse_header (take 5 r)) f (drop 5 r) rest (rw q at e) in
      let head =
        parse_sound (take 5 r) size (All_left IsByte (take 5 r) (drop 5 r) (rw split at bytes)) in
      (
        cc (split, head, p, n, fl, append_assoc (put_uint32 (length f.payload)) f.payload rest),
        omega (arith, n, lim),
        cc (en, fl),
      )
  | inr (x, q) ↦ cc (rw q at e)
]
