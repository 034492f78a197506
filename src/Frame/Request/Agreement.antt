-- ===== src/Frame/Request/Agreement.antt =====
-- The server's two passes over a stream request accept what one read of a client's frame reader
-- accepts with nothing left.
use mathlib.Core.Path.{fun_ext}
use easy_rpc_go.Base.{
  ℕ, zero, suc, ◌+◌, ◌≤◌, ◌≡◌, refl, sym, ap, ◌∙◌, arith, Bool, [], ◌∷◌, Result, ok, err, length,
  take, drop, inl, inr, length-take, length-drop, append-nil, ◌↔◌,
}
use easy_rpc_go.Text.{Bytes}
use easy_rpc_go.Code.{Error}
use easy_rpc_go.Frame.{
  Gzip, default_max_message_bytes, parse_header, has_flag, Header, Framed, read_full, read_payload,
  read_frame_flags, read_frame_decompressed, inflate, continue, lift,
}
use easy_rpc_go.Frame.Read.{read_full_cases, read_full_sound, read_payload_sound}
use easy_rpc_go.Frame.Request.{
  count_from, count_frames, count_round, count_from_nil, read_single_frame,
}

abbrev size_of : Bytes → ℕ
size_of s = (parse_header s).size

-- One frame within the limit, and nothing else.
record IsWhole (s : Bytes) : Type 0 where
  header : 5 ≤ length s
  limit : size_of s ≤ default_max_message_bytes
  exact : length s ≡ 5 + size_of s

parse_header-take : (s : Bytes) → 5 ≤ length s → parse_header (take 5 s) ≡ parse_header s
unfolding parse_header
parse_header-take (f ∷ a ∷ b ∷ c ∷ d ∷ s) h = refl
parse_header-take _ h = absurd (omega arith)

length_zero : (s : Bytes) → length s ≡ 0 → s ≡ []
length_zero [] h = refl
length_zero (b ∷ s) h = absurd (omega arith)

abbrev framed : Bytes → Framed
framed s = record {
  payload = take (size_of s) (drop 5 s);
  end_stream = has_flag (parse_header s).flags 0x02;
  flags = (parse_header s).flags;
}

read_full_exact : (n : ℕ) (s : Bytes) → n ≤ length s → read_full n s ≡ (ok (take n s), drop n s)
unfolding read_full
read_full_exact n s h = ground arith

read_payload_exact :
    (h : Header) (s : Bytes)
    → h.size ≤ default_max_message_bytes
    → length s ≡ h.size
    → read_payload h s ≡ (
      ok (record { payload = take h.size s; end_stream = has_flag h.flags 0x02; flags = h.flags }),
      [],
    )
unfolding read_payload
read_payload_exact h s limit exact = ground (
  arith,
  read_full_exact h.size s (omega arith),
  length_zero (drop h.size s) (omega (arith, length-drop h.size s)),
)

read_whole : (s : Bytes) → IsWhole s → read_frame_flags s ≡ (ok (framed s), [])
unfolding read_frame_flags
read_whole s w =
    rw (read_full_exact 5 s w.header, parse_header-take s w.header)
      (read_payload_exact (parse_header s) (drop 5 s) w.limit
        (omega (arith, length-drop 5 s, w.exact)))

read_IsWhole : (s : Bytes) (f : Framed) → read_frame_flags s ≡ (ok f, []) → IsWhole s
unfolding read_frame_flags
read_IsWhole s f e = elim (read_full_cases 5 s) [
  | inl q ↦
      let (split, five) = read_full_sound 5 s _ _ q in
      let (p, n, _, _, lim) =
        read_payload_sound (parse_header (take 5 s)) f (drop 5 s) [] (rw q at e) in
      let long : 5 ≤ length s = omega (arith, five, length-take 5 s) in
      let same = ap (λ (h : Header). h.size) (parse_header-take s long) in
      record {
        header = long;
        limit = omega (arith, lim, same);
        exact =
            omega (
              arith,
              n,
              same,
              length-drop 5 s,
              ap length p,
              ap length (append-nil f.payload),
              long,
            );
      }
  | inr (x, q) ↦ cc (rw q at e)
]

abbrev one_unless_empty : Bytes → ℕ
one_unless_empty [] = 0
one_unless_empty (b ∷ s) = 1

count_round_ok :
    (fuel n m b : ℕ) (s : Bytes)
    → count_from (suc fuel) (b ∷ s) n ≡ ok m
    → (5 ≤ length (b ∷ s))
      × (size_of (b ∷ s) ≤ default_max_message_bytes)
      × (count_from fuel (drop (5 + size_of (b ∷ s)) (b ∷ s)) (n + 1) ≡ ok m)
unfolding count_from
count_round_ok fuel n m b s e = ground arith

count_from_grows :
    (fuel n m : ℕ) (s : Bytes)
    → length s ≤ fuel
    → count_from fuel s n ≡ ok m
    → n + one_unless_empty s ≤ m
count_from_grows fuel n m [] h e = ground (arith, count_from_nil fuel n)
count_from_grows zero n m (b ∷ s) h e = absurd (omega arith)
count_from_grows (suc fuel) n m (b ∷ s) h e =
    let (_, _, later) = count_round_ok fuel n m b s e in
    let rest = drop (5 + size_of (b ∷ s)) (b ∷ s) in
    omega (
      arith,
      count_from_grows fuel (n + 1) m rest
          (omega (arith, length-drop (5 + size_of (b ∷ s)) (b ∷ s))) later,
    )

none_left : (s : Bytes) → one_unless_empty s ≤ 0 → length s ≡ 0
none_left [] h = refl
none_left (b ∷ s) h = absurd (omega arith)

-- What a count of one says of the body; the last frame may still be cut.
count_one :
    (s : Bytes)
    → count_frames s ≡ ok 1
    → (5 ≤ length s) × (size_of s ≤ default_max_message_bytes) × (length s ≤ 5 + size_of s)
unfolding count_frames
count_one [] e = ground (arith, count_from_nil 0 0)
count_one (b ∷ s) e =
    let (header, limit, later) = count_round_ok (length s) 0 1 b s e in
    let rest = drop (5 + size_of (b ∷ s)) (b ∷ s) in
    let fits : length rest ≤ length s = omega (arith, length-drop (5 + size_of (b ∷ s)) (b ∷ s)) in
    let grown = count_from_grows (length s) (0 + 1) 1 rest fits later in
    (
      header,
      limit,
      omega
          (arith, none_left rest (omega (arith, grown)), length-drop (5 + size_of (b ∷ s)) (b ∷ s)),
    )

IsWhole-count : (s : Bytes) → IsWhole s → count_frames s ≡ ok 1
unfolding count_frames
IsWhole-count [] w = absurd (omega (arith, w.header))
IsWhole-count (b ∷ s) w =
    count_round (length s) 0 (b ∷ s) w.header w.limit
    ∙ ap (λ r. count_from (length s) r (0 + 1))
        (length_zero (drop (5 + size_of (b ∷ s)) (b ∷ s))
          (omega (arith, length-drop (5 + size_of (b ∷ s)) (b ∷ s), w.exact)))
    ∙ count_from_nil (length s) (0 + 1)

module _ (gzip : Gzip) where
  single_IsWhole :
      (s p : Bytes) → count_frames s ≡ ok 1 → read_single_frame gzip s ≡ ok p → IsWhole s
  unfolding read_single_frame
  single_IsWhole s p one e =
      let (header, limit, at_most) = count_one s one in
      record { header = header; limit = limit; exact = ground arith }

  -- On a whole frame the two readers make the same of the payload.
  single-inflate :
      (s p : Bytes)
      → IsWhole s
      → (read_single_frame gzip s ≡ ok p) ↔ (inflate gzip (framed s) ≡ ok p)
  unfolding read_single_frame inflate
  single-inflate s p w = ground (arith, w.header, w.limit, w.exact)

  abbrev finish : Result Error Bytes → Bool → Bytes → Result Error (Bytes × Bool) × Bytes
  finish (ok p) e r = (ok (p, e), r)
  finish (err x) e r = (err x, r)

  finish_ok :
      (x : Result Error Bytes) (p : Bytes) (e e' : Bool) (r r' : Bytes)
      → finish x e r ≡ (ok (p, e'), r')
      → (x ≡ ok p) × (r ≡ r')
  finish_ok (ok q) p e e' r r' h = ground arith
  finish_ok (err y) p e e' r r' h = cc

  decompressed_ok :
      (x : Result Error Framed × Bytes) (p : Bytes) (end : Bool)
      → continue x (λ f. λ r. finish (inflate gzip f) f.end_stream r) ≡ (ok (p, end), [])
      → (f : Framed) × (x ≡ (ok f, [])) × (inflate gzip f ≡ ok p)
  decompressed_ok (ok f, r) p end h =
      let (e, left) = finish_ok (inflate gzip f) p f.end_stream end r [] h in
      (f, ap (λ (l : Bytes). (ok f, l)) left, e)
  decompressed_ok (err y, r) p end h = cc

  finish-continue :
      (x : Result Error Bytes) (e : Bool) (r : Bytes)
      → continue {B = Bytes × Bool} (x, r) (λ q. lift (ok (q, e))) ≡ finish x e r
  finish-continue (ok q) e r = refl
  finish-continue (err y) e r = refl

  decompressed-finish :
      (s : Bytes)
      → read_frame_decompressed gzip s
        ≡ continue (read_frame_flags s) (λ f. λ r. finish (inflate gzip f) f.end_stream r)
  unfolding read_frame_decompressed
  decompressed-finish s =
      ap (continue (read_frame_flags s))
        (fun_ext λ f. fun_ext λ r. finish-continue (inflate gzip f) f.end_stream r)

  ok_framed :
      (f g : Framed) {p : Bytes}
      → ◌≡◌ {A = Result Error Framed} (ok f) (ok g)
      → inflate gzip g ≡ ok p
      → inflate gzip f ≡ ok p
  ok_framed f g same e = ground arith

  -- The server's two passes over the request of a stream, countFrames with the result one and
  -- readSingleFrame with a payload, accept a body exactly if the frame reader of the clients reads
  -- that payload from it and leaves nothing.
  pub count_frames-read_single_frame :
      (s p : Bytes)
      → ((count_frames s ≡ ok 1) × (read_single_frame gzip s ≡ ok p))
        ↔ ((end : Bool) × (read_frame_decompressed gzip s ≡ (ok (p, end), [])))
  unfolding read_frame_decompressed
  count_frames-read_single_frame s p = (
    λ h.
        let w = single_IsWhole s p h.0 h.1 in
        (
          has_flag (parse_header s).flags 0x02,
          rw (read_whole s w, (single-inflate s p w).0 h.1) refl,
        ),
    λ h.
        let (f, read, e) =
          decompressed_ok (read_frame_flags s) p h.0 (sym (decompressed-finish s) ∙ h.1) in
        let w = read_IsWhole s f read in
        let same = ap (λ (x : Result Error Framed × Bytes). x.0) (sym (read_whole s w) ∙ read) in
        (IsWhole-count s w, (single-inflate s p w).1 (ok_framed _ _ same e)),
  )
