-- ===== src/Base64/RoundTrip.antt =====
-- Decoding what was encoded, in each of the spellings that `decodeWireBase64` accepts.
use easy_rpc_go.Base.{
  ℕ, zero, suc, ◌+◌, ◌*◌, ◌/◌, ◌%◌, ◌<◌, ◌≡◌, ◌≢◌, refl, sym, ap, ◌∙◌, arith, Bool, true, false,
  ◌||◌, List, [], ◌∷◌, ◌++◌, map, some, ◌==◌, if◌then◌else◌, All, IsByte, append-nil,
}
use easy_rpc_go.Text.{Bytes, trim_right, trim_step}
use easy_rpc_go.Base64.{
  sextet_char, char_sextet, encode, sextets, join, decode, standard_char, decode_wire_base64,
}

-- The code of a sextet is read back, and is no line break.
char_of_sextet :
    (n : ℕ)
    → n < 64
    → (char_sextet (sextet_char n) ≡ some n)
      × ((sextet_char n == 10 || sextet_char n == 13) ≡ false)
unfolding char_sextet sextet_char
char_of_sextet n h = ground arith

sextets-cons :
    (n : ℕ) (s : Bytes) (vs : List ℕ)
    → n < 64
    → sextets s ≡ some vs
    → sextets (sextet_char n ∷ s) ≡ some (n ∷ vs)
unfolding sextets
sextets-cons n s vs h e = let (read, line) = char_of_sextet n h in rw (line, e) (rw read refl)

-- The sextets of a byte sequence.
abbrev split_bytes : Bytes → List ℕ
split_bytes [] = []
split_bytes (a ∷ []) = a / 4 ∷ a % 4 * 16 ∷ []
split_bytes (a ∷ b ∷ []) = a / 4 ∷ (a % 4 * 16 + b / 16) ∷ b % 16 * 4 ∷ []
split_bytes (a ∷ b ∷ c ∷ rest) =
    a / 4 ∷ (a % 4 * 16 + b / 16) ∷ (b % 16 * 4 + c / 64) ∷ c % 64 ∷ split_bytes rest

sextets-nil : sextets [] ≡ some []
unfolding sextets
sextets-nil = refl

sextets-encode : (s : Bytes) → All IsByte s → sextets (encode s) ≡ some (split_bytes s)
unfolding encode
sextets-encode [] h = sextets-nil
sextets-encode (a ∷ []) h =
    sextets-cons (a / 4) _ _ (omega arith) (sextets-cons (a % 4 * 16) _ _ (omega arith) sextets-nil)
sextets-encode (a ∷ b ∷ []) h = sextets-cons (a / 4) _ _ (omega arith) (
    sextets-cons (a % 4 * 16 + b / 16) _ _ (omega arith)
      (sextets-cons (b % 16 * 4) _ _ (omega arith) sextets-nil))
sextets-encode (a ∷ b ∷ c ∷ rest) (ha, (hb, (hc, h))) = sextets-cons (a / 4) _ _ (omega arith) (
    sextets-cons (a % 4 * 16 + b / 16) _ _ (omega arith) (
      sextets-cons (b % 16 * 4 + c / 64) _ _ (omega arith)
        (sextets-cons (c % 64) _ _ (omega arith) (sextets-encode rest h))))

join-split_bytes : (s : Bytes) → All IsByte s → join (split_bytes s) ≡ some s
unfolding join
join-split_bytes [] h = refl
join-split_bytes (a ∷ []) h = ground arith
join-split_bytes (a ∷ b ∷ []) h = ground arith
join-split_bytes (a ∷ b ∷ c ∷ rest) (ha, (hb, (hc, h))) =
    rw (join-split_bytes rest h) (ground arith)

-- `DecodeString` gives back the bytes that `EncodeToString` was given.
pub decode-encode : (s : Bytes) → All IsByte s → decode (encode s) ≡ some s
unfolding decode
decode-encode s h = rw (sextets-encode s h) (join-split_bytes s h)

-- The URL-safe character for a standard one.
abbrev pub url_char : ℕ → ℕ
url_char c = if c == b'+' then b'-' else if c == b'/' then b'_' else c

abbrev pub padding : ℕ → Bytes
padding zero = []
padding (suc k) = b'=' ∷ padding k

-- One of the spellings of a base64 text: URL-safe or standard, with `k` padding characters.
abbrev pub spelling : Bool → ℕ → Bytes → Bytes
spelling url k s = map (if url then url_char else (λ c. c)) s ++ padding k

-- What the code relies on in an encoded text: no padding, and both alphabets lead back to it.
abbrev IsSextetChar : ℕ → Type 0
IsSextetChar c =
    (standard_char c ≡ c) × (standard_char (url_char c) ≡ c) × (c ≢ b'=') × (url_char c ≢ b'=')

sextet_char-IsSextetChar : (n : ℕ) → n < 64 → IsSextetChar (sextet_char n)
unfolding sextet_char standard_char
sextet_char-IsSextetChar n h = ground arith

encode-IsSextetChar : (s : Bytes) → All IsByte s → All IsSextetChar (encode s)
unfolding encode
encode-IsSextetChar [] h = tt
encode-IsSextetChar (a ∷ []) h = (
  sextet_char-IsSextetChar (a / 4) (omega arith),
  (sextet_char-IsSextetChar (a % 4 * 16) (omega arith), tt),
)
encode-IsSextetChar (a ∷ b ∷ []) h = (
  sextet_char-IsSextetChar (a / 4) (omega arith),
  (
    sextet_char-IsSextetChar (a % 4 * 16 + b / 16) (omega arith),
    (sextet_char-IsSextetChar (b % 16 * 4) (omega arith), tt),
  ),
)
encode-IsSextetChar (a ∷ b ∷ c ∷ rest) (ha, (hb, (hc, h))) = (
  sextet_char-IsSextetChar (a / 4) (omega arith),
  (
    sextet_char-IsSextetChar (a % 4 * 16 + b / 16) (omega arith),
    (
      sextet_char-IsSextetChar (b % 16 * 4 + c / 64) (omega arith),
      (sextet_char-IsSextetChar (c % 64) (omega arith), encode-IsSextetChar rest h),
    ),
  ),
)

trim_right-padding : (k : ℕ) → trim_right (λ c. c == b'=') (padding k) ≡ []
unfolding trim_right
trim_right-padding zero = refl
trim_right-padding (suc k) = rw (trim_right-padding k)

trim_step_keeps : (cut : ℕ → Bool) (c : ℕ) (s : Bytes) → cut c ≡ false → trim_step cut c s ≡ c ∷ s
unfolding trim_step
trim_step_keeps cut c [] h = rw h
trim_step_keeps cut c (d ∷ s) h = refl

trim_right-append :
    (s pad : Bytes)
    → All (λ c. c ≢ b'=') s
    → trim_right (λ c. c == b'=') pad ≡ []
    → trim_right (λ c. c == b'=') (s ++ pad) ≡ s
unfolding trim_right
trim_right-append [] pad h e = e
trim_right-append (c ∷ s) pad (hc, h) e =
    rw (trim_right-append s pad h e) (trim_step_keeps (λ d. d == b'=') c s (ground arith))

standard_spelled :
    (url : Bool) (s : Bytes)
    → All IsSextetChar s
    → (map standard_char (map (if url then url_char else (λ c. c)) s) ≡ s)
      × All (λ c. c ≢ b'=') (map (if url then url_char else (λ c. c)) s)
standard_spelled url [] h = (refl, tt)
standard_spelled true (c ∷ s) ((_, q, _, v), h) =
    let (e, a) = standard_spelled true s h in (cc, (v, a))
standard_spelled false (c ∷ s) ((p, _, u, _), h) =
    let (e, a) = standard_spelled false s h in (cc, (u, a))

-- Standard or URL-safe, with any padding: decodeWireBase64 reads each of these spellings of an
-- encoded value back as the value, a list of bytes.
pub decode_wire_base64-spelling :
    (s : Bytes) (url : Bool) (k : ℕ)
    → All IsByte s
    → decode_wire_base64 (spelling url k (encode s)) ≡ some s
unfolding decode_wire_base64
decode_wire_base64-spelling s url k h =
    let (standard, plain) = standard_spelled url (encode s) (encode-IsSextetChar s h) in
    rw (trim_right-append _ (padding k) plain (trim_right-padding k), standard) (decode-encode s h)

map_same : (s : Bytes) → map (λ c. c) s ≡ s
map_same [] = refl
map_same (c ∷ s) = ap (λ t. c ∷ t) (map_same s)

-- As the package itself writes it.
pub decode_wire_base64-encode : (s : Bytes) → All IsByte s → decode_wire_base64 (encode s) ≡ some s
decode_wire_base64-encode s h =
    ap decode_wire_base64 (sym (append-nil _ ∙ map_same (encode s)))
    ∙ decode_wire_base64-spelling s false 0 h
