-- ===== src/Text/Decimal.antt =====
-- `strconv.Itoa` and `strconv.Atoi` of a 64-bit `int`, and that the one reads what the other
-- writes.
use easy_rpc_go.Base.{
  ℕ, zero, suc, ◌+◌, ◌-◌, ◌*◌, ◌/◌, ◌%◌, ◌^◌, ◌≤◌, ◌<◌, ◌≡◌, ◌≢◌, refl, ◌∙◌, Bool, true, false,
  ◌&&◌, [], ◌∷◌, ltb, leb, ◌==◌, if◌then◌else◌, arith,
}
use easy_rpc_go.Base.Int.{ℤ, pos, negsuc}
use easy_rpc_go.Text.{Bytes}

-- `n > 0 { … n /= 10 }`, with `n` rounds of fuel, which are more than it takes.
unfoldable pub digits : ℕ → ℕ → Bytes → Bytes
digits zero n out = out
digits (suc fuel) n out =
    let more = digits fuel (n / 10) ((b'0' + n % 10) ∷ out) in if n == 0 then out else more

unfoldable pub format_uint : ℕ → Bytes
unfolding digits
format_uint n = if n == 0 then b'0' ∷ [] else digits n n []

unfoldable pub itoa : ℤ → Bytes
unfolding format_uint
itoa (pos n) = format_uint n
itoa (negsuc n) = b'-' ∷ format_uint (n + 1)

-- `strconv.ParseUint(s, 10, 64)`: the errors end the loop where they are met.
pub data Scan : Type 0 where
  value : ℕ → Scan
  syntax out_of_range : Scan

unfoldable pub is_digit : ℕ → Bool
is_digit c = leb b'0' c && leb c b'9'

unfoldable pub scan : Bytes → ℕ → Scan
unfolding is_digit
scan [] n = value n
scan (c ∷ s) n =
    let m = n * 10 + (c - b'0') in
    let rest = scan s m in
    if is_digit c then if ltb (2 ^ 64 - 1) m then out_of_range else rest else syntax

unfoldable pub parse_uint : Bytes → Scan
unfolding scan
parse_uint [] = syntax
parse_uint (c ∷ s) = scan (c ∷ s) 0

-- What `strconv.ParseInt(s, 10, 64)` makes of it: the value, and whether there was no error.
unfoldable pub with_sign : Bool → Scan → ℤ × Bool
with_sign minus syntax = (pos 0, false)
with_sign true out_of_range = (negsuc (2 ^ 63 - 1), false)
with_sign false out_of_range = (pos (2 ^ 63 - 1), false)
with_sign false (value n) = if leb (2 ^ 63) n then (pos (2 ^ 63 - 1), false) else (pos n, true)
with_sign true (value n) =
    if ltb (2 ^ 63) n
    then (negsuc (2 ^ 63 - 1), false)
    else (if n == 0 then pos 0 else negsuc (n - 1), true)

unfoldable pub atoi : Bytes → ℤ × Bool
unfolding with_sign parse_uint
atoi [] = (pos 0, false)
atoi (c ∷ s) =
    if c == b'-'
    then with_sign true (parse_uint s)
    else if c == b'+'
    then with_sign false (parse_uint s)
    else with_sign false (parse_uint (c ∷ s))

scan_last : (n : ℕ) (out : Bytes) → n < 2 ^ 64 → scan ((b'0' + n % 10) ∷ out) (n / 10) ≡ scan out n
unfolding scan
scan_last n out h = ground arith

scan-digits :
    (fuel n : ℕ) (out : Bytes) → n ≤ fuel → n < 2 ^ 64 → scan (digits fuel n out) 0 ≡ scan out n
unfolding digits
scan-digits zero n out h k = ground arith
scan-digits (suc fuel) n out h k =
    ground (arith, scan-digits fuel (n / 10) ((b'0' + n % 10) ∷ out), scan_last n out)

-- The first byte is a digit, so no sign is read.
abbrev StartsDigit : Bytes → Type 0
StartsDigit [] = ⊥
StartsDigit (c ∷ s) = (b'0' ≤ c) × (c ≤ b'9')

digits-StartsDigit : (fuel n : ℕ) (out : Bytes) → StartsDigit out → StartsDigit (digits fuel n out)
unfolding digits
digits-StartsDigit zero n out h = h
digits-StartsDigit (suc fuel) n out h =
    ground (arith, digits-StartsDigit fuel (n / 10) ((b'0' + n % 10) ∷ out) (omega arith))

format_uint-StartsDigit : (n : ℕ) → StartsDigit (format_uint n)
unfolding format_uint
format_uint-StartsDigit zero = omega arith
format_uint-StartsDigit (suc n) =
    ground (arith, digits-StartsDigit n (suc n / 10) ((b'0' + suc n % 10) ∷ []) (omega arith))

parse_uint-scan : (s : Bytes) → StartsDigit s → parse_uint s ≡ scan s 0
unfolding parse_uint
parse_uint-scan [] h = elim h [ ]
parse_uint-scan (c ∷ s) h = refl

scan-format_uint : (n : ℕ) → n < 2 ^ 64 → scan (format_uint n) 0 ≡ value n
unfolding format_uint scan
scan-format_uint zero h = refl
scan-format_uint (suc n) h = ground (arith, scan-digits (suc n) (suc n) [] (omega arith) h)

pub parse_uint-format_uint : (n : ℕ) → n < 2 ^ 64 → parse_uint (format_uint n) ≡ value n
parse_uint-format_uint n h =
    parse_uint-scan (format_uint n) (format_uint-StartsDigit n) ∙ scan-format_uint n h

atoi_of_digit : (s : Bytes) → StartsDigit s → atoi s ≡ with_sign false (parse_uint s)
unfolding atoi
atoi_of_digit [] h = elim h [ ]
atoi_of_digit (c ∷ s) h = ground arith

-- The range of a 64-bit `int`.
abbrev pub IsInt64 : ℤ → Type 0
IsInt64 (pos n) = n < 2 ^ 63
IsInt64 (negsuc n) = n < 2 ^ 63

with_sign_minus : (n : ℕ) → n < 2 ^ 63 → with_sign true (value (n + 1)) ≡ (negsuc n, true)
unfolding with_sign
with_sign_minus n h = ground arith

with_sign_plus : (n : ℕ) → n < 2 ^ 63 → with_sign false (value n) ≡ (pos n, true)
unfolding with_sign
with_sign_plus n h = ground arith

-- `Atoi` reads back the int64 that `Itoa` wrote, without an error.
pub atoi-itoa : (z : ℤ) → IsInt64 z → atoi (itoa z) ≡ (z, true)
unfolding itoa
atoi-itoa (pos n) h =
    atoi_of_digit (format_uint n) (format_uint-StartsDigit n)
    ∙ rw (parse_uint-format_uint n (omega arith)) (with_sign_plus n h)
atoi-itoa (negsuc n) h =
    unfold atoi in rw (parse_uint-format_uint (n + 1) (omega arith)) (with_sign_minus n h)

pub itoa-ne-nil : (z : ℤ) → itoa z ≢ []
unfolding itoa
itoa-ne-nil (pos n) e = let h = format_uint-StartsDigit n in rw e at h
itoa-ne-nil (negsuc n) e = cc
