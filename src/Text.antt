-- ===== src/Text.antt =====
-- Go strings and byte slices, and the functions of `strings`, `net/textproto` and `strconv` that
-- the sources call. A string is the list of its bytes. Case, folding and white space are those of
-- ASCII, which is what header names, content types and codings are written in.
pub mod Laws
pub mod Trim
pub mod Decimal
use Prim.Native.Char.{code}
use easy_rpc_go.Base.{
  ℕ, suc, ◌+◌, ◌-◌, String, Bool, true, false, ◌&&◌, ◌||◌, List, [], ◌∷◌, ◌++◌, map, Option, none,
  some, ltb, leb, ◌==◌, if◌then◌else◌,
}

abbrev pub Bytes : Type 0
Bytes = List ℕ

-- The bytes of an ASCII literal.
abbrev pub codes : String → Bytes
codes String.[] = []
codes (String.◌∷◌ c s) = code c ∷ codes s

-- `a == b` on strings.
unfoldable pub eq_text : Bytes → Bytes → Bool
eq_text [] [] = true
eq_text [] (b ∷ t) = false
eq_text (a ∷ s) [] = false
eq_text (a ∷ s) (b ∷ t) = a == b && eq_text s t

-- `s == ""`, and `len(s) == 0`.
abbrev pub is_empty : Bytes → Bool
is_empty [] = true
is_empty (c ∷ s) = false

unfoldable pub lower_byte : ℕ → ℕ
lower_byte c = if leb b'A' c && leb c b'Z' then c + 32 else c

unfoldable pub upper_byte : ℕ → ℕ
upper_byte c = if leb b'a' c && leb c b'z' then c - 32 else c

-- `strings.ToLower`.
unfoldable pub to_lower : Bytes → Bytes
unfolding lower_byte
to_lower = map lower_byte

-- `strings.EqualFold`.
unfoldable pub equal_fold : Bytes → Bytes → Bool
unfolding eq_text to_lower
equal_fold s t = eq_text (to_lower s) (to_lower t)

unfoldable pub is_space : ℕ → Bool
is_space c = c == 32 || (leb 9 c && leb c 13)

-- `strings.TrimLeft(s, " \t…")`, and the bytes of `s` up to the last that is not white space.
unfoldable pub trim_left : Bytes → Bytes
unfolding is_space
trim_left [] = []
trim_left (c ∷ s) = if is_space c then trim_left s else c ∷ s

-- One byte in front of a trimmed rest.
unfoldable pub trim_step : (ℕ → Bool) → ℕ → Bytes → Bytes
trim_step cut c [] = if cut c then [] else c ∷ []
trim_step cut c (d ∷ s) = c ∷ d ∷ s

-- `strings.TrimRightFunc(s, cut)`; `strings.TrimRight(s, "=")` cuts one byte value.
unfoldable pub trim_right : (ℕ → Bool) → Bytes → Bytes
unfolding trim_step
trim_right cut [] = []
trim_right cut (c ∷ s) = trim_step cut c (trim_right cut s)

-- `strings.TrimSpace`.
unfoldable pub trim_space : Bytes → Bytes
unfolding trim_left trim_right is_space
trim_space s = trim_right is_space (trim_left s)

-- `strings.HasPrefix(s, p)`.
unfoldable pub has_prefix : Bytes → Bytes → Bool
has_prefix s [] = true
has_prefix [] (b ∷ p) = false
has_prefix (a ∷ s) (b ∷ p) = a == b && has_prefix s p

-- What stands before the first `sep`, or all: `strings.SplitN(s, sep, 2)[0]`, and
-- `s[:strings.IndexByte(s, sep)]` where there is one.
unfoldable pub before : ℕ → Bytes → Bytes
before sep [] = []
before sep (c ∷ s) = if c == sep then [] else c ∷ before sep s

abbrev extend_first : ℕ → List Bytes → List Bytes
extend_first c [] = (c ∷ []) ∷ []
extend_first c (w ∷ ws) = (c ∷ w) ∷ ws

-- `strings.Split(s, sep)` for a separator of one byte.
unfoldable pub split : ℕ → Bytes → List Bytes
split sep [] = [] ∷ []
split sep (c ∷ s) = let rest = split sep s in if c == sep then [] ∷ rest else extend_first c rest

-- `validHeaderFieldByte` of net/textproto: the bytes of an HTTP token.
unfoldable pub is_token : ℕ → Bool
unfolding eq_text
is_token c =
    (leb b'a' c && leb c b'z')
    || (leb b'A' c && leb c b'Z')
    || (leb b'0' c && leb c b'9')
    || c == b'!'
    || c == b'#'
    || c == b'$'
    || c == b'%'
    || c == b'&'
    || c == 39
    || c == b'*'
    || c == b'+'
    || c == b'-'
    || c == b'.'
    || c == b'^'
    || c == b'_'
    || c == b'`'
    || c == b'|'
    || c == b'~'

unfoldable pub all_token : Bytes → Bool
unfolding is_token
all_token [] = true
all_token (c ∷ s) = is_token c && all_token s

-- The loop of `textproto.CanonicalMIMEHeaderKey`: `upper` at the start and behind a dash.
unfoldable pub canonical_from : Bool → Bytes → Bytes
unfolding lower_byte upper_byte
canonical_from upper [] = []
canonical_from upper (c ∷ s) =
    (if upper then upper_byte c else lower_byte c) ∷ canonical_from (c == b'-') s

-- `http.CanonicalHeaderKey`: a name with a byte that no token has is left alone.
unfoldable pub canonical_header_key : Bytes → Bytes
unfolding all_token canonical_from
canonical_header_key k = if all_token k then canonical_from true k else k
