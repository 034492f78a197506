-- ===== src/Base64.antt =====
-- The base64 of error details (protocol.go: the calls of base64.RawStdEncoding, decodeWireBase64).
-- `RawStdEncoding` is encoding/base64 without padding: it reads groups of four characters, skips
-- line breaks and refuses a last group of one character.
pub mod RoundTrip
use easy_rpc_go.Base.{
  ℕ, ◌+◌, ◌-◌, ◌*◌, ◌/◌, ◌%◌, Bool, true, false, ◌&&◌, ◌||◌, List, [], ◌∷◌, map, Option, none, some,
  ltb, leb, ◌==◌, if◌then◌else◌,
}
use easy_rpc_go.Base.Options.{◌>>=◌}
use easy_rpc_go.Text.{Bytes, trim_right}

-- The alphabet `A-Za-z0-9+/`.
unfoldable pub sextet_char : ℕ → ℕ
sextet_char n =
    if ltb n 26
    then b'A' + n
    else if ltb n 52
    then b'a' + (n - 26)
    else if ltb n 62
    then b'0' + (n - 52)
    else if n == 62
    then b'+'
    else b'/'

-- The reverse table; `none` is the entry 0xff.
unfoldable pub char_sextet : ℕ → Option ℕ
char_sextet c =
    if leb b'A' c && leb c b'Z'
    then some (c - b'A')
    else if leb b'a' c && leb c b'z'
    then some (c - b'a' + 26)
    else if leb b'0' c && leb c b'9'
    then some (c - b'0' + 52)
    else if c == b'+'
    then some 62
    else if c == b'/'
    then some 63
    else none

-- `RawStdEncoding.EncodeToString`: three bytes to four characters.
unfoldable pub encode : Bytes → Bytes
unfolding sextet_char
encode [] = []
encode (a ∷ []) = sextet_char (a / 4) ∷ sextet_char (a % 4 * 16) ∷ []
encode (a ∷ b ∷ []) =
    sextet_char (a / 4) ∷ sextet_char (a % 4 * 16 + b / 16) ∷ sextet_char (b % 16 * 4) ∷ []
encode (a ∷ b ∷ c ∷ rest) =
    sextet_char (a / 4)
    ∷ sextet_char (a % 4 * 16 + b / 16)
    ∷ sextet_char (b % 16 * 4 + c / 64)
    ∷ sextet_char (c % 64)
    ∷ encode rest

-- The sextets of a text without its line breaks; `none` is a `CorruptInputError`.
unfoldable pub sextets : Bytes → Option (List ℕ)
unfolding char_sextet
sextets [] = some []
sextets (c ∷ s) =
    let rest = sextets s in
    if c == 10 || c == 13 then rest else do v ← char_sextet c; vs ← rest; some (v ∷ vs)

-- Four sextets to three bytes; the last group may be short, and its spare bits are ignored.
unfoldable pub join : List ℕ → Option Bytes
join [] = some []
join (a ∷ []) = none
join (a ∷ b ∷ []) = some ((a * 4 + b / 16) ∷ [])
join (a ∷ b ∷ c ∷ []) = some ((a * 4 + b / 16) ∷ (b % 16 * 16 + c / 4) ∷ [])
join (a ∷ b ∷ c ∷ d ∷ rest) = do
  tail ← join rest
  some ((a * 4 + b / 16) ∷ (b % 16 * 16 + c / 4) ∷ (c % 4 * 64 + d) ∷ tail)

-- `RawStdEncoding.DecodeString`.
unfoldable pub decode : Bytes → Option Bytes
unfolding sextets join
decode s = do vs ← sextets s; join vs

-- `strings.NewReplacer("-", "+", "_", "/")`, on one byte.
unfoldable pub standard_char : ℕ → ℕ
standard_char c = if c == b'-' then b'+' else if c == b'_' then b'/' else c

unfoldable pub decode_wire_base64 : Bytes → Option Bytes
unfolding decode standard_char trim_right
decode_wire_base64 v = decode (map standard_char (trim_right (λ c. c == b'=') v))
