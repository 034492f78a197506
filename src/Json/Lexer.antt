-- ===== src/Json/Lexer.antt =====
-- The bytes of a JSON text, cut into tokens by a machine over the bytes, as the scanner of
-- encoding/json is one.
use easy_rpc_go.Base.{
  ℕ, zero, suc, ◌+◌, ◌-◌, ◌*◌, ◌/◌, ◌%◌, ◌<◌, ◌≡◌, refl, ap, ◌∙◌, arith, Bool, false, ◌&&◌, ◌||◌,
  List, [], ◌∷◌, ◌++◌, append_assoc, append-nil, Bool-cases, Option, none, some, ltb, leb, ◌==◌,
  All, Option-cases, inl, inr, if◌then◌else◌,
}
use easy_rpc_go.Base.Options.{◌>>=◌}
use easy_rpc_go.Text.{Bytes}
use easy_rpc_go.Json.{IsPlain}
use easy_rpc_go.Json.Tokens.{
  Token, open_array, close_array, open_object, close_object, comma, colon, str, word, short_escape,
  hex_digit, is_unsafe, escape_other, escape_with, escape, spell,
}

-- Where the machine stands: between tokens, in a text, behind its backslash, in a code of four
-- digits with those still to come and the value so far, in a word; each with what it has read.
pub data Mode : Type 0 where
  between : Mode
  in_text in_escape in_word : Bytes → Mode
  in_code : ℕ → ℕ → Bytes → Mode

unfoldable pub is_word_byte : ℕ → Bool
is_word_byte c =
    (leb b'a' c && leb c b'z')
    || (leb b'0' c && leb c b'9')
    || (c == b'-')
    || (c == b'+')
    || (c == b'.')
    || (c == b'E')

unfoldable pub begin : ℕ → Option (List Token × Mode)
unfolding is_word_byte
begin c =
    if (c == b' ') || (c == 9) || (c == 10) || (c == 13)
    then some ([], between)
    else if c == b'['
    then some (open_array ∷ [], between)
    else if c == b']'
    then some (close_array ∷ [], between)
    else if c == b'{'
    then some (open_object ∷ [], between)
    else if c == b'}'
    then some (close_object ∷ [], between)
    else if c == b','
    then some (comma ∷ [], between)
    else if c == b':'
    then some (colon ∷ [], between)
    else if c == b'"'
    then some ([], in_text [])
    else if is_word_byte c
    then some ([], in_word (c ∷ []))
    else none

-- The byte of a short escape.
unfoldable pub escaped : ℕ → Option ℕ
escaped c =
    if (c == b'"') || (c == b'\\') || (c == b'/')
    then some c
    else if c == b'b'
    then some 8
    else if c == b'f'
    then some 12
    else if c == b'n'
    then some 10
    else if c == b'r'
    then some 13
    else if c == b't'
    then some 9
    else none

unfoldable pub hex_value : ℕ → Option ℕ
hex_value c =
    if leb b'0' c && leb c b'9'
    then some (c - b'0')
    else if leb b'a' c && leb c b'f'
    then some (c - b'a' + 10)
    else if leb b'A' c && leb c b'F'
    then some (c - b'A' + 10)
    else none

-- The UTF-8 bytes of a code below 2^16.
unfoldable pub utf8 : ℕ → Bytes
utf8 n =
    if ltb n 128
    then n ∷ []
    else if ltb n 2048
    then (192 + n / 64) ∷ (128 + n % 64) ∷ []
    else (224 + n / 4096) ∷ (128 + n / 64 % 64) ∷ (128 + n % 64) ∷ []

abbrev unescape : Bytes → ℕ → Option ℕ → Option (List Token × Mode)
unescape s c (some b) = some ([], in_text (s ++ b ∷ []))
unescape s c none = if c == b'u' then some ([], in_code 3 0 s) else none

unfoldable pub step : Mode → ℕ → Option (List Token × Mode)
unfolding begin escaped hex_value utf8
step between c = begin c
step (in_text s) c =
    if c == b'"'
    then some (str s ∷ [], between)
    else if c == b'\\'
    then some ([], in_escape s)
    else if ltb c 32
    then none
    else some ([], in_text (s ++ c ∷ []))
step (in_escape s) c = unescape s c (escaped c)
step (in_code zero n s) c = do d ← hex_value c; some ([], in_text (s ++ utf8 (n * 16 + d)))
step (in_code (suc k) n s) c = do d ← hex_value c; some ([], in_code k (n * 16 + d) s)
step (in_word s) c =
    if is_word_byte c
    then some ([], in_word (s ++ c ∷ []))
    else do (ts, m) ← begin c; some (word s ∷ ts, m)

unfoldable pub lex : Mode → Bytes → Option (List Token)
unfolding step
lex between [] = some []
lex (in_word s) [] = some (word s ∷ [])
lex (in_text s) [] = none
lex (in_escape s) [] = none
lex (in_code k n s) [] = none
lex m (c ∷ s) = do (ts, m') ← step m c; us ← lex m' s; some (ts ++ us)

-- A text token of plain bytes, or a mark.
abbrev pub IsClean : Token → Type 0
IsClean (str s) = IsPlain s
IsClean (word s) = ⊥
IsClean t = Unit

same_some : (o : Option (List Token)) → (do us ← o; some us) ≡ o
same_some none = refl
same_some (some us) = refl

-- A byte that makes no token yet.
quiet : (m m' : Mode) (c : ℕ) (s : Bytes) → step m c ≡ some ([], m') → lex m (c ∷ s) ≡ lex m' s
unfolding lex
quiet m m' c s e = rw (e, lex) (same_some (lex m' s))

escaped-short_escape : (c x : ℕ) → short_escape c ≡ some x → escaped x ≡ some c
unfolding short_escape escaped
escaped-short_escape c x e = ground arith

hex_value-hex_digit : (d : ℕ) → d < 16 → hex_value (hex_digit d) ≡ some d
unfolding hex_value hex_digit
hex_value-hex_digit d h = ground arith

utf8_ascii : (n : ℕ) → n < 128 → utf8 n ≡ n ∷ []
unfolding utf8
utf8_ascii n h = ground arith

plain_step :
    (acc : Bytes) (c : ℕ)
    → short_escape c ≡ none
    → is_unsafe c ≡ false
    → step (in_text acc) c ≡ some ([], in_text (acc ++ c ∷ []))
unfolding short_escape is_unsafe step
plain_step acc c e u = ground arith

escape_step :
    (acc : Bytes) (c x : ℕ)
    → escaped x ≡ some c
    → step (in_escape acc) x ≡ some ([], in_text (acc ++ c ∷ []))
unfolding step
escape_step acc c x e = rw (e, step) refl

code_step :
    (acc : Bytes) (k n d c : ℕ)
    → hex_value c ≡ some d
    → step (in_code (suc k) n acc) c ≡ some ([], in_code k (n * 16 + d) acc)
unfolding step
code_step acc k n d c e = rw (e, step) refl

last_code_step :
    (acc : Bytes) (n d c : ℕ)
    → hex_value c ≡ some d
    → n * 16 + d < 128
    → step (in_code zero n acc) c ≡ some ([], in_text (acc ++ (n * 16 + d) ∷ []))
unfolding step
last_code_step acc n d c e h = rw (e, step) (rw (utf8_ascii (n * 16 + d) h) refl)

lex_code :
    (acc r : Bytes) (c : ℕ)
    → c < 128
    → lex (in_text acc) (b'\\' ∷ b'u' ∷ b'0' ∷ b'0' ∷ hex_digit (c / 16) ∷ hex_digit (c % 16) ∷ r)
      ≡ lex (in_text (acc ++ c ∷ [])) r
unfolding step begin escaped hex_value
lex_code acc r c h =
    quiet (in_text acc) (in_escape acc) _ _ refl
    ∙ quiet (in_escape acc) (in_code 3 0 acc) _ _ refl
    ∙ quiet (in_code 3 0 acc) (in_code 2 0 acc) _ _ refl
    ∙ quiet (in_code 2 0 acc) (in_code 1 0 acc) _ _ refl
    ∙ quiet (in_code 1 0 acc) (in_code 0 (0 * 16 + c / 16) acc) _ _ (
        code_step acc 0 0 (c / 16) (hex_digit (c / 16))
          (hex_value-hex_digit (c / 16) (omega arith)))
    ∙ quiet (in_code 0 (0 * 16 + c / 16) acc) _ _ _ (
        last_code_step acc (0 * 16 + c / 16) (c % 16) (hex_digit (c % 16))
          (hex_value-hex_digit (c % 16) (omega arith)) (omega arith))
    ∙ ap (λ n. lex (in_text (acc ++ n ∷ [])) r) (omega arith)

lex_char :
    (acc r : Bytes) (c : ℕ)
    → c < 128
    → lex (in_text acc) (escape_with (short_escape c) c ++ r) ≡ lex (in_text (acc ++ c ∷ [])) r
unfolding escape_other
lex_char acc r c h = elim (Option-cases (short_escape c)) [
  | inr (x, e) ↦ rw e (
      quiet (in_text acc) (in_escape acc) b'\\' (x ∷ r) (unfold step in refl)
      ∙ quiet (in_escape acc) _ x r (escape_step acc c x (escaped-short_escape c x e)))
  | inl e ↦ elim (Bool-cases (is_unsafe c)) [
    | inl u ↦ rw (e, u) (lex_code acc r c h)
    | inr u ↦ rw (e, u) (quiet _ _ c r (plain_step acc c e u))
  ]
]

lex_text :
    (s : Bytes) (acc r : Bytes)
    → IsPlain s
    → lex (in_text acc) (escape s ++ r) ≡ lex (in_text (acc ++ s)) r
unfolding escape
lex_text [] acc r h = rw (append-nil acc) refl
lex_text (c ∷ s) acc r (hc, h) =
    ap (lex (in_text acc)) (append_assoc (escape_with (short_escape c) c) (escape s) r)
    ∙ lex_char acc (escape s ++ r) c hc
    ∙ lex_text s (acc ++ c ∷ []) r h
    ∙ ap (λ t. lex (in_text t) r) (append_assoc acc (c ∷ []) s)

-- The machine finds the tokens that were spelled.
pub lex-spell : (ts : List Token) → All IsClean ts → lex between (spell ts) ≡ some ts
unfolding lex spell step begin
lex-spell [] h = refl
lex-spell (open_array ∷ ts) (_, h) = rw (lex-spell ts h) refl
lex-spell (close_array ∷ ts) (_, h) = rw (lex-spell ts h) refl
lex-spell (open_object ∷ ts) (_, h) = rw (lex-spell ts h) refl
lex-spell (close_object ∷ ts) (_, h) = rw (lex-spell ts h) refl
lex-spell (comma ∷ ts) (_, h) = rw (lex-spell ts h) refl
lex-spell (colon ∷ ts) (_, h) = rw (lex-spell ts h) refl
lex-spell (str s ∷ ts) (p, h) = rw (lex_text s [] (b'"' ∷ spell ts) p, lex-spell ts h) refl
lex-spell (word s ∷ ts) (p, h) = absurd p
