-- ===== src/Official/Handshake.antt =====
-- The exchange of the official conformance server with the program that runs it (main of
-- cmd/conformance-official-server/main.go): a request and a response behind their sizes. The
-- messages' runtimes are parameters; what panics is an error here.
use easy_rpc_go.Base.{ℕ, ◌<◌, ◌^◌, ◌%◌, ◌≡◌, ap, ◌∙◌, arith, ◌∷◌, ◌++◌, Result, ok, length}
use easy_rpc_go.Text.{Bytes, codes}
use easy_rpc_go.Code.{Error}
use easy_rpc_go.Frame.Read.{read_full-append}
use easy_rpc_go.Frame.{Reader, continue, ◌>>=◌, lift, read_full, put_uint32, uint32}

-- `binary.BigEndian.Uint32` of the four bytes that were read.
abbrev pub size_of : Bytes → ℕ
size_of (a ∷ b ∷ c ∷ d ∷ _) = uint32 a b c d
size_of _ = 0

-- The size and the bytes, from stdin.
unfoldable pub read_sized : Reader Bytes
unfolding read_full uint32
read_sized = do size ← read_full 4; read_full (size_of size)

unfoldable pub read_request : {R : Type 0} → (Bytes → Result Error R) → Reader R
unfolding read_sized
read_request unmarshal = do body ← read_sized; lift (unmarshal body)

-- `ServerCompatResponse`, as far as `main` fills it.
pub record ServerCompatResponse : Type 0 where
  pub host : Bytes
  pub port : ℕ

-- What is written to stdout.
unfoldable pub sized : Bytes → Bytes
unfolding put_uint32
sized out = put_uint32 (length out) ++ out

unfoldable pub written_response : (ServerCompatResponse → Bytes) → ℕ → Bytes
unfolding sized
written_response marshal port =
    sized (marshal (record { host = codes "127.0.0.1"; port = port % 2 ^ 32 }))

size-put_uint32 : (n : ℕ) → n < 2 ^ 32 → size_of (put_uint32 n) ≡ n
unfolding put_uint32 uint32
size-put_uint32 n h = omega arith

-- The size in front of a message of less than 2 ^ 32 bytes is read back with the message, and
-- nothing behind it is touched.
pub read_sized-sized :
    (out rest : Bytes) → length out < 2 ^ 32 → read_sized (sized out ++ rest) ≡ (ok out, rest)
unfolding read_sized sized put_uint32
read_sized-sized out rest small =
    ap (λ x. continue x (λ size. read_full (size_of size)))
      (read_full-append (put_uint32 (length out)) (out ++ rest))
    ∙ ap (λ n. read_full n (out ++ rest)) (size-put_uint32 (length out) small)
    ∙ read_full-append out rest
