-- ===== src/Tests/Texts.antt =====
-- Headers, numbers, codes and messages.
use mathlib.Core.List.{Permᴰ}
use easy_rpc_go.Base.{
  Option, List, ℕ, ◌≤◌, ◌≡◌, ◌⊎◌, refl, arith, true, false, [], ◌∷◌, ◌++◌, map, none, some, ok,
}
use easy_rpc_go.Base.Int.{ℤ, pos, negsuc, is_positive}
use easy_rpc_go.Text.{Bytes, codes, to_lower, canonical_header_key, has_prefix}
use easy_rpc_go.Text.Laws.{to_lower-canonical}
use easy_rpc_go.Text.Decimal.{itoa, atoi, atoi-itoa}
use easy_rpc_go.Base64.{encode, decode_wire_base64}
use easy_rpc_go.Base64.RoundTrip.{spelling, decode_wire_base64-spelling}
use easy_rpc_go.Code.{code_to_string, code_from_string}
use easy_rpc_go.Code.Names.{IsNamed, IsUnnamed, code_names_exact}
use easy_rpc_go.Content.{json, content_kind_of, is_stream_content_type, content_type_for}
use easy_rpc_go.Content.Laws.{content_kind_of-content_type_for}
use easy_rpc_go.Headers.{Headers, get, mux_trailers, demux_trailers}
use easy_rpc_go.Headers.Lookup.{get-perm}
use easy_rpc_go.Headers.Trailers.{recased, demux_trailers-mux_trailers}
use easy_rpc_go.Message.{Request, Response}
use easy_rpc_go.Timeout.{header_timeout, parse_timeout, with_timeout}
use easy_rpc_go.Timeout.Laws.{parse_timeout-with_timeout, parse_timeout_wraps}
use easy_rpc_go.Wire.Details.{
  encode_wire_details, decode_wire_details, kept, decode_wire_details-encode_wire_details,
}
use easy_rpc_go.Client.Interceptors.{Transport, with_interceptors}
use easy_rpc_go.Client.Interceptors.Laws.{Half, layer, with_interceptors-layers}
use easy_rpc_go.Client.Connect.{Deadlines, Net, ConnectOptions, auto}
use easy_rpc_go.Client.Connect.Sent.{UserHalves}
use easy_rpc_go.Tests.Samples.{watch_request}

abbrev one_header : Headers
one_header = (codes "Content-Type", codes "application/proto" ∷ []) ∷ []

abbrev one_trailer : Headers
one_trailer = (codes "Cost", codes "2" ∷ []) ∷ []

demux_trailers-mux_trailers_example :
    demux_trailers (map (recased canonical_header_key) (mux_trailers one_header one_trailer))
    ≡ (map (recased canonical_header_key) one_header, (codes "cost", codes "2" ∷ []) ∷ [])
unfolding to_lower has_prefix
demux_trailers-mux_trailers_example =
    demux_trailers-mux_trailers canonical_header_key to_lower-canonical one_header one_trailer
      (tt, tt) (refl, tt) (tt, tt)

get-perm_example :
    get
      (codes "connect-code")
      ((codes "A", codes "1" ∷ []) ∷ (codes "Connect-Code", codes "5" ∷ []) ∷ [])
    ≡ get
        (codes "CONNECT-CODE")
        ((codes "Connect-Code", codes "5" ∷ []) ∷ (codes "A", codes "1" ∷ []) ∷ [])
unfolding to_lower
get-perm_example =
    get-perm (codes "connect-code") (codes "CONNECT-CODE") (Permᴰ.swap refl refl)
      ((λ e. cc e, tt), (tt, tt)) refl

parse_timeout-with_timeout_example :
    parse_timeout (get header_timeout (with_timeout watch_request (pos 1500000)).headers)
    ≡ pos 1000000
parse_timeout-with_timeout_example =
    parse_timeout-with_timeout watch_request 1500000 (omega arith) (omega arith)

parse_timeout_wraps_example : is_positive (parse_timeout (itoa (pos 10000000000000))) ≡ false
parse_timeout_wraps_example = parse_timeout_wraps 10000000000000 (omega arith) (omega arith)

atoi-itoa_example : atoi (itoa (negsuc 41)) ≡ (negsuc 41, true)
atoi-itoa_example = atoi-itoa (negsuc 41) (omega arith)

decode_wire_base64-spelling_example :
    decode_wire_base64 (spelling true 2 (encode (255 ∷ 254 ∷ []))) ≡ some (255 ∷ 254 ∷ [])
decode_wire_base64-spelling_example =
    decode_wire_base64-spelling (255 ∷ 254 ∷ []) true 2 (omega arith)

code_names_exact_example :
    (IsNamed (pos 99) ⊎ IsUnnamed (pos 99))
    × ((code_to_string (pos (code_from_string (codes "quota"))) ≡ codes "quota")
        ⊎ ((¬ ((n : ℕ) × (n ≤ 16) × (code_to_string (pos n) ≡ codes "quota")))
            × (code_from_string (codes "quota") ≡ 2)))
code_names_exact_example = code_names_exact (pos 99) (codes "quota")

decode_wire_details-encode_wire_details_example :
    decode_wire_details (
      encode_wire_details (
        record { kind = codes "T"; value = 200 ∷ [] }
        ∷ record { kind = codes "U"; value = [] }
        ∷ []))
    ≡ record { kind = codes "T"; value = 200 ∷ [] } ∷ []
unfolding kept
decode_wire_details-encode_wire_details_example =
    decode_wire_details-encode_wire_details
      (record { kind = codes "T"; value = 200 ∷ [] } ∷ record { kind = codes "U"; value = [] } ∷ [])
      ((omega arith, tt), (tt, tt))

content_kind_of-content_type_for_example :
    (content_kind_of (content_type_for true json ++ b';' ∷ codes " charset=utf-8") ≡ some json)
    × (is_stream_content_type (content_type_for true json ++ b';' ∷ codes " charset=utf-8") ≡ true)
content_kind_of-content_type_for_example =
    content_kind_of-content_type_for true json (codes " charset=utf-8")

abbrev reply : Response
reply = record { status = 200; headers = []; body = 1 ∷ []; trailers = []; error = none }

-- A transport that returns what it is sent.
abbrev echo : Transport ℕ Request Request
echo = record { send = λ ctx req. req; open_stream = λ ctx req. req }

-- One interceptor that adds to the URL and takes the body, and one for streams alone.
abbrev slashes : List (Option (Half Request) × Option (Half Request))
slashes =
    (
      some (record {
        before = λ req. record req { url = req.url ++ codes "/a" };
        after = λ req. record req { body = [] };
      }),
      none,
    )
    ∷ (
      none,
      some (record {
        before = λ req. record req { url = req.url ++ codes "/b" };
        after = λ req. req;
      }),
    )
    ∷ []

with_interceptors-layers_example :
    ((with_interceptors echo (map layer slashes)).send 0 watch_request
      ≡ record watch_request { url = watch_request.url ++ codes "/a"; body = [] })
    × ((with_interceptors echo (map layer slashes)).open_stream 0 watch_request
        ≡ record watch_request { url = watch_request.url ++ codes "/b" })
with_interceptors-layers_example = with_interceptors-layers echo slashes 0 watch_request

-- Contexts that are their deadline, and a transport without errors.
abbrev clocks : Deadlines (Option ℤ) Bytes
clocks = record { within = λ ctx d. some d; cancel_on_close = λ ctx s. s }

abbrev quiet_net : Net (Option ℤ) Bytes
quiet_net = record { send = λ ctx req. ok reply; open_stream = λ ctx req. ok req.url }

-- An interceptor that moves a call.
abbrev moving : UserHalves Bytes
moving =
    (
      some
          (record { before = λ req. record req { url = req.url ++ codes "?v=1" }; after = λ r. r }),
      none,
    )
    ∷ []

abbrev options : ConnectOptions (Option ℤ) Bytes
options = record {
  base_url = codes "http://host";
  token = codes "t0k";
  mode = auto;
  timeout = pos 5000000;
  interceptors = map layer moving;
  adapter = none;
}
