-- ===== src/Http3.antt =====
-- The HTTP/3 bridge (h3/h3.go): HTTP3, which sends over HTTP/3 alone, and AutoHTTP, which falls
-- back on NetHTTP. The file names a field Method of Request, which has none, and does not compile
-- for it: the method is left to the exchange.
use easy_rpc_go.Base.{Bool, ◌&&◌, [], none, Result, ok, err, length, take, leb, if◌then◌else◌}
use easy_rpc_go.Base.Int.{pos}
use easy_rpc_go.Text.{Bytes, codes, is_empty, eq_text}
use easy_rpc_go.Code.{Error, rpc, connect_from_status}
use easy_rpc_go.Headers.{Headers, set, go_headers}
use easy_rpc_go.Message.{Request, Response}
use easy_rpc_go.Client.Connect.{Net}
use easy_rpc_go.Client.Stream.{HttpStream, new_stream}
use easy_rpc_go.Client.Unary.{HttpResponse, first_value}

-- The headers of a unary request, and of one for a stream.
unfoldable pub unary_headers : Headers → Headers
unary_headers headers =
    let h = go_headers headers in
    if is_empty (first_value (codes "Content-Type") h)
    then set (codes "Content-Type") (codes "application/proto") h
    else h

unfoldable pub stream_headers : Headers → Headers
stream_headers headers =
    set (codes "Content-Type") (codes "application/connect+proto") (go_headers headers)

-- What `Send` makes of the exchange's result: the headers are those of the request.
unfoldable pub sent : Request → Result Error HttpResponse → Result Error Response
sent req (err e) = err e
sent req (ok r) = ok (record {
  status = r.status;
  headers = req.headers;
  body = r.body;
  trailers = [];
  error = none;
})

unfoldable pub opened : Result Error HttpResponse → Result Error HttpStream
opened (err e) = err e
opened (ok r) =
    if leb 300 r.status
    then err
        (rpc (record { code = pos (connect_from_status r.status); message = r.body; details = [] }))
    else ok (new_stream r.body)

-- The two methods of HTTP3.
unfoldable pub http3 : {C : Type 0} → (C → Request → Result Error HttpResponse) → Net C HttpStream
unfolding unary_headers stream_headers sent opened
http3 exchange = record {
  send = λ ctx req. sent req (exchange ctx (record req { headers = unary_headers req.headers }));
  open_stream =
      λ ctx req. opened (exchange ctx (record req { headers = stream_headers req.headers }));
}

-- `isH3`.
unfoldable pub is_h3 : Bytes → Bool
unfolding eq_text
is_h3 u = leb 8 (length u) && eq_text (take 8 u) (codes "https://")

-- The first result, unless it is an error.
abbrev pub or_else : {A : Type 0} → Result Error A → Result Error A → Result Error A
or_else (ok a) later = ok a
or_else (err e) later = later

-- The two methods of AutoHTTP.
unfoldable pub auto_http : {C S : Type 0} → Net C S → Net C S → Net C S
unfolding is_h3
auto_http std h3 = record {
  send = λ ctx req.
      if is_h3 req.url then or_else (h3.send ctx req) (std.send ctx req) else std.send ctx req;
  open_stream = λ ctx req.
      if is_h3 req.url
      then or_else (h3.open_stream ctx req) (std.open_stream ctx req)
      else std.open_stream ctx req;
}
