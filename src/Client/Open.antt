-- ===== src/Client/Open.antt =====
-- Opening a stream (bridge_nethttp.go: OpenStream). The exchange with the server is a parameter, as
-- it is of a unary call; the body of the response is there as a whole.
pub mod Refused
use easy_rpc_go.Base.{ℕ, List, [], ◌∷◌, Result, ok, err, leb, if◌then◌else◌}
use easy_rpc_go.Base.Int.{ℤ, pos}
use easy_rpc_go.Text.{Bytes, codes, is_empty}
use easy_rpc_go.Code.{Error, rpc, connect_from_status}
use easy_rpc_go.Headers.{Headers, set, go_headers}
use easy_rpc_go.Message.{Request}
use easy_rpc_go.Client.Stream.{HttpStream, new_stream}
use easy_rpc_go.Client.Unary.{HttpResponse, first_value}

-- The headers of the request.
unfoldable pub stream_request_headers : Headers → Headers
stream_request_headers headers =
    let h = go_headers headers in
    let typed =
      if is_empty (first_value (codes "Content-Type") h)
      then set (codes "Content-Type") (codes "application/connect+proto") h
      else h in
    set (codes "Connect-Accept-Encoding") (codes "gzip") typed

-- What `OpenStream` makes of the response.
unfoldable pub opened : HttpResponse → Result Error HttpStream
opened r =
    if leb 300 r.status
    then err
        (rpc (record { code = pos (connect_from_status r.status); message = r.body; details = [] }))
    else ok (new_stream r.body)

unfoldable pub open_stream :
    (Request → Result Error HttpResponse) → Request → Result Error HttpStream
unfolding stream_request_headers opened
open_stream exchange req =
    elim (exchange (record req { headers = stream_request_headers req.headers })) [
      | ok r ↦ opened r
      | err e ↦ err e
    ]
