-- ===== src/Stubs/Delivery.antt =====
-- A generated client that is connected to a server: the base URL, NetHTTP, a hop that changes the
-- names of response headers in case alone, the adapter's request, Dispatch, and the way back.
pub mod Adapter
pub mod Arriving
pub mod Unary
pub mod Opening
pub mod Streams
use easy_rpc_go.Base.{List, [], drop, length, Result, ok}
use easy_rpc_go.Text.{Bytes, codes}
use easy_rpc_go.Code.{Error}
use easy_rpc_go.Frame.{Gzip}
use easy_rpc_go.Json.{JsonText}
use easy_rpc_go.Message.{Request, Response}
use easy_rpc_go.Server.Writer.{reliable}
use easy_rpc_go.Server.Calls.{MethodSpec, ServiceRegistry}
use easy_rpc_go.Server.Dispatch.{dispatch}
use easy_rpc_go.Server.Adapter.{to_request}
use easy_rpc_go.Client.Interceptors.{Transport, base_url_transport}
use easy_rpc_go.Client.Unary.{HttpResponse, send}
use easy_rpc_go.Client.Stream.{HttpStream}
use easy_rpc_go.Client.Open.{open_stream}
use easy_rpc_go.Client.Unary.Errors.{response_of}
use easy_rpc_go.Client.Unary.Own.{carried}

-- The request at the server, whose address is `base`.
abbrev pub arriving : Bytes → Request → Request
arriving base req = to_request (record {
  method = codes "POST";
  path = drop (length base) req.url;
  headers = req.headers;
  body = req.body;
})

module _ (recase : Bytes → Bytes) (gzip : Gzip) (text : JsonText) (version base : Bytes)
    (methods : List MethodSpec) (reg : ServiceRegistry) where
  -- What the exchange with the server at `base` returns; `version` is the HTTP version.
  unfoldable pub exchange : Request → Result Error HttpResponse
  exchange req = ok (
      carried recase
        (response_of version (dispatch reliable gzip text (arriving base req) methods reg []).1))

  -- NetHTTP with this exchange.
  unfoldable pub net_http :
      {C : Type 0} → Transport C (Result Error Response) (Result Error HttpStream)
  unfolding send open_stream exchange
  net_http = record {
    send = λ ctx req. send gzip text exchange req;
    open_stream = λ ctx req. open_stream exchange req;
  }

  -- A client's transport to the server at `base`.
  unfoldable pub connection :
      {C : Type 0} → Transport C (Result Error Response) (Result Error HttpStream)
  unfolding base_url_transport net_http
  connection = base_url_transport base net_http
