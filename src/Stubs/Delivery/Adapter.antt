-- ===== src/Stubs/Delivery/Adapter.antt =====
-- The exchange between a generated client and a generated service goes over the adapter to
-- net/http.
use easy_rpc_go.Base.{
  ◌≡◌, ◌≢◌, refl, sym, ap, ◌∙◌, arith, Bool, List, [], drop, length, none, ok, All,
}
use easy_rpc_go.Text.{Bytes, codes, canonical_header_key}
use easy_rpc_go.Headers.{Entry}
use easy_rpc_go.Headers.Lookup.{CaseDistinct}
use easy_rpc_go.Headers.Canonical.{canonical_all-recased}
use easy_rpc_go.Frame.{Gzip}
use easy_rpc_go.Json.{JsonText}
use easy_rpc_go.Message.{Request}
use easy_rpc_go.Server.Writer.{reliable}
use easy_rpc_go.Server.Calls.{MethodSpec, ServiceRegistry}
use easy_rpc_go.Server.Dispatch.{dispatch}
use easy_rpc_go.Server.Adapter.{NetRequest, serve_net_http}
use easy_rpc_go.Server.Adapter.Delivered.{
  or_200, canonical, net_response, net_response-serve_net_http,
}
use easy_rpc_go.Client.Unary.{HttpResponse}
use easy_rpc_go.Client.Unary.Errors.{response_of}
use easy_rpc_go.Client.Unary.Own.{carried}
use easy_rpc_go.Stubs.Delivery.{arriving, exchange}

-- The request as net/http hands it to its handler.
abbrev pub net_request : Bytes → Request → NetRequest
net_request base req = record {
  method = codes "POST";
  path = drop (length base) req.url;
  headers = req.headers;
  body = req.body;
}

canonical-carried :
    (r : HttpResponse)
    → r.status ≢ 0
    → CaseDistinct r.headers
    → All (λ (e : Entry). e.1 ≢ []) r.headers
    → canonical r ≡ carried canonical_header_key r
canonical-carried r real apart full =
    let status : or_200 r.status ≡ r.status = ground arith in
    rw (status, canonical_all-recased r.headers apart full) refl

module _ (gzip : Gzip) (text : JsonText) (version base : Bytes) (methods : List MethodSpec)
    (reg : ServiceRegistry) where
  -- What Dispatch tells a writer for the request.
  abbrev pub answer : Request → HttpResponse
  answer req =
      response_of version (dispatch reliable gzip text (arriving base req) methods reg []).1

  -- The exchange that connects a generated client with a service, where the network puts header
  -- names into their canonical form, is what net/http sends for the calls that ServeNetHTTP makes
  -- for that request on a connection whose writes succeed. The status that Dispatch sets is not 0,
  -- the names of its response's headers differ in more than case, and each has a value.
  pub exchange-serve_net_http :
      (flushes : Bool) (req : Request)
      → (answer req).status ≢ 0
      → CaseDistinct (answer req).headers
      → All (λ (e : Entry). e.1 ≢ []) (answer req).headers
      → exchange canonical_header_key gzip text version base methods reg req
        ≡ ok (
            net_response version []
              (serve_net_http (λ log. none) flushes gzip text methods reg (net_request base req)))
  unfolding exchange
  exchange-serve_net_http flushes req real apart full = ap ok (
      sym (canonical-carried (answer req) real apart full)
      ∙ sym (
          net_response-serve_net_http flushes gzip text methods reg (net_request base req) version))
