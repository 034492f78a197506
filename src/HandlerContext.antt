-- ===== src/HandlerContext.antt =====
-- The per-call context of a handler (protocol.go: HandlerContext, NewHandlerContext, SetHeader,
-- ResponseHeaders, SetTrailer, Trailers).
use easy_rpc_go.Base.{[]}
use easy_rpc_go.Text.{Bytes}
use easy_rpc_go.Headers.{Headers, add_value}
use easy_rpc_go.Content.{ContentKind, proto}

pub record HandlerContext : Type 0 where
  pub headers : Headers
  pub kind : ContentKind
  pub header : Headers
  pub trailer : Headers

unfoldable pub new_handler_context : Headers → HandlerContext
new_handler_context headers = record { headers = headers; kind = proto; header = []; trailer = [] }

unfoldable pub set_header : Bytes → Bytes → HandlerContext → HandlerContext
unfolding add_value
set_header key value c = record c { header = add_value key value c.header }

unfoldable pub set_trailer : Bytes → Bytes → HandlerContext → HandlerContext
unfolding add_value
set_trailer key value c = record c { trailer = add_value key value c.trailer }
