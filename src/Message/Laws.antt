-- ===== src/Message/Laws.antt =====
-- Errors of unary responses.
use easy_rpc_go.Base.{◌<◌, ◌≡◌, ◌↔◌, arith, none, ok}
use easy_rpc_go.Text.{Bytes}
use easy_rpc_go.Message.{Response, decode_unary_body}

-- The body of a response is its message exactly if it carries no error and its status is below 300.
pub decode_unary_body-eq-ok :
    (rep : Response) (body : Bytes)
    → (decode_unary_body rep ≡ ok body)
      ↔ ((rep.error ≡ none) × (rep.status < 300) × (rep.body ≡ body))
unfolding decode_unary_body
decode_unary_body-eq-ok rep body = ground arith
