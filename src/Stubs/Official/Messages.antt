-- ===== src/Stubs/Official/Messages.antt =====
-- The messages of connectrpc.conformance.v1 (service.pb.go) that the official conformance server
-- handles: the fields of the structs that it reads or writes, less what protobuf keeps for itself.
-- A pointer that may be nil is an `Option`; the raw responses, which it never reads, are left out.
use easy_rpc_go.Base.{ℕ, Bool, List, Option}
use easy_rpc_go.Base.Int.{ℤ}
use easy_rpc_go.Text.{Bytes}

-- `anypb.Any`.
pub record Any : Type 0 where
  pub type_url : Bytes
  pub value : Bytes

pub record Header : Type 0 where
  pub name : Bytes
  pub value : List Bytes

-- The message `Error`; its `Message` may be missing.
pub record ErrorMessage : Type 0 where
  pub code : ℤ
  pub message : Option Bytes
  pub details : List Any

-- The oneof of a unary response.
pub data UnaryOutcome : Type 0 where
  neither : UnaryOutcome
  response_data : Bytes → UnaryOutcome
  error : ErrorMessage → UnaryOutcome

pub record UnaryResponseDefinition : Type 0 where
  pub response_headers : List Header
  pub response : UnaryOutcome
  pub response_trailers : List Header
  pub response_delay_ms : ℕ

pub record StreamResponseDefinition : Type 0 where
  pub response_headers : List Header
  pub response_data : List Bytes
  pub response_delay_ms : ℕ
  pub error : Option ErrorMessage
  pub response_trailers : List Header

-- `ConformancePayload_RequestInfo`, with the query parameters of `ConnectGetInfo`.
pub record RequestInfo : Type 0 where
  pub request_headers : List Header
  pub timeout_ms : Option ℤ
  pub requests : List Any
  pub connect_get_info : Option (List Header)

pub record ConformancePayload : Type 0 where
  pub content : Bytes
  pub request_info : Option RequestInfo

pub record UnaryRequest : Type 0 where
  pub response_definition : Option UnaryResponseDefinition
  pub request_data : Bytes

pub record UnaryResponse : Type 0 where
  pub payload : Option ConformancePayload

pub record IdempotentUnaryRequest : Type 0 where
  pub response_definition : Option UnaryResponseDefinition
  pub request_data : Bytes

pub record IdempotentUnaryResponse : Type 0 where
  pub payload : Option ConformancePayload

pub record ServerStreamRequest : Type 0 where
  pub response_definition : Option StreamResponseDefinition
  pub request_data : Bytes

pub record ServerStreamResponse : Type 0 where
  pub payload : Option ConformancePayload

pub record ClientStreamRequest : Type 0 where
  pub response_definition : Option UnaryResponseDefinition
  pub request_data : Bytes

pub record ClientStreamResponse : Type 0 where
  pub payload : Option ConformancePayload

pub record BidiStreamRequest : Type 0 where
  pub response_definition : Option StreamResponseDefinition
  pub full_duplex : Bool
  pub request_data : Bytes

pub record BidiStreamResponse : Type 0 where
  pub payload : Option ConformancePayload

pub record UnimplementedRequest : Type 0 where

pub record UnimplementedResponse : Type 0 where
