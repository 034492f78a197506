-- ===== src/Stubs/Conformance/Messages.antt =====
-- The messages of easyrpc.conformance.v1 (easyrpc/conformance/v1/conformance.pb.go): the fields of
-- the structs, less what protobuf keeps for itself. An int32 is an integer; a map is its entries;
-- the fields `data` and `ok` are `bytes` and `is_ok`.
use easy_rpc_go.Base.{Bool, List}
use easy_rpc_go.Base.Int.{ℤ}
use easy_rpc_go.Text.{Bytes}

pub record EchoRequest : Type 0 where
  pub input : Bytes

pub record EchoResponse : Type 0 where
  pub output : Bytes

pub record CountRequest : Type 0 where
  pub count : ℤ

pub record CountResponse : Type 0 where
  pub index : ℤ

pub record FailRequest : Type 0 where
  pub message : Bytes

pub record FailResponse : Type 0 where
  pub is_ok : Bool

pub record HealthRequest : Type 0 where

pub record HealthResponse : Type 0 where
  pub is_ok : Bool
  pub name : Bytes

pub record EchoBytesRequest : Type 0 where
  pub bytes : Bytes

pub record EchoBytesResponse : Type 0 where
  pub bytes : Bytes

pub record SleepRequest : Type 0 where
  pub millis : ℤ

pub record SleepResponse : Type 0 where
  pub is_ok : Bool

pub record EmptyRequest : Type 0 where

pub record EmptyResponse : Type 0 where

pub record BigStreamRequest : Type 0 where
  pub count : ℤ
  pub size : ℤ

pub record BigStreamResponse : Type 0 where
  pub index : ℤ
  pub size : ℤ

pub record StreamFailRequest : Type 0 where
  pub emit_before : ℤ
  pub code : ℤ
  pub message : Bytes

pub record StreamFailResponse : Type 0 where
  pub index : ℤ

pub record EchoMetaRequest : Type 0 where
  pub input : Bytes

pub record EchoMetaResponse : Type 0 where
  pub input : Bytes
  pub meta : List (Bytes × Bytes)

pub record BigRequest : Type 0 where
  pub size : ℤ

pub record BigResponse : Type 0 where
  pub size : ℤ

pub record FailDetailsRequest : Type 0 where
  pub code : ℤ
  pub message : Bytes
  pub detail_type : Bytes
  pub detail_text : Bytes

pub record FailDetailsResponse : Type 0 where
  pub is_ok : Bool

pub record StreamFailDetailsRequest : Type 0 where
  pub emit_before : ℤ
  pub code : ℤ
  pub message : Bytes
  pub detail_type : Bytes
  pub detail_text : Bytes

pub record StreamFailDetailsResponse : Type 0 where
  pub index : ℤ

pub record EchoTrailerRequest : Type 0 where
  pub input : Bytes

pub record EchoTrailerResponse : Type 0 where
  pub output : Bytes

pub record CountTrailerRequest : Type 0 where
  pub count : ℤ

pub record CountTrailerResponse : Type 0 where
  pub index : ℤ
