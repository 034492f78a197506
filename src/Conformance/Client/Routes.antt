-- ===== src/Conformance/Client/Routes.antt =====
-- The paths of the conformance client lead to the methods of the conformance server.
use easy_rpc_go.Base.{refl, Bool, true, false}
use easy_rpc_go.Base.Int.{ℤ}
use easy_rpc_go.Text.{Bytes, codes, before, has_prefix}
use easy_rpc_go.Server.Calls.{Context, find_method}
use easy_rpc_go.Server.Dispatch.{path_of}
use easy_rpc_go.Client.Interceptors.{prepend}
use easy_rpc_go.Stubs.Delivery.Unary.{Route}
use easy_rpc_go.Stubs.Delivery.Streams.{StreamRoute}
use easy_rpc_go.Stubs.Conformance.{Codecs, method, methods, register}
use easy_rpc_go.Conformance.Service.{impl}
use easy_rpc_go.Conformance.Client.Setup.{host, registry}

module _ (address : Bytes) (codecs : Codecs) (timer_first : Context → ℤ → Bool) where
  pub echo-Route :
      Route
        (host address)
        methods
        (registry codecs timer_first)
        (codes "/easyrpc.conformance.v1.ConformanceService/Echo")
        codecs.echo_request
        codecs.echo_response
        (impl timer_first).echo
  unfolding register find_method path_of before prepend has_prefix
  echo-Route = record {
    spec = method (codes "Echo") (codes "/easyrpc.conformance.v1.ConformanceService/Echo") false;
    prefixed = refl;
    found = refl;
    unary = refl;
    registered = refl;
  }

  pub echo_bytes-Route :
      Route
        (host address)
        methods
        (registry codecs timer_first)
        (codes "/easyrpc.conformance.v1.ConformanceService/EchoBytes")
        codecs.echo_bytes_request
        codecs.echo_bytes_response
        (impl timer_first).echo_bytes
  unfolding register find_method path_of before prepend has_prefix
  echo_bytes-Route = record {
    spec =
        method (codes "EchoBytes") (codes "/easyrpc.conformance.v1.ConformanceService/EchoBytes")
          false;
    prefixed = refl;
    found = refl;
    unary = refl;
    registered = refl;
  }

  pub empty-Route :
      Route
        (host address)
        methods
        (registry codecs timer_first)
        (codes "/easyrpc.conformance.v1.ConformanceService/Empty")
        codecs.empty_request
        codecs.empty_response
        (impl timer_first).empty
  unfolding register find_method path_of before prepend has_prefix
  empty-Route = record {
    spec = method (codes "Empty") (codes "/easyrpc.conformance.v1.ConformanceService/Empty") false;
    prefixed = refl;
    found = refl;
    unary = refl;
    registered = refl;
  }

  pub sleep-Route :
      Route
        (host address)
        methods
        (registry codecs timer_first)
        (codes "/easyrpc.conformance.v1.ConformanceService/Sleep")
        codecs.sleep_request
        codecs.sleep_response
        (impl timer_first).sleep
  unfolding register find_method path_of before prepend has_prefix
  sleep-Route = record {
    spec = method (codes "Sleep") (codes "/easyrpc.conformance.v1.ConformanceService/Sleep") false;
    prefixed = refl;
    found = refl;
    unary = refl;
    registered = refl;
  }

  pub fail_details-Route :
      Route
        (host address)
        methods
        (registry codecs timer_first)
        (codes "/easyrpc.conformance.v1.ConformanceService/FailDetails")
        codecs.fail_details_request
        codecs.fail_details_response
        (impl timer_first).fail_details
  unfolding register find_method path_of before prepend has_prefix
  fail_details-Route = record {
    spec =
        method (codes "FailDetails")
          (codes "/easyrpc.conformance.v1.ConformanceService/FailDetails") false;
    prefixed = refl;
    found = refl;
    unary = refl;
    registered = refl;
  }

  pub echo_trailer-Route :
      Route
        (host address)
        methods
        (registry codecs timer_first)
        (codes "/easyrpc.conformance.v1.ConformanceService/EchoTrailer")
        codecs.echo_trailer_request
        codecs.echo_trailer_response
        (impl timer_first).echo_trailer
  unfolding register find_method path_of before prepend has_prefix
  echo_trailer-Route = record {
    spec =
        method (codes "EchoTrailer")
          (codes "/easyrpc.conformance.v1.ConformanceService/EchoTrailer") false;
    prefixed = refl;
    found = refl;
    unary = refl;
    registered = refl;
  }

  pub count-StreamRoute :
      StreamRoute
        (host address)
        methods
        (registry codecs timer_first)
        (codes "/easyrpc.conformance.v1.ConformanceService/Count")
        codecs.count_request
        codecs.count_response
        (impl timer_first).count
  unfolding register find_method path_of before prepend has_prefix
  count-StreamRoute = record {
    spec = method (codes "Count") (codes "/easyrpc.conformance.v1.ConformanceService/Count") true;
    prefixed = refl;
    found = refl;
    stream = refl;
    registered = refl;
  }

  pub stream_fail_details-StreamRoute :
      StreamRoute
        (host address)
        methods
        (registry codecs timer_first)
        (codes "/easyrpc.conformance.v1.ConformanceService/StreamFailDetails")
        codecs.stream_fail_details_request
        codecs.stream_fail_details_response
        (impl timer_first).stream_fail_details
  unfolding register find_method path_of before prepend has_prefix
  stream_fail_details-StreamRoute = record {
    spec =
        method (codes "StreamFailDetails")
          (codes "/easyrpc.conformance.v1.ConformanceService/StreamFailDetails") true;
    prefixed = refl;
    found = refl;
    stream = refl;
    registered = refl;
  }

  pub big_stream-StreamRoute :
      StreamRoute
        (host address)
        methods
        (registry codecs timer_first)
        (codes "/easyrpc.conformance.v1.ConformanceService/BigStream")
        codecs.big_stream_request
        codecs.big_stream_response
        (impl timer_first).big_stream
  unfolding register find_method path_of before prepend has_prefix
  big_stream-StreamRoute = record {
    spec =
        method (codes "BigStream") (codes "/easyrpc.conformance.v1.ConformanceService/BigStream")
          true;
    prefixed = refl;
    found = refl;
    stream = refl;
    registered = refl;
  }

  pub count_trailer-StreamRoute :
      StreamRoute
        (host address)
        methods
        (registry codecs timer_first)
        (codes "/easyrpc.conformance.v1.ConformanceService/CountTrailer")
        codecs.count_trailer_request
        codecs.count_trailer_response
        (impl timer_first).count_trailer
  unfolding register find_method path_of before prepend has_prefix
  count_trailer-StreamRoute = record {
    spec =
        method (codes "CountTrailer")
          (codes "/easyrpc.conformance.v1.ConformanceService/CountTrailer") true;
    prefixed = refl;
    found = refl;
    stream = refl;
    registered = refl;
  }
