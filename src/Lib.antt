-- ===== src/Lib.antt =====
-- easy-rpc-go: an RPC runtime for the Connect protocol over HTTP, with unary and server-stream
-- calls. A client's transport (bridge_nethttp.go) sends a request; the server's Dispatch (server.go)
-- checks it, runs the handler of its method and writes the response through a ResponseWriter; the
-- client reads the response or the frames of the stream. protocol.go holds what both sides share:
-- headers, frames, codes, messages, timeouts, content types.
--
-- The files, by the code that they are about:
--   Base            helpers: tests on numbers, lists, results, 64-bit integers, distinct keys
--   Text            the functions of Go's strings, strconv and net/textproto that the code calls, on
--                   lists of bytes; case mapping is that of ASCII
--   Base64          base64.RawStdEncoding and decodeWireBase64
--   Code            RPCError, HTTPStatus, ConnectFromStatus, CodeNames and its two functions
--   Headers         Headers with Get, Set, mergeHeaders, augment, MuxTrailers, DemuxTrailers
--   Frame           Frame, FrameCompressed, ReadFrame, readFrameFlags, ReadFrameDecompressed;
--                   Frame.Request has countFrames and readSingleFrame of server.go
--   Message         Request, Response, DecodeUnaryBody, StatusFromHeader, URLFor
--   Timeout         ParseTimeout and WithTimeout, with products modulo 2 ^ 64
--   Content         ContentKindOf, IsStreamContentType, ContentTypeFor, acceptsGzip
--   HandlerContext  HandlerContext with SetHeader and SetTrailer
--   Json            JSON trees, and encoding/json between trees and text
--   Wire            EncodeEndStream, DecodeEndStream, EncodeErrorJSON, DecodeErrorJSON: Wire.Marshal and
--                   Wire.Unmarshal are what encoding/json does with the structs' fields
--   Server          Dispatch: Server.Dispatch has its checks and the two branches, Server.Unary and
--                   Server.Stream the branches themselves, Server.Errors the error responses,
--                   Server.Adapter httpWriter and ServeNetHTTP (server/httpx.go), with what net/http
--                   sends for their calls in Server.Adapter.Delivered, Server.StreamWriter
--   Client          NetHTTP.Send, NetHTTP.OpenStream, httpStream.Recv, the interceptors and the
--                   wrapping transports, Connect (connect.go), NewTransport (bridge_auto.go) and
--                   ProtocolPrefs
--   Stubs           what protoc-gen-easyrpc-go writes: the shape of a method at both ends, and the two
--                   services (easyrpc/conformance/v1/conformance.easyrpc.go in Stubs.Conformance and
--                   conformance/official/connectrpc/conformance/v1/service.easyrpc.go in
--                   Stubs.Official); Stubs.Delivery connects a generated client with a service
--   Http3           HTTP3 and AutoHTTP (h3/h3.go)
--   Conformance     the conformance server (cmd/conformance-server/main.go; Conformance.Service makes
--                   its handlers a service) and, in Conformance.Client, the client
--                   (cmd/conformance-client/main.go): Conformance.Client.Checks has the checks of main
--   Official        the official conformance server (cmd/conformance-official-server/main.go):
--                   Official.Handlers has its handlers, Official.Handshake its stdin and stdout
--   Tests           concrete inputs
--
-- State is explicit: a reader is the list of bytes that it still holds, a writer is an interface over
-- a state, and the client's stream is a record that Recv returns anew. A stream handler is the program
-- of its calls of emit, SetHeader and SetTrailer, each with what it goes on with. Errors are values.
-- A Go map is the list of its entries in the order in which range meets them.
--
-- countFrames runs on as much fuel as the body has bytes, since each round takes five bytes or more.
-- The Recv loop of a caller is bounded by a number of calls, also that of the conformance client, for
-- which one call more than there are messages is enough. The JSON parser is bounded by the number
-- of tokens.
--
-- Parameters: compress/gzip (a compressor and a decompressor that undoes it), the text codec of
-- encoding/json (which reads back what it wrote; Json.Codec is an instance), the exchange of a request
-- for a response by net/http or quic-go, context.Context, the handlers, and the runtimes of protobuf:
-- a codec of each message, with no law but where a theorem states one as a hypothesis. In
-- Stubs.Delivery the exchange is Dispatch itself, behind a hop that changes the names of the
-- response's headers in case alone; Stubs.Delivery.Adapter is about the adapter to net/http in its
-- place. time.ParseDuration and anypb.New are parameters of Official.
--
-- Not modelled: SortMethods, which nothing calls; the constructors of NetHTTP and of HTTP/3, which set
-- up net/http, TLS and quic-go; the reflection and the getters that protoc-gen-go adds to messages;
-- sockets and processes. Time passes nowhere: a deadline is a value in the context of a handler, and
-- a delay that a request asks for is left out. JSON texts in the laws are of ASCII, where Marshal
-- changes nothing.
pub mod Base
pub mod Text
pub mod Code
pub mod Base64
pub mod Headers
pub mod Frame
pub mod Message
pub mod Timeout
pub mod Content
pub mod HandlerContext
pub mod Json
pub mod Wire
pub mod Server
pub mod Client
pub mod Stubs
pub mod Http3
pub mod Conformance
pub mod Official
pub mod Tests
