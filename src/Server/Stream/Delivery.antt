-- ===== src/Server/Stream/Delivery.antt =====
-- What a client's `Recv` loop gets of the frames that the stream branch writes.
use easy_rpc_go.Base.{
  ℕ, suc, ◌+◌, ◌≤◌, ◌≡◌, refl, sym, ap, ◌∙◌, arith, Bool, true, false, ◌&&◌, List, [], ◌∷◌, ◌++◌,
  map, some, ok, err, Result-cases, length, leb, All, if◌then◌else◌, inl, inr, Bool-cases,
}
use easy_rpc_go.Base.Int.{ℤ, pos, is_zero}
use easy_rpc_go.Text.{Bytes}
use easy_rpc_go.Code.{Error, eof, rpc, code_to_string, code_from_string}
use easy_rpc_go.Code.Names.{code_to_string_total}
use easy_rpc_go.Headers.{Headers}
use easy_rpc_go.Frame.{
  Gzip, default_max_message_bytes, put_uint32, frame_flags, frame, frame_compressed,
  read_frame_decompressed,
}
use easy_rpc_go.Frame.RoundTrip.{
  read_frame_decompressed-frame, read_frame_decompressed-frame_compressed,
}
use easy_rpc_go.Json.{JsonText}
use easy_rpc_go.Wire.Structs.{EndStreamMessage, clean_end}
use easy_rpc_go.Wire.Codec.{no_details, encode_end_stream}
use easy_rpc_go.Wire.Messages.{IsPlainMessage, arrived}
use easy_rpc_go.Wire.Arrival.{decode_end_stream-encode_end_stream}
use easy_rpc_go.Content.{ContentKind}
use easy_rpc_go.HandlerContext.{HandlerContext}
use easy_rpc_go.Server.Calls.{Program}
use easy_rpc_go.Server.Writer.{Event, status_set, header_set, written, reliable}
use easy_rpc_go.Server.Stream.{compress_min_bytes, data_frame, end_frame, run_handler}
use easy_rpc_go.Server.Stream.Transcript.{transcript, told, run_handler-transcript}
use easy_rpc_go.Client.Stream.{HttpStream, new_stream, recv, receive, receive_end, gather, collect}

-- The bytes of a body, in the order written.
unfoldable pub body_of : List Event → Bytes
body_of [] = []
body_of (status_set code ∷ events) = body_of events
body_of (header_set h ∷ events) = body_of events
body_of (written p ∷ events) = p ++ body_of events

-- A frame with at most the largest payload.
abbrev pub Fits : Bytes → Type 0
Fits frame = length frame ≤ 5 + default_max_message_bytes

module _ (gzip : Gzip) (wants_gzip : Bool) where
  -- What arrives of a payload: itself, unless the stream is compressed and the payload is long
  -- enough for it; then what gzip made of it.
  unfoldable pub delivered : Bytes → Bytes
  delivered p =
      if wants_gzip && leb compress_min_bytes (length p)
      then elim (gzip.compress p) [ ok z ↦ z | err e ↦ p ]
      else p

  Fits-frame : (p : Bytes) (end : Bool) → Fits (frame p end) → length p ≤ default_max_message_bytes
  unfolding frame frame_flags put_uint32
  Fits-frame p true h = omega arith
  Fits-frame p false h = omega arith

  -- The two shapes of a compressed frame.
  frame_compressed-ok :
      (p z : Bytes) → gzip.compress p ≡ ok z → frame_compressed gzip p ≡ frame_flags 1 z
  unfolding frame_compressed frame frame_flags
  frame_compressed-ok p z e = rw (e, frame_compressed) refl

  frame_compressed-err :
      (p x : Bytes) → gzip.compress p ≡ err x → frame_compressed gzip p ≡ frame p false
  unfolding frame_compressed
  frame_compressed-err p x e = rw (e, frame_compressed) refl

  Fits-compressed : (z : Bytes) → Fits (frame_flags 1 z) → length z ≤ default_max_message_bytes
  unfolding frame_flags put_uint32
  Fits-compressed z h = omega arith

  read_frame_compressed :
      (p r : Bytes)
      → Fits (frame_compressed gzip p)
      → read_frame_decompressed gzip (frame_compressed gzip p ++ r) ≡ (ok (p, false), r)
  read_frame_compressed p r h = elim (Result-cases (gzip.compress p)) [
    | inl (z, e) ↦
        read_frame_decompressed-frame_compressed gzip p z r e
          (Fits-compressed z (rw (frame_compressed-ok p z e) at h))
    | inr (x, e) ↦ rw (frame_compressed-err p x e) (
        read_frame_decompressed-frame gzip p r false
          (Fits-frame p false (rw (frame_compressed-err p x e) at h)))
  ]

  -- Of the frame that emit writes for a payload, a client's reader gets the payload as it is, but
  -- where the stream is compressed, the payload has 1024 bytes or more and the compressor takes it:
  -- there it gets the compressed bytes. It stops behind the frame, which keeps the size limit.
  pub read_frame_decompressed-data_frame :
      (p r : Bytes)
      → Fits (data_frame gzip wants_gzip p)
      → read_frame_decompressed gzip (data_frame gzip wants_gzip p ++ r)
        ≡ (ok (delivered p, false), r)
  unfolding data_frame delivered
  read_frame_decompressed-data_frame p r h =
      elim (Bool-cases (wants_gzip && leb compress_min_bytes (length p))) [
        | inr plain ↦
            rw (plain)
              (read_frame_decompressed-frame gzip p r false (Fits-frame p false (rw plain at h)))
        | inl long ↦ elim (Result-cases (gzip.compress p)) [
          | inl (z, e) ↦ rw (long, e) (read_frame_compressed z r (rw (long, e) at h))
          | inr (x, e) ↦
              rw (long, e)
                (read_frame_decompressed-frame gzip p r false
                  (Fits-frame p false (rw (long, e) at h)))
        ]
      ]

-- What the client is told at the end: the error and the trailers. Trailers come only with a clean
-- end.
unfoldable pub farewell : EndStreamMessage → Error × Headers
farewell m =
    let a = arrived m in
    if is_zero m.code && no_details m.details
    then (eof, a.metadata)
    else (rpc (record { code = a.code; message = a.message; details = a.details }), [])

-- The code of a failure is none of a clean end.
failure_code :
    (c : ℤ)
    → is_zero (pos (code_from_string (code_to_string (if is_zero c then pos 2 else c)))) ≡ false
failure_code c = elim (Bool-cases (is_zero c)) [
  | inl z ↦ rw z (unfold code_from_string code_to_string in refl)
  | inr n ↦ elim (code_to_string_total c) [
    | inl e ↦ rw n (ap is_zero (sym e) ∙ n)
    | inr (_, e) ↦ rw (n, e) refl
  ]
]

quiet_end :
    (h : Headers)
    → receive_end
        (record clean_end { metadata = h })
        (record { body = []; ended = true; trailers = [] })
      ≡ (eof, record { body = []; ended = true; trailers = h })
unfolding receive_end
quiet_end [] = refl
quiet_end (e ∷ h) = refl

receive_end-arrived :
    (m : EndStreamMessage)
    → receive_end (arrived m) (record { body = []; ended = true; trailers = [] })
      ≡ ((farewell m).0, record { body = []; ended = true; trailers = (farewell m).1 })
unfolding receive_end farewell
receive_end-arrived m = elim (Bool-cases (is_zero m.code && no_details m.details)) [
  | inl clean ↦ rw clean (quiet_end _)
  | inr failed ↦ rw (failed, failure_code m.code) refl
]

module _ (gzip : Gzip) (text : JsonText) (wants_gzip : Bool) where
  recv_end :
      (m : EndStreamMessage)
      → IsPlainMessage m
      → Fits (end_frame text m)
      → recv gzip text (new_stream (end_frame text m ++ []))
        ≡ (err (farewell m).0, record { body = []; ended = true; trailers = (farewell m).1 })
  unfolding recv end_frame receive
  recv_end m plain h =
      rw
        (
          read_frame_decompressed-frame gzip (encode_end_stream text m) [] true
              (Fits-frame gzip wants_gzip _ true h),
          decode_end_stream-encode_end_stream text m plain,
          receive_end-arrived m,
        )
        refl

  recv_payload :
      (p r : Bytes)
      → Fits (data_frame gzip wants_gzip p)
      → recv gzip text (new_stream (data_frame gzip wants_gzip p ++ r))
        ≡ (ok (delivered gzip wants_gzip p), new_stream r)
  unfolding recv receive
  recv_payload p r h = rw (read_frame_decompressed-data_frame gzip wants_gzip p r h) refl

  collect-ok :
      (n : ℕ) (s s' : HttpStream) (p : Bytes)
      → recv gzip text s ≡ (ok p, s')
      → collect gzip text (suc n) s
        ≡ record (collect gzip text n s') { messages = p ∷ (collect gzip text n s').messages }
  unfolding collect
  collect-ok n s s' p e = ap (λ t. gather t (collect gzip text n)) e

  collect-err :
      (n : ℕ) (s s' : HttpStream) (x : Error)
      → recv gzip text s ≡ (err x, s')
      → collect gzip text (suc n) s ≡ record { messages = []; error = some x; stream = s' }
  unfolding collect
  collect-err n s s' x e = ap (λ t. gather t (collect gzip text n)) e

  collect-payloads :
      (ps : List Bytes) (m : EndStreamMessage)
      → All (λ p. Fits (data_frame gzip wants_gzip p)) ps
      → IsPlainMessage m
      → Fits (end_frame text m)
      → collect gzip text (suc (length ps)) (
          new_stream (
            body_of (
              map (λ p. written (data_frame gzip wants_gzip p)) ps
              ++ written (end_frame text m) ∷ [])))
        ≡ record {
          messages = map (delivered gzip wants_gzip) ps;
          error = some (farewell m).0;
          stream = record { body = []; ended = true; trailers = (farewell m).1 };
        }
  unfolding body_of
  collect-payloads [] m h plain fits = collect-err 0 _ _ _ (recv_end m plain fits)
  collect-payloads (p ∷ ps) m (hp, h) plain fits =
      collect-ok (suc (length ps)) _ _ _ (recv_payload p _ hp)
      ∙ rw (collect-payloads ps m h plain fits) refl

-- A client's Recv loop, over the bytes that the run of a stream handler writes to a writer that
-- does not fail, returns in order what is delivered of each payload that the handler emits before
-- its end, and then, within one call more than there are payloads, io.EOF with the trailers or the
-- handler's error as an RPC error without them. Each frame keeps the size limit; the last message
-- is plain: ASCII texts, byte values, distinct metadata names. An error whose code is 0 or has no
-- name arrives as code 2, but one of code 0 without details as io.EOF; a detail without a type or a
-- value does not arrive.
pub collect-run_handler :
    (gzip : Gzip) (text : JsonText) (kind : ContentKind) (wants_gzip : Bool) (program : Program)
    (hc : HandlerContext)
    → All (λ p. Fits (data_frame gzip wants_gzip p)) (transcript program hc).payloads
    → IsPlainMessage (transcript program hc).final
    → Fits (end_frame text (transcript program hc).final)
    → collect gzip text
        (suc (length (transcript program hc).payloads))
        (new_stream (body_of (run_handler reliable gzip text kind wants_gzip program hc [])))
      ≡ record {
        messages = map (delivered gzip wants_gzip) (transcript program hc).payloads;
        error = some (farewell (transcript program hc).final).0;
        stream = record {
          body = [];
          ended = true;
          trailers = (farewell (transcript program hc).final).1;
        };
      }
unfolding body_of told
collect-run_handler gzip text kind wants_gzip program hc fits plain end_fits =
    rw (run_handler-transcript gzip text kind wants_gzip program hc []) (
      collect-payloads gzip text wants_gzip (transcript program hc).payloads
        (transcript program hc).final fits plain end_fits)
