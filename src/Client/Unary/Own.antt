-- ===== src/Client/Unary/Own.antt =====
-- The headers and trailers of a unary handler that nothing on the way takes for another's.
use easy_rpc_go.Base.{◌≡◌, ◌≢◌, refl, false, [], ◌∷◌, map, All}
use easy_rpc_go.Text.{Bytes, codes, eq_text, to_lower, has_prefix}
use easy_rpc_go.Text.Laws.{eq_text_iff}
use easy_rpc_go.Headers.{Headers}
use easy_rpc_go.Headers.Trailers.{Absent, Absent-apart, IsHeader, recased}
use easy_rpc_go.Headers.Lookup.{CaseDistinct}
use easy_rpc_go.Headers.Hop.{IsTidy}
use easy_rpc_go.HandlerContext.{HandlerContext}
use easy_rpc_go.Client.Unary.{HttpResponse}

-- The headers of a handler are a map, distinct up to case as its trailers are; none starts like a
-- trailer's, or has a name that the runtime itself reads or writes.
pub record IsOwn (hc : HandlerContext) : Type 0 where
  pub headers_apart : CaseDistinct hc.header
  pub kept : All IsHeader hc.header
  pub content_type : Absent (codes "Content-Type") hc.header
  pub content_encoding : Absent (codes "Content-Encoding") hc.header
  pub connect_code : Absent (codes "connect-code") hc.header
  pub proto : Absent (codes "proto") hc.header
  pub trailers_apart : CaseDistinct hc.trailer

-- The base of a response that is not compressed.
abbrev pub typed : Bytes → Headers
typed content_type = (codes "Content-Type", content_type ∷ []) ∷ []

abbrev pub zipped : Bytes → Headers
zipped content_type =
    (codes "Content-Type", content_type ∷ []) ∷ (codes "Content-Encoding", codes "gzip" ∷ []) ∷ []

pub apart : (s t : Bytes) → eq_text s t ≡ false → s ≢ t
apart s t f e = cc (f, (eq_text_iff s t).1 e)

-- The names that the runtime writes are apart.
pub names_apart :
    (to_lower (codes "Content-Type") ≢ to_lower (codes "proto"))
    × (to_lower (codes "Content-Encoding") ≢ to_lower (codes "proto"))
    × (to_lower (codes "Content-Type") ≢ to_lower (codes "Content-Encoding"))
    × (to_lower (codes "Content-Type") ≢ to_lower (codes "connect-code"))
    × (to_lower (codes "proto") ≢ to_lower (codes "connect-code"))
unfolding to_lower eq_text
names_apart = (apart _ _ refl, apart _ _ refl, apart _ _ refl, apart _ _ refl, apart _ _ refl)

pub typed-IsTidy :
    (content_type : Bytes) (hc : HandlerContext)
    → IsOwn hc
    → IsTidy (typed content_type) hc.header hc.trailer
unfolding to_lower has_prefix
typed-IsTidy content_type hc o = record {
  headers = (
    Absent-apart (codes "Content-Type", content_type ∷ []) hc.header o.content_type,
    o.headers_apart,
  );
  kept = (refl, o.kept);
  proto = (names_apart.0, o.proto);
  trailers_apart = o.trailers_apart;
}

pub zipped-IsTidy :
    (content_type : Bytes) (hc : HandlerContext)
    → IsOwn hc
    → IsTidy (zipped content_type) hc.header hc.trailer
unfolding to_lower has_prefix
zipped-IsTidy content_type hc o = record {
  headers = (
    (
      names_apart.2,
      Absent-apart (codes "Content-Type", content_type ∷ []) hc.header o.content_type,
    ),
    (
      Absent-apart (codes "Content-Encoding", codes "gzip" ∷ []) hc.header o.content_encoding,
      o.headers_apart,
    ),
  );
  kept = (refl, (refl, o.kept));
  proto = (names_apart.0, (names_apart.1, o.proto));
  trailers_apart = o.trailers_apart;
}

-- The response at the far end of the hop.
abbrev pub carried : (Bytes → Bytes) → HttpResponse → HttpResponse
carried recase r = record r { headers = map (recased recase) r.headers }
