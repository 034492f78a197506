-- ===== src/Client/Protocols.antt =====
-- Which HTTP protocols a bridge negotiates (bridge_nethttp.go: ProtocolPrefs, protocols,
-- DefaultProtocols).
use easy_rpc_go.Base.{◌≡◌, arith, Bool, true, false, ◌&&◌, ◌||◌, not}

-- Also `http.Protocols`, as the three switches that are set.
pub record ProtocolPrefs : Type 0 where
  pub http1 : Bool
  pub http2 : Bool
  pub h2c : Bool

abbrev pub default_protocols : ProtocolPrefs
default_protocols = record { http1 = true; http2 = false; h2c = true }

-- The zero value stands for HTTP/1 and h2c.
unfoldable pub protocols : ProtocolPrefs → ProtocolPrefs
protocols p =
    let zero_value = not p.http1 && (not p.http2 && not p.h2c) in
    record { http1 = p.http1 || zero_value; http2 = p.http2; h2c = p.h2c || zero_value }

-- Whatever the preferences are, a bridge negotiates one HTTP protocol at least.
pub protocols_some :
    (p : ProtocolPrefs) → ((protocols p).http1 || ((protocols p).http2 || (protocols p).h2c)) ≡ true
unfolding protocols
protocols_some p = ground arith
