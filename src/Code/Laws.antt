-- ===== src/Code/Laws.antt =====
-- The two status maps against one another.
use easy_rpc_go.Base.{◌≤◌, ◌≡◌, refl, arith}
use easy_rpc_go.Base.Int.{ℤ, pos, negsuc}
use easy_rpc_go.Code.{http_status, connect_from_status}

-- The status of a code lies from 400 to 504, so that the client's test for a status from 300 on
-- holds.
pub http_status_bounds : (c : ℤ) → (400 ≤ http_status c) × (http_status c ≤ 504)
unfolding http_status
http_status_bounds (pos c) = ground arith
http_status_bounds (negsuc c) = omega arith

-- Going to an HTTP status and back may change the code, and never the status: the code that the
-- client reconstructs from the status of a code has that very status.
pub http_status-connect_from_status :
    (c : ℤ) → http_status (pos (connect_from_status (http_status c))) ≡ http_status c
unfolding http_status connect_from_status
http_status-connect_from_status (pos c) = ground arith
http_status-connect_from_status (negsuc c) = refl
