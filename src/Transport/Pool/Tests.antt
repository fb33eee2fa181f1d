-- ===== src/Transport/Pool/Tests.antt =====
-- Examples of the pool.
use uav.Base.{ℕ, Option, none, List, [], string_key}
use uav.Base.Map
use uav.Transport.Pool.{TcpConn, Outbound, new_outbound}

abbrev plain : List ℕ → Option (List ℕ)
plain bytes = none

abbrev idle : TcpConn
idle = record { conn = none; addr = "b:1"; backoff = 100 }

-- The pool after a failed dial.
abbrev idle_pool : Outbound
idle_pool = record new_outbound { pool = Map.put "b:1" idle [] }
