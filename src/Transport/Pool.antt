-- ===== src/Transport/Pool.antt =====
-- node/transport/tcp/tcp.go: the pool of outbound connections, Send and Stop. The answers of the
-- network are the caller's; connections are numbered in the order of their dialling.
pub mod Connections
mod Tests
use uav.Base.{
  ℕ, zero, suc, ◌+◌, ◌==◌, Bool, true, false, Option, none, some, String, List, [], ◌∷◌,
  if◌then◌else◌, string_key,
}
use uav.Base.Map
use uav.Base.Map.{Map}
use uav.Message.{Message}
use uav.Codec.{encode}
use uav.Transport.Tcp.{make_frame}

-- tcpConn; the backoff, in milliseconds, is never read.
pub record TcpConn : Type 0 where
  pub conn : Option ℕ
  pub addr : String
  pub backoff : ℕ

-- A frame that a connection has taken.
pub record Written : Type 0 where
  pub conn : ℕ
  pub frame : List ℕ

-- The outbound half of Transport: the pool, the addresses that the connections were dialled to,
-- which of them have been closed, and what they have taken, the last frame first.
pub record Outbound : Type 0 where
  pub pool : Map String TcpConn
  pub dialled : ℕ
  pub remote : ℕ → String
  pub closed : ℕ → Bool
  pub written : List Written

-- New.
unfoldable pub new_outbound : Outbound
new_outbound = record {
  pool = [];
  dialled = 0;
  remote = λ i. "";
  closed = λ i. false;
  written = [];
}

-- getOrCreateConn.
unfoldable pub get_or_create_conn : String → Outbound → TcpConn × Outbound
get_or_create_conn addr t =
    let fresh : TcpConn = record { conn = none; addr = addr; backoff = 100 } in
    elim (Map.get addr t.pool) [
      | some c ↦ (c, t)
      | none ↦ (fresh, record t { pool = Map.put addr fresh t.pool })
    ]

-- dial; `answer` says whether DialContext succeeds. The entry of the pool is the tcpConn itself.
unfoldable pub dial : Bool → TcpConn → Outbound → Option (ℕ × Outbound)
dial answer tc t =
    let made = record t {
      pool = Map.put tc.addr (record tc { conn = some t.dialled; backoff = 100 }) t.pool;
      dialled = t.dialled + 1;
      remote = λ i. if t.dialled == i then tc.addr else t.remote i;
    } in
    if answer then some (t.dialled, made) else none

-- The write of Send on the connection of tc; `answer` says whether Write returns no error.
unfoldable pub write_frame : Bool → TcpConn → ℕ → List ℕ → Outbound → Bool × Outbound
write_frame answer tc conn frame t =
    if answer
    then (true, record t { written = record { conn = conn; frame = frame } ∷ t.written })
    else (
      false,
      record t {
        pool = Map.put tc.addr (record tc { conn = none }) t.pool;
        closed = λ i. if conn == i then true else t.closed i;
      },
    )

-- Send from the lock of the connection on, for its entry tc.
unfoldable pub send_on : Bool → Bool → List ℕ → TcpConn → Outbound → Bool × Outbound
unfolding dial write_frame
send_on dials writes frame tc t =
    let dialled : Bool × Outbound = elim (dial dials tc t) [
      | none ↦ (false, t)
      | some (conn, t') ↦ write_frame writes (record tc { backoff = 100 }) conn frame t'
    ] in
    elim tc.conn [ none ↦ dialled | some conn ↦ write_frame writes tc conn frame t ]

module _ (compress : List ℕ → Option (List ℕ)) where
  -- Send with the two answers of the network: whether it returns nil.
  unfoldable pub send_frame : Bool → Bool → String → Message → Outbound → Bool × Outbound
  unfolding get_or_create_conn send_on
  send_frame dials writes addr m t =
      let (tc, t') = get_or_create_conn addr t in
      send_on dials writes (make_frame (encode compress m)) tc t'

-- The loop of Stop over the pool.
unfoldable pub close_each : Map String TcpConn → (ℕ → Bool) → ℕ → Bool
close_each [] closed = closed
close_each ((addr, tc) ∷ rest) closed =
    close_each rest
      (elim tc.conn [ none ↦ closed | some conn ↦ λ i. if conn == i then true else closed i ])

-- What Stop does to the outbound half; a second call does the same.
unfoldable pub stop_outbound : Outbound → Outbound
unfolding close_each
stop_outbound t = record t { closed = close_each t.pool t.closed }
