-- ===== src/Transport/Udp.antt =====
-- node/transport/udp/udp.go: datagrams that hold one encoded message each. `read_from` events and the
-- socket's answers are the caller's.
pub mod Datagrams
mod Tests
use uav.Base.{
  ℕ, zero, ◌==◌, leb, Bool, true, false, Option, none, some, String, List, [], ◌∷◌, if◌then◌else◌,
  take,
}
use uav.Message.{Message}
use uav.Codec
use uav.Codec.{encode, decode}
use uav.Transport.Tcp.{offer}

abbrev pub max_udp_packet : ℕ
max_udp_packet = 65507

-- The capacity of recvCh that New makes, for a size that is not negative.
abbrev pub recv_capacity : ℕ → ℕ
recv_capacity recv_buf_size = if leb recv_buf_size 0 then 256 else recv_buf_size

-- What ReadFromUDP does: an error, or a datagram, cut off at the size of the buffer.
pub data Read : Type 0 where
  read_error : Read
  datagram : List ℕ → Read

module _ (decompress : List ℕ → Option (List ℕ)) where
  -- One turn of readLoop, with the messages in recvCh, the oldest one first.
  unfoldable pub read_turn : ℕ → Read → List Message → List Message
  unfolding offer
  read_turn cap read_error queue = queue
  read_turn cap (datagram bytes) queue = elim (decode decompress (take max_udp_packet bytes)) [
    | Codec.Result.err e ↦ queue
    | Codec.Result.ok m ↦ offer cap queue m
  ]

  -- readLoop over these reads, in order.
  unfoldable pub read_loop : ℕ → List Read → List Message → List Message
  unfolding read_turn
  read_loop cap [] queue = queue
  read_loop cap (r ∷ rest) queue = read_loop cap rest (read_turn cap r queue)

-- `resolves` stands for ResolveUDPAddr, `writes` for WriteToUDP.
module _ (compress : List ℕ → Option (List ℕ)) (resolves : String → Bool)
    (writes : List ℕ → String → Bool) where
  -- Send: whether it returns nil, and the datagram that it hands to the socket.
  unfoldable pub send_datagram : String → Message → Bool × Option (List ℕ)
  unfolding encode
  send_datagram addr m =
      let bytes = encode compress m in
      if resolves addr then (writes bytes addr, some bytes) else (false, none)
