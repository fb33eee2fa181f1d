-- ===== src/Transport/Udp/Tests.antt =====
-- Examples of the UDP loop.
use uav.Base.{ℕ, ◌≡◌, refl, Option, none, List, [], ◌∷◌}
use uav.Message.{Message, zero_message}
use uav.Codec.{encode}
use uav.Transport.Udp.{read_error, datagram, read_loop}

abbrev plain : List ℕ → Option (List ℕ)
plain bytes = none

abbrev numbered : ℕ → Message
numbered seq = record zero_message { seq = seq }

-- A malformed datagram is passed over, and the oldest message makes room.
newest_two :
    read_loop plain 2
      (datagram (encode plain (numbered 1))
        ∷ read_error
        ∷ datagram (9 ∷ 9 ∷ [])
        ∷ datagram (encode plain (numbered 2))
        ∷ datagram (encode plain (numbered 3))
        ∷ [])
      []
    ≡ numbered 2 ∷ numbered 3 ∷ []
unfolding read_loop encode uav.Codec.decode uav.Codec.decode_raw uav.Codec.encode_raw
    uav.Codec.Bytes.le_bytes uav.Codec.Bytes.le_value
newest_two = refl
