-- ===== src/Transport/Udp/Datagrams.antt =====
-- What one node's Send gives another node's readLoop.
use uav.Base.{
  ℕ, zero, suc, ◌≤◌, ◌≡◌, refl, ap, ◌∙◌, Bool, true, List, [], ◌∷◌, Option, some, String, length,
  take, arith,
}
use uav.Message.{Message, IsValid}
use uav.Codec
use uav.Codec.{encode, decode}
use uav.Codec.RoundTrip.{decode-encode}
use uav.Transport.Tcp.{offer}
use uav.Transport.Udp.{max_udp_packet, datagram, read_turn, send_datagram}

take_whole {ℓ} : {A : Type ℓ} (n : ℕ) (xs : List A) → length xs ≤ n → take n xs ≡ xs
take_whole zero [] h = refl
take_whole (suc n) [] h = refl
take_whole zero (x ∷ xs) h = absurd (omega arith)
take_whole (suc n) (x ∷ xs) h = ap (◌∷◌ x) (take_whole n xs (omega arith))

module _ (compress decompress : List ℕ → Option (List ℕ))
    (inflates : (bytes z : List ℕ) → compress bytes ≡ some z → decompress z ≡ some bytes) where
  -- A valid message whose encoding fits into one datagram reaches the channel of the receiver, if the
  -- socket takes it.
  pub read_turn-send_datagram :
      (resolves : String → Bool) (writes : List ℕ → String → Bool) (addr : String) (m : Message)
      (cap : ℕ) (queue : List Message)
      → IsValid m
      → resolves addr ≡ true
      → length (encode compress m) ≤ max_udp_packet
      → (bytes : List ℕ) × ((send_datagram compress resolves writes addr m).1 ≡ some bytes)
        × (read_turn decompress cap (datagram bytes) queue ≡ offer cap queue m)
  unfolding send_datagram read_turn
  read_turn-send_datagram resolves writes addr m cap queue v known fits =
      let bytes = encode compress m in
      let decoded : decode decompress (take max_udp_packet bytes) ≡ Codec.Result.ok m =
        ap (decode decompress) (take_whole max_udp_packet bytes fits)
        ∙ decode-encode compress decompress inflates m v in
      (bytes, rw known refl, rw (read_turn, decoded) refl)
