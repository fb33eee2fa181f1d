-- ===== src/Transport/Tcp/Tests.antt =====
-- Runs of the framing, and its theorems at concrete inputs.
use uav.Base.{
  false, ◌≡◌, ℕ, List, [], ◌∷◌, ◌++◌, Option, none, arith, length, replicate, length-replicate,
}
use uav.Message.{Message, zero_message}
use uav.Transport.Tcp.{err, invalid_length, make_frame, read_frame, handle_conn}
use uav.Transport.Tcp.Stream.{frames, handle_conn-newest, read_frame_oversized}

abbrev no_zlib : List ℕ → Option (List ℕ)
no_zlib bytes = none

abbrev numbered : ℕ → Message
numbered n = record zero_message { from = 1; seq = n; payload = n ∷ [] }

abbrev three_messages : List Message
three_messages = numbered 1 ∷ numbered 2 ∷ numbered 3 ∷ []

handle_conn-newest_example :
    handle_conn no_zlib (λ k. false) (λ k q. q) 4 2 (frames no_zlib three_messages) []
    ≡ numbered 2 ∷ numbered 3 ∷ []
handle_conn-newest_example =
    handle_conn-newest no_zlib no_zlib (λ raw z e. cc) 4 2 three_messages (omega arith)
      (omega arith) (omega arith)

zeros : List ℕ
zeros = replicate 65537 0

length-zeros : length zeros ≡ 65537
unfolding zeros
length-zeros = length-replicate {A = ℕ} 65537 0

read_frame_oversized_example :
    read_frame no_zlib (make_frame zeros ++ []) ≡ err (invalid_length (length zeros))
read_frame_oversized_example =
    read_frame_oversized no_zlib zeros [] (omega (arith, length-zeros))
      (omega (arith, length-zeros))
