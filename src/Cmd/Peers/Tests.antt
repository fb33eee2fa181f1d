-- ===== src/Cmd/Peers/Tests.antt =====
-- The example of parsePeers, and specs that it refuses.
use uav.Base.{ℕ, ◌≡◌, refl, List, [], ◌∷◌, arith, nat_key}
use uav.Cmd.Peers.{
  Text, trim_left, trim_right, trim_space, split, cut, read_digits, parse_uint16, peers,
  invalid_spec, invalid_id, parse_items, parse_peers,
}
use uav.Cmd.Peers.RoundTrip.{print_peers, put_all, AreNamed, parse_peers-print_peers}

-- :9002 and :9003
abbrev second : Text
second = 58 ∷ 57 ∷ 48 ∷ 48 ∷ 50 ∷ []

abbrev third : Text
third = 58 ∷ 57 ∷ 48 ∷ 48 ∷ 51 ∷ []

abbrev two_peers : List (ℕ × Text)
two_peers = (2, second) ∷ (3, third) ∷ []

two_peers-AreNamed : AreNamed two_peers
unfolding trim_space trim_left trim_right
two_peers-AreNamed = (
  record { id_fits = omega arith; no_comma = refl; trimmed = refl },
  (record { id_fits = omega arith; no_comma = refl; trimmed = refl }, tt),
)

parse_peers-print_peers_example : parse_peers (print_peers two_peers) ≡ peers (put_all two_peers [])
parse_peers-print_peers_example = parse_peers-print_peers two_peers two_peers-AreNamed

-- " 65536=a" has too large an id, and "7" has no address.
too_large :
    parse_peers (32 ∷ 54 ∷ 53 ∷ 53 ∷ 51 ∷ 54 ∷ 61 ∷ 97 ∷ [])
    ≡ invalid_id (32 ∷ 54 ∷ 53 ∷ 53 ∷ 51 ∷ 54 ∷ [])
unfolding parse_peers parse_items split cut trim_space trim_left trim_right parse_uint16 read_digits
too_large = refl

no_address : parse_peers (55 ∷ []) ≡ invalid_spec (55 ∷ [])
unfolding parse_peers parse_items split cut
no_address = refl
