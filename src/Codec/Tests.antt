-- ===== src/Codec/Tests.antt =====
-- Runs of the codec, and its theorems at concrete inputs.
use uav.Base.{◌≡◌, refl, ℕ, List, [], ◌∷◌, Option, none, arith}
use uav.Message.{Message, IsValid, zero_message}
use uav.Codec.{ok, err, too_short, encode_raw, decode_raw, encode, decode}
use uav.Codec.Bytes.{le_bytes, le_value}
use uav.Codec.RoundTrip.{decode-encode}

abbrev sample : Message
sample = record zero_message {
  mtype = 1;
  from = 300;
  seq = 70000;
  ttl = 500;
  priority = 1;
  payload = 7 ∷ 8 ∷ [];
}

sample-IsValid : IsValid sample
sample-IsValid = omega arith

-- A compressor that always fails, as zlib's writer may.
abbrev no_zlib : List ℕ → Option (List ℕ)
no_zlib bytes = none

sample_run : decode no_zlib (encode no_zlib sample) ≡ ok sample
unfolding decode encode encode_raw decode_raw le_bytes le_value
sample_run = refl

short_run : decode no_zlib (0 ∷ 1 ∷ 2 ∷ []) ≡ err (too_short 2 33)
unfolding decode decode_raw
short_run = refl

decode-encode_example : decode no_zlib (encode no_zlib sample) ≡ ok sample
decode-encode_example = decode-encode no_zlib no_zlib (λ raw z e. cc) sample sample-IsValid
