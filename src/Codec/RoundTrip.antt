-- ===== src/Codec/RoundTrip.antt =====
-- Decoding undoes encoding, and encoding undoes a successful decoding.
use native.Mathlib.Nat.{mod-eq_of_lt}
use uav.Base.{
  ℕ, ◌+◌, ◌-◌, ◌%◌, ◌<◌, ◌≤◌, ◌≡◌, sym, ap, ◌∙◌, List, [], ◌++◌, Option, some, arith, length, take,
  drop, take-append_length, u32, length-append, inl, inr, Option-cases, append-nil,
}
use uav.Message.{Message, IsValid}
use uav.Codec.{ok, encode_raw, read, read_fields, decode_raw, encode, decode, squeezed}
use uav.Codec.Bytes.{le_bytes, le_value-le_bytes}

-- A buffer that holds the header and the payload that it declares is decoded.
decode_raw-ok :
    (bytes : List ℕ)
    → 33 ≤ length bytes
    → read 4 29 bytes ≤ length bytes - 33
    → decode_raw bytes ≡ ok (read_fields bytes)
unfolding decode_raw
decode_raw-ok bytes h k = ground arith

module _ (m : Message) (v : IsValid m) (rest : List ℕ) where
  abbrev bytes : List ℕ
  bytes = encode_raw m ++ rest

  payload_len-eq : length m.payload % u32 ≡ length m.payload
  payload_len-eq = mod-eq_of_lt v.payload

  body-eq : take (length m.payload % u32) m.payload ≡ m.payload
  body-eq =
      rw payload_len-eq
        (ap (take (length m.payload)) (sym (append-nil _)) ∙ take-append_length m.payload [])

  pub length-encode_raw : length (encode_raw m ++ rest) ≡ 33 + length m.payload + length rest
  unfolding encode_raw le_bytes
  length-encode_raw = rw body-eq (omega (arith, length-append m.payload rest))

  read-payload_len : read 4 29 (encode_raw m ++ rest) ≡ length m.payload
  unfolding encode_raw le_bytes
  read-payload_len = le_value-le_bytes 4 _ _ (rw payload_len-eq v.payload) ∙ payload_len-eq

  drop-bytes : drop 33 bytes ≡ m.payload ++ rest
  unfolding encode_raw le_bytes
  drop-bytes = ap (λ p. p ++ rest) body-eq

  read-payload : take (read 4 29 bytes) (drop 33 bytes) ≡ m.payload
  read-payload = rw (read-payload_len, drop-bytes) (take-append_length m.payload rest)

  read_fields-encode_raw : read_fields (encode_raw m ++ rest) ≡ m
  unfolding encode_raw read_fields le_bytes
  read_fields-encode_raw = λ i. record {
    mtype = le_value-le_bytes 1 m.mtype (drop 1 bytes) v.mtype i;
    from = le_value-le_bytes 2 m.from (drop 3 bytes) v.from i;
    to = le_value-le_bytes 2 m.to (drop 5 bytes) v.to i;
    seq = le_value-le_bytes 4 m.seq (drop 9 bytes) v.seq i;
    timestamp = le_value-le_bytes 8 m.timestamp (drop 17 bytes) v.timestamp i;
    data_time = le_value-le_bytes 8 m.data_time (drop 25 bytes) v.data_time i;
    stream_id = le_value-le_bytes 1 m.stream_id (drop 26 bytes) v.stream_id i;
    ttl = le_value-le_bytes 2 m.ttl (drop 28 bytes) v.ttl i;
    priority = le_value-le_bytes 1 m.priority (drop 29 bytes) v.priority i;
    payload = read-payload i;
  }

  -- The bytes that encodeRaw writes are read back as the message, whatever follows them.
  pub decode_raw-encode_raw : decode_raw (encode_raw m ++ rest) ≡ ok m
  decode_raw-encode_raw =
      decode_raw-ok _ (omega (arith, length-encode_raw))
        (omega (arith, length-encode_raw, read-payload_len))
      ∙ ap ok read_fields-encode_raw

decode_raw-whole : (m : Message) → IsValid m → decode_raw (encode_raw m) ≡ ok m
decode_raw-whole m v = rw append-nil at (decode_raw-encode_raw m v [])

-- An encoding is at most the flag, the header and the payload.
pub length-encode-le :
    (compress : List ℕ → Option (List ℕ)) (m : Message)
    → IsValid m
    → length (encode compress m) ≤ 34 + length m.payload
unfolding encode
length-encode-le compress m v = ground (arith, rw append-nil at (length-encode_raw m v []))

pub length-encode-pos :
    (compress : List ℕ → Option (List ℕ)) (m : Message) → 0 < length (encode compress m)
unfolding encode
length-encode-pos compress m = ground arith

module _ (compress decompress : List ℕ → Option (List ℕ))
    (inverse : (raw z : List ℕ) → compress raw ≡ some z → decompress z ≡ some raw) where
  squeezed-inflates :
      (m : Message) (z : List ℕ) → squeezed compress m ≡ some z → decompress z ≡ some (encode_raw m)
  squeezed-inflates m z e = ground (arith, inverse (encode_raw m) z)

  -- A valid message survives encoding and decoding, compressed or not, if zlib inflates what it
  -- has deflated.
  pub decode-encode : (m : Message) → IsValid m → decode decompress (encode compress m) ≡ ok m
  unfolding encode decode
  decode-encode m v = elim (Option-cases (squeezed compress m)) [
    | inl e ↦ rw (e, encode, decode) (decode_raw-whole m v)
    | inr (z, e) ↦ rw (e, encode, decode, squeezed-inflates m z e) (decode_raw-whole m v)
  ]
