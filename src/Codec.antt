-- ===== src/Codec.antt =====
-- node/transport/codec/codec.go: messages as bytes. zlib is a parameter: `none` is its error.
pub mod Bytes
pub mod RoundTrip
mod Tests
use uav.Base.{
  ℕ, ◌+◌, ◌-◌, ◌%◌, ◌==◌, ltb, leb, List, [], ◌∷◌, ◌++◌, Option, none, some, if◌then◌else◌, length,
  take, drop, u32,
}
use uav.Message.{Message, header_size}
use Bytes.{le_bytes, le_value}

pub data Error : Type 0 where
  empty_data : Error
  decompress_failed : Error
  too_short : ℕ → ℕ → Error
  payload_truncated : ℕ → ℕ → Error

pub data Result {ℓ} (A : Type ℓ) : Type ℓ where
  ok : A → Result A
  err : Error → Result A

abbrev pub compress_threshold : ℕ
compress_threshold = 256

-- encodeRaw. `copy` writes at most the bytes that `payload_len` has made room for.
unfoldable pub encode_raw : Message → List ℕ
encode_raw m =
    let payload_len = length m.payload % u32 in
    le_bytes 1 m.mtype
    ++ (le_bytes 2 m.from
        ++ (le_bytes 2 m.to
            ++ (le_bytes 4 m.seq
                ++ (le_bytes 8 m.timestamp
                    ++ (le_bytes 8 m.data_time
                        ++ (le_bytes 1 m.stream_id
                            ++ (le_bytes 2 m.ttl
                                ++ (le_bytes 1 m.priority
                                    ++ (le_bytes 4 payload_len
                                        ++ take payload_len m.payload)))))))))

-- decodeRaw. `read n off` is the little-endian number of n bytes at data[off:].
abbrev pub read : ℕ → ℕ → List ℕ → ℕ
read n off bytes = le_value n (drop off bytes)

-- The message that decodeRaw fills in from a long enough buffer.
unfoldable pub read_fields : List ℕ → Message
read_fields bytes = record {
  mtype = read 1 0 bytes;
  from = read 2 1 bytes;
  to = read 2 3 bytes;
  seq = read 4 5 bytes;
  timestamp = read 8 9 bytes;
  data_time = read 8 17 bytes;
  stream_id = read 1 25 bytes;
  ttl = read 2 26 bytes;
  priority = read 1 28 bytes;
  payload = take (read 4 29 bytes) (drop 33 bytes);
}

unfoldable pub decode_raw : List ℕ → Result Message
unfolding read_fields
decode_raw bytes =
    let payload_len = read 4 29 bytes in
    let remaining = length bytes - 33 in
    if ltb (length bytes) header_size
    then err (too_short (length bytes) header_size)
    else if ltb remaining payload_len
    then err (payload_truncated payload_len remaining)
    else ok (read_fields bytes)

module _ (compress : List ℕ → Option (List ℕ)) where
  -- The compressed form that Encode uses, if any.
  abbrev pub squeezed : Message → Option (List ℕ)
  squeezed m =
      let smaller : Option (List ℕ) = elim (compress (encode_raw m)) [
        | none ↦ none
        | some z ↦ if ltb (length z) (length (encode_raw m)) then some z else none
      ] in
      if leb compress_threshold (length m.payload) then smaller else none

  unfoldable pub encode : Message → List ℕ
  encode m = elim (squeezed m) [ none ↦ 0 ∷ encode_raw m | some z ↦ 1 ∷ z ]

module _ (decompress : List ℕ → Option (List ℕ)) where
  unfoldable pub decode : List ℕ → Result Message
  decode [] = err empty_data
  decode (flag ∷ bytes) =
      let inflated : Result Message = elim (decompress bytes) [
        | none ↦ err decompress_failed
        | some raw ↦ decode_raw raw
      ] in
      if flag == 1 then inflated else decode_raw bytes
