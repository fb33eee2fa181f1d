-- ===== src/Transport/Tcp.antt =====
-- node/transport/tcp/tcp.go: frames with a four-byte length, and the receive loop of a connection.
-- A connection is the list of the bytes that are still to arrive; its end is an error of `read`.
pub mod Stream
mod Tests
use uav.Base.{
  ℕ, zero, suc, ◌+◌, ◌%◌, ◌==◌, ltb, leb, ◌||◌, Bool, List, [], ◌∷◌, ◌++◌, Option, if◌then◌else◌,
  length, take, drop, u32,
}
use uav.Message.{Message}
use uav.Codec.{decode}
use uav.Codec
use uav.Codec.Bytes.{le_bytes, le_value}

abbrev pub max_frame : ℕ
max_frame = 65536

pub data Error : Type 0 where
  io_error : Error
  invalid_length : ℕ → Error
  codec_error : Codec.Error → Error

pub data Result {ℓ} (A : Type ℓ) : Type ℓ where
  ok : A → Result A
  err : Error → Result A

-- makeFrame.
unfoldable pub make_frame : List ℕ → List ℕ
make_frame bytes = le_bytes 4 (length bytes % u32) ++ bytes

-- io.ReadFull on a buffer of n bytes: the bytes read, and the rest of the stream.
unfoldable pub read_full : ℕ → List ℕ → Result (List ℕ × List ℕ)
read_full n stream =
    if ltb (length stream) n then err io_error else ok (take n stream, drop n stream)

infixl 5 ◌>>=◌
abbrev pub ◌>>=◌ {ℓ κ} : {A : Type ℓ} {B : Type κ} → Result A → (A → Result B) → Result B
ok a >>= f = f a
err e >>= f = err e

abbrev pub from_codec : Codec.Result Message → List ℕ → Result (Message × List ℕ)
from_codec (Codec.Result.ok m) rest = ok (m, rest)
from_codec (Codec.Result.err e) rest = err (codec_error e)

-- A buffered channel of capacity `cap` that a receive loop fills: when it is full, the oldest
-- message makes room for the new one.
unfoldable pub offer : ℕ → List Message → Message → List Message
offer cap queue m = if ltb (length queue) cap then queue ++ m ∷ [] else drop 1 queue ++ m ∷ []

module _ (decompress : List ℕ → Option (List ℕ)) where
  -- readFrame.
  unfoldable pub read_frame : List ℕ → Result (Message × List ℕ)
  unfolding read_full
  read_frame stream = do
    (len_buf, body) ← read_full 4 stream
    let frame_len = le_value 4 len_buf
    (buf, rest) ←
        if frame_len == 0 || ltb max_frame frame_len
        then err (invalid_length frame_len)
        else read_full frame_len body
    from_codec (decode decompress buf) rest

  -- handleConn: reads frames until one fails or stopCh is closed. Fuel is above the number of frames. By
  -- the fuel that is left, `stopped` says whether stopCh is closed, and `others` what the consumer and
  -- the other connections have done to the channel since the last frame.
  unfoldable pub handle_conn :
      (ℕ → Bool) → (ℕ → List Message → List Message) → ℕ → ℕ → List ℕ → List Message → List Message
  handle_conn stopped others zero cap stream queue = queue
  handle_conn stopped others (suc fuel) cap stream queue =
      let now = others fuel queue in
      let go_on : List Message = elim (read_frame stream) [
        | ok (m, rest) ↦ handle_conn stopped others fuel cap rest (offer cap now m)
        | err _ ↦ now
      ] in
      if stopped fuel then now else go_on
