-- ===== src/Transport/Tcp/Stream.antt =====
-- What a receiver reads from a stream of frames.
use native.Mathlib.Nat.{mod-eq_of_lt}
use uav.Base.{
  ℕ, zero, suc, ◌+◌, ◌<◌, ◌≤◌, ◌≡◌, refl, sym, ap, ◌∙◌, List, [], ◌∷◌, ◌++◌, Option, some, arith,
  length, drop, u32, length-append, append_assoc, append-nil, take-append_length,
  drop-append_length, ltb, ◌-◌, inl, inr, Bool-cases, false,
}
use mathlib.Core.List.{foldl}
use uav.Message.{Message, IsValid}
use uav.Codec.{encode, decode}
use uav.Codec.Bytes.{le_bytes, le_value, length-le_bytes, le_value-le_bytes}
use uav.Codec.RoundTrip.{decode-encode, length-encode-le, length-encode-pos}
use uav.Transport.Tcp.{
  ok, err, invalid_length, make_frame, from_codec, read_full, read_frame, offer, handle_conn,
  max_frame,
}

-- io.ReadFull returns the n bytes that stand first.
read_full-append : (n : ℕ) (xs ys : List ℕ) → length xs ≡ n → read_full n (xs ++ ys) ≡ ok (xs, ys)
unfolding read_full
read_full-append n xs ys h =
    rw (← h, take-append_length, drop-append_length) (ground (arith, length-append xs ys))

module _ (decompress : List ℕ → Option (List ℕ)) (bytes rest : List ℕ) where
  abbrev frame : List ℕ
  frame = make_frame bytes ++ rest

  read_len : length bytes < u32 → read_full 4 frame ≡ ok (le_bytes 4 (length bytes), bytes ++ rest)
  unfolding make_frame
  read_len h =
      rw (append_assoc, mod-eq_of_lt h)
        (read_full-append 4 _ (bytes ++ rest) (length-le_bytes 4 (length bytes)))

  declared : length bytes < u32 → le_value 4 (le_bytes 4 (length bytes)) ≡ length bytes
  declared h = rw append-nil at (le_value-le_bytes 4 (length bytes) [] h)

  -- A frame within the limit is taken off the stream, and decoded.
  pub read_frame-make_frame :
      0 < length bytes
      → length bytes ≤ max_frame
      → read_frame decompress frame ≡ from_codec (decode decompress bytes) rest
  unfolding read_frame
  read_frame-make_frame h k =
      rw (read_len (omega arith), declared (omega arith))
        (ground (
          arith,
          take-append_length bytes rest,
          drop-append_length bytes rest,
          length-append bytes rest,
        ))

  -- Reading the frame that makeFrame makes of more than 65536 bytes, and fewer than 2 ^ 32, is the
  -- error of an invalid length.
  pub read_frame_oversized :
      max_frame < length bytes
      → length bytes < u32
      → read_frame decompress frame ≡ err (invalid_length (length bytes))
  unfolding read_frame
  read_frame_oversized h k = rw (read_len k, declared k) (ground arith)

drop-at {ℓ} : {A : Type ℓ} (xs : List A) (m n : ℕ) → m ≡ n → drop m xs ≡ drop n xs
drop-at xs m n e = ap (λ k. drop k xs) e

-- A channel that receives `ms` keeps the newest `cap` of all.
pub foldl-offer :
    (cap : ℕ) (queue ms : List Message)
    → 0 < cap
    → length queue ≤ cap
    → foldl (offer cap) queue ms ≡ drop (length queue + length ms - cap) (queue ++ ms)
unfolding offer
foldl-offer cap queue [] h k = rw append-nil (drop-at queue 0 _ (omega arith))
foldl-offer cap queue (m ∷ ms) h k = elim (Bool-cases (ltb (length queue) cap)) [
  | inl room ↦ rw room (
      foldl-offer cap (queue ++ m ∷ []) ms h (ground (arith, length-append queue (m ∷ [])))
      ∙ rw (append_assoc, length-append) (drop-at (queue ++ m ∷ ms) _ _ (omega arith)))
  | inr full ↦
      rw full
        (foldl-offer cap (drop 1 queue ++ m ∷ []) ms h (bound queue k) ∙ shift queue (ground arith))
]
  where
    bound : (q : List Message) → length q ≤ cap → length (drop 1 q ++ m ∷ []) ≤ cap
    bound [] b = omega arith
    bound (x ∷ q) b = omega (arith, length-append q (m ∷ []))

    shift :
        (q : List Message)
        → cap ≤ length q
        → drop (length (drop 1 q ++ m ∷ []) + length ms - cap) ((drop 1 q ++ m ∷ []) ++ ms)
          ≡ drop (length q + length (m ∷ ms) - cap) (q ++ m ∷ ms)
    shift [] b = absurd (omega arith)
    shift (x ∷ q) b =
        rw (append_assoc, length-append)
          (sym (drop-at (x ∷ q ++ m ∷ ms) _ (suc (length q + 1 + length ms - cap)) (omega arith)))

-- Every message is valid, and short enough for one frame.
abbrev pub Fits : List Message → Type 0
Fits [] = Unit {0}
Fits (m ∷ ms) = IsValid m × (length m.payload ≤ 65502) × Fits ms

-- What a sender writes for a sequence of messages.
abbrev pub frames : (List ℕ → Option (List ℕ)) → List Message → List ℕ
frames compress [] = []
frames compress (m ∷ ms) = make_frame (encode compress m) ++ frames compress ms

module _ (compress decompress : List ℕ → Option (List ℕ))
    (inverse : (raw z : List ℕ) → compress raw ≡ some z → decompress z ≡ some raw) where
  read_frame-encode :
      (m : Message) (rest : List ℕ)
      → IsValid m
      → length m.payload ≤ 65502
      → read_frame decompress (make_frame (encode compress m) ++ rest) ≡ ok (m, rest)
  read_frame-encode m rest v h =
      read_frame-make_frame decompress (encode compress m) rest (length-encode-pos compress m)
        (omega (arith, length-encode-le compress m v))
      ∙ rw (decode-encode compress decompress inverse m v)

  handle_conn-frames :
      (fuel cap : ℕ) (ms queue : List Message)
      → length ms < fuel
      → Fits ms
      → handle_conn decompress (λ k. false) (λ k q. q) fuel cap (frames compress ms) queue
        ≡ foldl (offer cap) queue ms
  unfolding handle_conn
  handle_conn-frames zero cap ms queue h f = absurd (omega arith)
  handle_conn-frames (suc fuel) cap [] queue h f = unfold read_frame in refl
  handle_conn-frames (suc fuel) cap (m ∷ ms) queue h f =
      rw (read_frame-encode m (frames compress ms) f.0 f.1, handle_conn)
        (handle_conn-frames fuel cap ms (offer cap queue m) (omega arith) f.2)

  -- If the decompression inverts the compression, the receive loop of a connection, on fuel above the
  -- number of messages, takes the messages of a sender off the stream in order, as long as each is
  -- valid with at most 65502 bytes of payload, and stopCh is open. Its channel, empty at first and with
  -- room for at least one, is left with the newest messages that it has room for, while nobody else
  -- puts into it or takes from it.
  pub handle_conn-newest :
      (fuel cap : ℕ) (ms : List Message)
      → length ms < fuel
      → 0 < cap
      → Fits ms
      → handle_conn decompress (λ k. false) (λ k q. q) fuel cap (frames compress ms) []
        ≡ drop (length ms - cap) ms
  handle_conn-newest fuel cap ms h k f =
      handle_conn-frames fuel cap ms [] h f
      ∙ foldl-offer cap [] ms k (omega arith)
      ∙ ap (λ n. drop n ms) (omega arith)
