-- ===== src/Codec/Bytes.antt =====
-- encoding/binary's little-endian numbers of `n` bytes.
use uav.Base.{
  ℕ, zero, suc, ◌+◌, ◌*◌, ◌/◌, ◌%◌, ◌^◌, ◌<◌, ◌≡◌, refl, List, [], ◌∷◌, ◌++◌, arith, length,
}
use native.Mathlib.Nat.{pow-suc, div-add-mod}

-- PutUint16, PutUint32 and PutUint64, for n = 2, 4 and 8.
unfoldable pub le_bytes : ℕ → ℕ → List ℕ
le_bytes zero x = []
le_bytes (suc n) x = (x % 256) ∷ le_bytes n (x / 256)

-- Uint16, Uint32 and Uint64. A byte past the end reads as 0; callers have checked the length.
unfoldable pub le_value : ℕ → List ℕ → ℕ
le_value zero bytes = 0
le_value (suc n) [] = 0
le_value (suc n) (b ∷ bytes) = b + 256 * le_value n bytes

pub length-le_bytes : (n x : ℕ) → length (le_bytes n x) ≡ n
unfolding le_bytes
length-le_bytes zero x = refl
length-le_bytes (suc n) x = omega (arith, length-le_bytes n (x / 256))

-- A number that fits is read back, whatever follows it.
pub le_value-le_bytes :
    (n x : ℕ) (rest : List ℕ) → x < 256 ^ n → le_value n (le_bytes n x ++ rest) ≡ x
unfolding le_bytes le_value
le_value-le_bytes zero x rest h = omega arith
le_value-le_bytes (suc n) x rest h =
    omega
      (arith, le_value-le_bytes n (x / 256) rest (omega (arith, pow-suc 256 n)), div-add-mod x 256)
