-- ===== src/Domain/Words.antt =====
-- encoding/binary: big-endian words, as internal/domain/identity.go writes them.
use variable_star_classifica.Prelude.{
  ℕ, ◌-◌, ◌/◌, ◌%◌, ◌^◌, ◌<◌, ◌≡◌, ap, [], ◌∷◌, ◌++◌, arith, Text, ℤ, pos, negsuc,
}

-- binary.BigEndian.PutUint32
unfoldable pub put_uint32 : ℕ → Text
put_uint32 v = v / 2 ^ 24 % 256 ∷ v / 2 ^ 16 % 256 ∷ v / 2 ^ 8 % 256 ∷ v % 256 ∷ []

-- binary.BigEndian.PutUint64: the high word before the low one.
unfoldable pub put_uint64 : ℕ → Text
unfolding put_uint32
put_uint64 v = put_uint32 (v / 2 ^ 32 % 2 ^ 32) ++ put_uint32 (v % 2 ^ 32)

-- The conversion uint64(x) of an int64: two's complement.
unfoldable pub uint64_of : ℤ → ℕ
uint64_of (pos n) = n % 2 ^ 64
uint64_of (negsuc n) = (2 ^ 64 - 1 - n) % 2 ^ 64

-- The values of an int64.
abbrev pub IsInt64 : ℤ → Type 0
IsInt64 (pos n) = n < 2 ^ 63
IsInt64 (negsuc n) = n < 2 ^ 63

-- A word before any bytes can be read back, and so can the bytes behind it.
pub put_uint32-injective :
    (v w : ℕ) (s t : Text)
    → v < 2 ^ 32
    → w < 2 ^ 32
    → put_uint32 v ++ s ≡ put_uint32 w ++ t
    → (v ≡ w) × (s ≡ t)
unfolding put_uint32
put_uint32-injective v w s t hv hw e = (ground arith, cc)

pub put_uint64-injective :
    (v w : ℕ) (s t : Text)
    → v < 2 ^ 64
    → w < 2 ^ 64
    → put_uint64 v ++ s ≡ put_uint64 w ++ t
    → (v ≡ w) × (s ≡ t)
unfolding put_uint64
put_uint64-injective v w s t hv hw e = (ground arith, cc)

pub uint64_of-lt : (z : ℤ) → uint64_of z < 2 ^ 64
unfolding uint64_of
uint64_of-lt (pos n) = omega arith
uint64_of-lt (negsuc n) = omega arith

pub uint64_of-injective : (a b : ℤ) → IsInt64 a → IsInt64 b → uint64_of a ≡ uint64_of b → a ≡ b
unfolding uint64_of
uint64_of-injective (pos a) (pos b) ha hb e = ap pos (omega arith)
uint64_of-injective (pos a) (negsuc b) ha hb e = absurd (omega arith)
uint64_of-injective (negsuc a) (pos b) ha hb e = absurd (omega arith)
uint64_of-injective (negsuc a) (negsuc b) ha hb e = ap negsuc (omega arith)
