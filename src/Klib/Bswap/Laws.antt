-- ===== src/Klib/Bswap/Laws.antt =====
-- The byte swaps and the halves of a 64-bit number.
use ops_class.Base.{ℕ, ◌^◌, ◌<◌, ◌≡◌, arith, ap₂}
use ops_class.Klib.Bswap.{byte, bswap16, bswap32, join32to64, split64to32}

-- bswap16 reverses the two bytes of a 16-bit number, and is its own inverse.
pub bswap16_lem :
    (val : ℕ)
    → val < 2 ^ 16
    → (byte (bswap16 val) 0 ≡ byte val 1)
      × (byte (bswap16 val) 1 ≡ byte val 0)
      × (bswap16 val < 2 ^ 16)
      × (bswap16 (bswap16 val) ≡ val)
unfolding bswap16
bswap16_lem val h = (omega arith, omega arith, omega arith, omega arith)

-- bswap32 reverses the four bytes of a 32-bit number, and is its own inverse.
pub bswap32_lem :
    (val : ℕ)
    → val < 2 ^ 32
    → (byte (bswap32 val) 0 ≡ byte val 3)
      × (byte (bswap32 val) 1 ≡ byte val 2)
      × (byte (bswap32 val) 2 ≡ byte val 1)
      × (byte (bswap32 val) 3 ≡ byte val 0)
      × (bswap32 (bswap32 val) ≡ val)
unfolding bswap32
bswap32_lem val h = (omega arith, omega arith, omega arith, omega arith, omega arith)

-- split64to32 and join32to64 are inverse to each other on 64-bit numbers and pairs of 32-bit ones.
pub split64to32-join32to64 :
    ((x1 x2 : ℕ) → x1 < 2 ^ 32 → x2 < 2 ^ 32 → split64to32 (join32to64 x1 x2) ≡ (x1, x2))
    × ((x : ℕ) → x < 2 ^ 64 → join32to64 (split64to32 x).0 (split64to32 x).1 ≡ x)
unfolding split64to32 join32to64
split64to32-join32to64 =
    ((λ x1 x2 h1 h2. ap₂ (λ a b. (a, b)) (omega arith) (omega arith)), λ x h. omega arith)
