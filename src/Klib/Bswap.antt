-- ===== src/Klib/Bswap.antt =====
-- kern/lib/bswap.c: byte order. `(val & mask) << k` and `>> k` are written on the byte that the
-- mask selects; the bytes do not overlap, so that `|` is a sum, but for the two bytes of bswap64
-- that end on others, where it is kept.
pub mod Laws
use ops_class.Base.{ℕ, ◌+◌, ◌*◌, ◌/◌, ◌%◌, ◌^◌, bit_or}

-- The byte `i` of `val`, counted from the low end.
abbrev pub byte : ℕ → ℕ → ℕ
byte val i = val / 2 ^ (8 * i) % 256

unfoldable pub bswap16 : ℕ → ℕ
bswap16 val = byte val 0 * 2 ^ 8 + byte val 1

unfoldable pub bswap32 : ℕ → ℕ
bswap32 val = byte val 0 * 2 ^ 24 + byte val 1 * 2 ^ 16 + byte val 2 * 2 ^ 8 + byte val 3

-- The bytes 4 and 5 are shifted to the left, by 8 and 24, as the source has it.
unfoldable pub bswap64 : ℕ → ℕ
bswap64 val =
    bit_or
      (byte val 0 * 2 ^ 56
        + byte val 1 * 2 ^ 48
        + byte val 2 * 2 ^ 40
        + byte val 3 * 2 ^ 32
        + byte val 6 * 2 ^ 8
        + byte val 7)
      (bit_or (byte val 4 * 2 ^ 40) (byte val 5 * 2 ^ 64 % 2 ^ 64))

-- On the big-endian target.
unfoldable pub join32to64 : ℕ → ℕ → ℕ
join32to64 x1 x2 = x1 * 2 ^ 32 + x2

unfoldable pub split64to32 : ℕ → ℕ × ℕ
split64to32 x = (x / 2 ^ 32 % 2 ^ 32, x % 2 ^ 32)
