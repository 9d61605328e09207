-- ===== src/Base/Bits.antt =====
-- Single bits of a byte: facts checked on all 256 bytes and 8 positions.
use Prim.Native.Nat.{ℕ, zero, suc, ◌+◌, ◌-◌, ◌^◌, ◌≤◌, ◌<◌, bit_and, bit_or, bit_and-bitwise}
use mathlib.Core.Path.{◌≡◌, refl, subst}
use mathlib.Core.Bool.{Bool, true, false, ◌&&◌, not}
use native.Mathlib.Omega.{arith}
use native.Mathlib.Decide.{ℕ_discrete}
use ops_class.Base.Tests.{ltb, ◌==◌, if◌then◌else◌}

-- The test `p` on the numbers from `lo` on, `count` of them.
every : (ℕ → Bool) → ℕ → ℕ → Bool
every p lo zero = true
every p lo (suc count) = if p lo then every p (lo + 1) count else false

every_sound :
    (p : ℕ → Bool) (count lo x : ℕ) → every p lo count ≡ true → lo ≤ x → x < lo + count → p x ≡ true
unfolding every
every_sound p zero lo x h above below = absurd (omega arith)
every_sound p (suc count) lo x h above below = elim (ℕ_discrete lo x) [
  | yes here ↦ subst (λ k. p k ≡ true) here (ground (arith, h))
  | no later ↦
      every_sound p count (lo + 1) x (ground (arith, h)) (omega (arith, later)) (omega arith)
]

-- Bit `k` of the byte `w`: `(w & (1 << k)) != 0`.
unfoldable pub bit_set : ℕ → ℕ → Bool
bit_set w k = not (bit_and w (2 ^ k) == 0)

-- `w |= 1 << k`.
unfoldable pub set_bit : ℕ → ℕ → ℕ
set_bit w k = bit_or w (2 ^ k)

-- `w &= ~(1 << k)`, on an `unsigned char`.
unfoldable pub clear_bit : ℕ → ℕ → ℕ
clear_bit w k = bit_and w (255 - 2 ^ k)

abbrev bool_eq : Bool → Bool → Bool
bool_eq true b = b
bool_eq false b = not b

bool_eq_sound : (a b : Bool) → bool_eq a b ≡ true → a ≡ b
bool_eq_sound a b h = ground arith

table : (ℕ → ℕ → ℕ → Bool) → Bool
unfolding every
table p = every (λ w. every (λ k. every (p w k) 0 8) 0 8) 0 256

table_sound :
    (p : ℕ → ℕ → ℕ → Bool) → table p ≡ true → (w k j : ℕ) → w < 256 → k < 8 → j < 8 → p w k j ≡ true
unfolding table
table_sound p h w k j hw hk hj =
    every_sound (p w k) 8 0 j
      (every_sound (λ k'. every (p w k') 0 8) 8 0 k
        (every_sound (λ w'. every (λ k'. every (p w' k') 0 8) 0 8) 256 0 w h (omega arith) hw)
        (omega arith) hk)
      (omega arith) hj

abbrev set_law : ℕ → ℕ → ℕ → Bool
set_law w k j = bool_eq (bit_set (set_bit w k) j) (if k == j then true else bit_set w j)

abbrev clear_law : ℕ → ℕ → ℕ → Bool
clear_law w k j = bool_eq (bit_set (clear_bit w k) j) (if k == j then false else bit_set w j)

abbrev byte_law : ℕ → ℕ → ℕ → Bool
byte_law w k j = ltb (set_bit w k) 256 && ltb (clear_bit w k) 256

set_law-table : table set_law ≡ true
unfolding table bit_set set_bit
set_law-table = refl

clear_law-table : table clear_law ≡ true
unfolding table bit_set clear_bit
clear_law-table = refl

byte_law-table : table byte_law ≡ true
unfolding table set_bit clear_bit
byte_law-table = refl

module _ (w k j : ℕ) (hw : w < 256) (hk : k < 8) (hj : j < 8) where
  pub bit_set-set_bit : bit_set (set_bit w k) j ≡ (if k == j then true else bit_set w j)
  bit_set-set_bit = bool_eq_sound _ _ (table_sound set_law set_law-table w k j hw hk hj)

  pub bit_set-clear_bit : bit_set (clear_bit w k) j ≡ (if k == j then false else bit_set w j)
  bit_set-clear_bit = bool_eq_sound _ _ (table_sound clear_law clear_law-table w k j hw hk hj)

module _ (w k : ℕ) (hw : w < 256) (hk : k < 8) where
  pub set_bit-lt : set_bit w k < 256
  set_bit-lt = ground (arith, table_sound byte_law byte_law-table w k 0 hw hk)

  pub clear_bit-lt : clear_bit w k < 256
  clear_bit-lt = ground (arith, table_sound byte_law byte_law-table w k 0 hw hk)

bit_255 : every (bit_set 255) 0 8 ≡ true
unfolding every bit_set
bit_255 = refl

every_complete :
    (p : ℕ → Bool) (count lo : ℕ)
    → ((x : ℕ) → x < lo + count → p x ≡ true)
    → every p lo count ≡ true
unfolding every
every_complete p zero lo h = refl
every_complete p (suc count) lo h =
    rw (h lo (omega arith)) (every_complete p count (lo + 1) (λ x below. h x (omega arith)))

-- A byte is 0xff just when its eight bits are set.
full_law : ℕ → Bool
full_law w = bool_eq (w == 255) (every (bit_set w) 0 8)

full_law_table : every full_law 0 256 ≡ true
unfolding every full_law bit_set
full_law_table = refl

pub bit_set_full : (w j : ℕ) → w ≡ 255 → j < 8 → bit_set w j ≡ true
bit_set_full w j e h = rw e (every_sound (bit_set 255) 8 0 j bit_255 (omega arith) h)

pub full_of_bits : (w : ℕ) → w < 256 → ((j : ℕ) → j < 8 → bit_set w j ≡ true) → w ≡ 255
unfolding full_law
full_of_bits w hw h = ground (
  arith,
  every_sound full_law 256 0 w full_law_table (omega arith) hw,
  every_complete (bit_set w) 8 0 h,
)

pub bit_set_zero : (j : ℕ) → bit_set 0 j ≡ false
unfolding bit_set
bit_set_zero j = rw (bit_and-bitwise 0 (2 ^ j))
