-- ===== src/Vm/Kmalloc/Sizes.antt =====
-- The block sizes, and the places of the blocks on a page.
use ops_class.Base.{
  ℕ, zero, suc, ◌+◌, ◌*◌, ◌/◌, ◌%◌, ◌≤◌, ◌<◌, ◌≡◌, ◌≢◌, ◌⊎◌, inl, inr, refl, arith, dec_lt, leb,
  Bool-cases, Bool, ◌&&◌, ◌==◌, true,
}
use native.Mathlib.Nat.{mul-mod_left}
use ops_class.Base.Run.{value}
use ops_class.Vm.Kmalloc.{sizes, type_from, blocktype}

abbrev pub blocks : ℕ → ℕ
blocks b = 4096 / sizes b

-- The blocks of a size filled a page.
pub record IsSize (b : ℕ) : Type 0 where
  pub least : 16 ≤ sizes b
  pub most : sizes b ≤ 2048
  pub filled : blocks b * sizes b ≡ 4096
  pub some_blocks : 2 ≤ blocks b
  pub few_blocks : blocks b ≤ 256
  pub by_words : sizes b / 4 * 4 ≡ sizes b

abbrev fits : ℕ → Bool
fits z =
    leb 16 z
    && (leb z 2048
        && ((4096 / z * z == 4096)
            && (leb 2 (4096 / z) && (leb (4096 / z) 256 && (z / 4 * 4 == z)))))

all_fit : (b : ℕ) → b < 8 → fits (sizes b) ≡ true
unfolding sizes
all_fit zero h = refl
all_fit (suc zero) h = refl
all_fit (suc (suc zero)) h = refl
all_fit (suc (suc (suc zero))) h = refl
all_fit (suc (suc (suc (suc zero)))) h = refl
all_fit (suc (suc (suc (suc (suc zero))))) h = refl
all_fit (suc (suc (suc (suc (suc (suc zero)))))) h = refl
all_fit (suc (suc (suc (suc (suc (suc (suc zero))))))) h = refl
all_fit (suc (suc (suc (suc (suc (suc (suc (suc b)))))))) h = absurd (omega arith)

fits-IsSize : (b : ℕ) → fits (sizes b) ≡ true → IsSize b
fits-IsSize b e = record {
  least = ground (arith, e);
  most = ground (arith, e);
  filled = ground (arith, e);
  some_blocks = ground (arith, e);
  few_blocks = ground (arith, e);
  by_words = ground (arith, e);
}

pub size_lem : (b : ℕ) → b < 8 → IsSize b
size_lem b h = fits-IsSize b (all_fit b h)

mul_mono : (a b z : ℕ) → a ≤ b → a * z ≤ b * z
mul_mono zero b z h = omega arith
mul_mono (suc a) zero z h = absurd (omega arith)
mul_mono (suc a) (suc b) z h = omega (arith, mul_mono a b z (omega arith))

pub block_before : (i j z : ℕ) → i < j → i * z + z ≤ j * z
block_before i j z h = omega (arith, mul_mono (i + 1) j z (omega arith))

pub block_end : (b j : ℕ) → IsSize b → j < blocks b → j * sizes b + sizes b ≤ 4096
block_end b j is h = omega (arith, is.filled, block_before j (blocks b) (sizes b) h)

-- Two blocks of a page do not overlap.
pub block_apart : (i j z : ℕ) → i ≢ j → (i * z + z ≤ j * z) ⊎ (j * z + z ≤ i * z)
block_apart i j z ne = elim (dec_lt i j) [
  | yes p ↦ inl (block_before i j z p)
  | no p ↦ inr (block_before j i z (omega arith))
]

pub mul_mod : (j z : ℕ) → j * z % z ≡ 0
mul_mod j z = mul-mod_left j z

le_leb : (a b : ℕ) → a ≤ b → leb a b ≡ true
le_leb a b h = ground arith

-- The largest size is big enough.
type_from_lem :
    (sz i n : ℕ)
    → i + n ≡ 7
    → sz ≤ 2048
    → (b : ℕ) × (type_from sz i (suc n) ≡ value b) × (b < 8) × (sz ≤ sizes b)
unfolding type_from sizes
type_from_lem sz i zero e h =
    let last : i ≡ 7 = omega arith in (i, rw (last, le_leb sz 2048 h) refl, omega arith, rw last h)
type_from_lem sz i (suc n) e h = elim (Bool-cases (leb sz (sizes i))) [
  | inl fit ↦ (i, rw fit refl, omega arith, ground (arith, fit))
  | inr large ↦
      let (b, run, small, fit) = type_from_lem sz (i + 1) n (omega arith) h in
      (b, rw large run, small, fit)
]

pub blocktype_lem :
    (sz : ℕ) → sz ≤ 2048 → (b : ℕ) × (blocktype sz ≡ value b) × (b < 8) × (sz ≤ sizes b)
unfolding blocktype
blocktype_lem sz h = type_from_lem sz 0 7 refl h
