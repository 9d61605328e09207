-- ===== src/Klib/Array/Grow.antt =====
-- The loop of array_preallocate that doubles the size.
use ops_class.Base.{
  ℕ, zero, suc, ◌*◌, ◌%◌, ◌^◌, ◌≤◌, ◌<◌, ◌≡◌, refl, inl, inr, Option, some, ltb, le→ltb, ltb→lt,
  ltb→le, arith, Bool-cases, ne→==,
}
use ops_class.Klib.Array.{grow}

-- `x` doubled `n` times.
double : ℕ → ℕ → ℕ
double zero x = x
double (suc n) x = double n (x * 2)

double_mono : (n x y : ℕ) → x ≤ y → double n x ≤ double n y
unfolding double
double_mono zero x y h = h
double_mono (suc n) x y h = double_mono n (x * 2) (y * 2) (omega arith)

-- A size that is enough, and that kmalloc can be asked for.
abbrev pub Enough : ℕ → Option ℕ → Type 0
Enough num r = (m : ℕ) × (r ≡ some m) × (num ≤ m) × (m < 2 ^ 30)

grow_positive :
    (rounds num newmax : ℕ)
    → 0 < newmax
    → newmax < 2 ^ 30
    → num ≤ double rounds newmax
    → num ≤ 2 ^ 29
    → Enough num (grow rounds num newmax)
unfolding grow double
grow_positive zero num newmax pos high reach small =
    rw (le→ltb newmax num reach) (newmax, refl, reach, high)
grow_positive (suc rounds) num newmax pos high reach small = elim (Bool-cases (ltb newmax num)) [
  | inl less ↦
      let lt = ltb→lt newmax num less in
      let wrap : newmax * 2 % 2 ^ 32 ≡ newmax * 2 = omega arith in
      rw (less, ne→== newmax 0 (λ z. omega arith), wrap)
        (grow_positive rounds num (newmax * 2) (omega arith) (omega arith) reach small)
  | inr enough ↦ rw enough (newmax, refl, ltb→le newmax num enough, high)
]

grow_zero :
    (rounds num : ℕ) → num ≤ double rounds 4 → num ≤ 2 ^ 29 → Enough num (grow (suc rounds) num 0)
unfolding grow
grow_zero rounds num reach small = elim (Bool-cases (ltb 0 num)) [
  | inl less ↦ rw less (grow_positive rounds num 4 (omega arith) (omega arith) reach small)
  | inr enough ↦ rw enough (0, refl, ltb→le 0 num enough, omega arith)
]

-- From any size below 2^30 the loop of array_preallocate finds, within 40 rounds and without
-- overflow, a size that is enough for up to 2^29 slots.
pub grow-Enough :
    (num newmax : ℕ) → newmax < 2 ^ 30 → num ≤ 2 ^ 29 → Enough num (grow 40 num newmax)
unfolding double
grow-Enough num zero high small = grow_zero 39 num (omega (arith, four_doubled)) small
  where
    four_doubled : double 39 4 ≡ 2 ^ 41
    four_doubled = refl
grow-Enough num (suc n) high small =
    grow_positive 40 num (suc n) (omega arith) high
      (omega (arith, one_doubled, double_mono 40 1 (suc n) (omega arith))) small
  where
    one_doubled : double 40 1 ≡ 2 ^ 40
    one_doubled = refl
