-- ===== src/Libc/Strings/Search.antt =====
-- strchr and strrchr.
use ops_class.Base.{
  ℕ, zero, suc, ◌+◌, ◌%◌, ◌≤◌, ◌<◌, ◌≡◌, ◌≢◌, refl, sym, inl, inr, Option, none, some, ◌==◌, arith,
  Bool-cases, subst, ==→eq, ==→ne,
}
use ops_class.Libc.Memory.{Mem}
use ops_class.Libc.Strings.{Pointer, strchr_loop, strchr, strrchr_loop, search_back, strrchr}
use ops_class.Libc.Strings.Length.{IsString, strlen_lem}

-- `ch` is not among the `k` bytes at `s`.
abbrev pub Absent : Mem → ℕ → ℕ → ℕ → Type 0
Absent mem s ch k = (j : ℕ) → j < k → mem (s + j) ≢ ch

-- The first place of `ch` in the string at `s`, its terminator counted in, if there is one.
abbrev pub First : Mem → ℕ → ℕ → ℕ → Option Pointer → Type 0
First mem s n ch none = ⊥
First mem s n ch (some none) = Absent mem s ch (n + 1)
First mem s n ch (some (some p)) =
    (k : ℕ) × (k ≤ n) × (p ≡ s + k) × (mem p ≡ ch) × Absent mem s ch k

strchr_loop-First :
    (rounds i s n ch : ℕ) (mem : Mem)
    → IsString mem s n
    → i ≤ n
    → n < i + rounds
    → Absent mem s ch i
    → First mem s n ch (strchr_loop rounds (s + i) ch mem)
unfolding strchr_loop
strchr_loop-First zero i s n ch mem str low high absent = absurd (omega arith)
strchr_loop-First (suc rounds) i s n ch mem str low high absent =
    elim (Bool-cases (mem (s + i) == ch)) [
      | inl found ↦ elim (Bool-cases (mem (s + i) == 0)) [
        | inl stop ↦ rw (stop, found) (i, low, refl, ==→eq (mem (s + i)) ch found, absent)
        | inr more ↦ rw (more, found) (i, low, refl, ==→eq (mem (s + i)) ch found, absent)
      ]
      | inr other ↦
          let ne = ==→ne (mem (s + i)) ch other in
          let absent' : Absent mem s ch (i + 1) = λ j h. grind (arith, absent j, ne) in
          elim (Bool-cases (mem (s + i) == 0)) [
            | inl stop ↦
                let z = ==→eq (mem (s + i)) 0 stop in
                let e : i ≡ n = grind (arith, str.chars i, z) in
                rw (stop, other) (subst (λ k. Absent mem s ch (k + 1)) e absent')
            | inr more ↦
                let z = ==→ne (mem (s + i)) 0 more in
                let e : i ≢ n = λ h. z (subst (λ k. mem (s + k) ≡ 0) (sym h) str.terminator) in
                rw (more, other)
                  (subst (λ a. First mem s n ch (strchr_loop rounds a ch mem)) (omega arith)
                    (strchr_loop-First rounds (i + 1) s n ch mem str (omega arith) (omega arith)
                      absent'))
          ]
    ]

-- strchr of a string, given more rounds than it is long, points at the first place of the
-- character, which may be the terminator, or is NULL exactly if there is none.
pub strchr-First :
    (rounds s n ch_arg : ℕ) (mem : Mem)
    → IsString mem s n
    → n < rounds
    → First mem s n (ch_arg % 256) (strchr rounds s ch_arg mem)
unfolding strchr
strchr-First rounds s n ch_arg mem str h =
    subst (λ a. First mem s n (ch_arg % 256) (strchr_loop rounds a (ch_arg % 256) mem))
      (omega arith)
      (strchr_loop-First rounds 0 s n (ch_arg % 256) mem str (omega arith) (omega arith)
        (λ j below. absurd (omega arith)))

-- The last place of `ch` among the `m` bytes at `s`, if there is one.
abbrev pub Last : Mem → ℕ → ℕ → ℕ → Pointer → Type 0
Last mem s m ch none = Absent mem s ch m
Last mem s m ch (some p) =
    (k : ℕ) × (k < m) × (p ≡ s + k) × (mem p ≡ ch) × ((j : ℕ) → k < j → j < m → mem (s + j) ≢ ch)

strrchr_loop-Last : (m s ch : ℕ) (mem : Mem) → Last mem s m ch (strrchr_loop m s ch mem)
unfolding strrchr_loop
strrchr_loop-Last zero s ch mem = λ j below. absurd (omega arith)
strrchr_loop-Last (suc m) s ch mem = elim (Bool-cases (mem (s + m) == ch)) [
  | inl found ↦
      rw found
        (m, omega arith, refl, ==→eq (mem (s + m)) ch found, λ j above below. absurd (omega arith))
  | inr other ↦ rw other (
      longer (strrchr_loop m s ch mem) (==→ne (mem (s + m)) ch other)
        (strrchr_loop-Last m s ch mem))
]
  where
    longer : (p : Pointer) → mem (s + m) ≢ ch → Last mem s m ch p → Last mem s (suc m) ch p
    longer none ne absent = λ j below. grind (arith, ne, absent j)
    longer (some p) ne (k, h, at, is, later) =
        (k, omega arith, at, is, λ j above below. grind (arith, ne, later j))

-- strrchr of a string, given more rounds than it is long, points at the last place of the
-- character, which may be the terminator, or is NULL exactly if there is none.
pub strrchr-Last :
    (rounds s n ch_arg : ℕ) (mem : Mem)
    → IsString mem s n
    → n < rounds
    → (p : Pointer) × (strrchr rounds s ch_arg mem ≡ some p) × Last mem s (n + 1) (ch_arg % 256) p
unfolding strrchr search_back
strrchr-Last rounds s n ch_arg mem str h = rw (strlen_lem rounds s n mem str h) (
  strrchr_loop (n + 1) s (ch_arg % 256) mem,
  refl,
  strrchr_loop-Last (n + 1) s (ch_arg % 256) mem,
)
