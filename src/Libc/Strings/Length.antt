-- ===== src/Libc/Strings/Length.antt =====
-- Strings in memory, and what strlen and strcmp say of them.
use ops_class.Base.{
  ℕ, zero, suc, ◌+◌, ◌≤◌, ◌<◌, ◌≡◌, ◌≢◌, refl, sym, ◌∙◌, inl, inr, false, ◌&&◌, not, Option, none,
  some, ltb, ltb→lt, ◌==◌, arith, Bool-cases, subst, ==→eq, ==→ne,
}
use ops_class.Libc.Memory.{Mem}
use ops_class.Libc.Strings.{
  strlen_loop, strlen, strcmp_loop, strcmp, Order, greater, equal, less, order_of,
}

-- At `str` stand `n` characters and the terminator.
pub record IsString (mem : Mem) (str n : ℕ) : Type 0 where
  pub chars : (i : ℕ) → i < n → mem (str + i) ≢ 0
  pub terminator : mem (str + n) ≡ 0

strlen_loop_lem :
    (rounds ret str n : ℕ) (mem : Mem)
    → IsString mem str n
    → ret ≤ n
    → n < ret + rounds
    → strlen_loop rounds ret str mem ≡ some n
unfolding strlen_loop
strlen_loop_lem zero ret str n mem s low high = absurd (omega arith)
strlen_loop_lem (suc rounds) ret str n mem s low high = elim (Bool-cases (mem (str + ret) == 0)) [
  | inl stop ↦
      let z = ==→eq (mem (str + ret)) 0 stop in
      let e : ret ≡ n = grind (arith, s.chars ret, z) in rw (stop, e) refl
  | inr more ↦
      let z = ==→ne (mem (str + ret)) 0 more in
      let e : ret ≢ n = λ h. z (subst (λ k. mem (str + k) ≡ 0) (sym h) s.terminator) in
      rw more (strlen_loop_lem rounds (ret + 1) str n mem s (omega arith) (omega arith))
]

-- strlen of a string is its length, given more rounds than that.
pub strlen_lem :
    (rounds str n : ℕ) (mem : Mem)
    → IsString mem str n
    → n < rounds
    → strlen rounds str mem ≡ some n
unfolding strlen
strlen_lem rounds str n mem s h = strlen_loop_lem rounds 0 str n mem s (omega arith) (omega arith)

-- The first `k` characters of the two are the same, and none ends.
abbrev pub SameUpTo : Mem → ℕ → ℕ → ℕ → Type 0
SameUpTo mem a b k = (j : ℕ) → j < k → (mem (a + j) ≡ mem (b + j)) × (mem (a + j) ≢ 0)

-- The order of the strings at `a` and `b`, by the first character that differs.
abbrev pub Compared : Mem → ℕ → ℕ → Option Order → Type 0
Compared mem a b none = ⊥
Compared mem a b (some equal) = (n : ℕ) × SameUpTo mem a b n × (mem (a + n) ≡ 0) × (mem (b + n) ≡ 0)
Compared mem a b (some greater) = (k : ℕ) × SameUpTo mem a b k × (mem (b + k) < mem (a + k))
Compared mem a b (some less) = (k : ℕ) × SameUpTo mem a b k × (mem (a + k) < mem (b + k))

order_of-Compared :
    (i a b : ℕ) (mem : Mem)
    → SameUpTo mem a b i
    → (not (mem (a + i) == 0) && mem (a + i) == mem (b + i)) ≡ false
    → Compared mem a b (some (order_of (mem (a + i)) (mem (b + i))))
order_of-Compared i a b mem same off = elim (Bool-cases (ltb (mem (b + i)) (mem (a + i)))) [
  | inl more ↦ rw more (i, same, ltb→lt (mem (b + i)) (mem (a + i)) more)
  | inr no_more ↦ rw no_more (elim (Bool-cases (mem (a + i) == mem (b + i))) [
    | inl alike ↦
        let z : mem (a + i) ≡ 0 = ground (arith, off, alike) in
        rw alike (i, same, z, sym (==→eq (mem (a + i)) (mem (b + i)) alike) ∙ z)
    | inr unlike ↦ rw unlike (i, same, ground (arith, no_more, unlike))
  ])
]

strcmp_loop-Compared :
    (rounds i a b n : ℕ) (mem : Mem)
    → IsString mem a n
    → i ≤ n
    → n < i + rounds
    → SameUpTo mem a b i
    → Compared mem a b (strcmp_loop rounds i a b mem)
unfolding strcmp_loop
strcmp_loop-Compared zero i a b n mem s low high same = absurd (omega arith)
strcmp_loop-Compared (suc rounds) i a b n mem s low high same =
    elim (Bool-cases (not (mem (a + i) == 0) && mem (a + i) == mem (b + i))) [
      | inl on ↦
          let eq_ : mem (a + i) ≡ mem (b + i) = ground (arith, on) in
          let ne : mem (a + i) ≢ 0 = ground (arith, on) in
          let e : i ≢ n = λ h. ne (subst (λ k. mem (a + k) ≡ 0) (sym h) s.terminator) in
          rw on (
            strcmp_loop-Compared rounds (i + 1) a b n mem s (omega arith) (omega arith)
              (λ j h. grind (arith, same j, eq_, ne)))
      | inr off ↦ rw off (order_of-Compared i a b mem same off)
    ]

-- strcmp of a string with any other memory, given more rounds than the string is long, gives the
-- order of the first characters that differ, as unsigned bytes, or equality where both end.
pub strcmp-Compared :
    (rounds a b n : ℕ) (mem : Mem)
    → IsString mem a n
    → n < rounds
    → Compared mem a b (strcmp rounds a b mem)
unfolding strcmp
strcmp-Compared rounds a b n mem s h =
    strcmp_loop-Compared rounds 0 a b n mem s (omega arith) (omega arith)
      (λ j below. absurd (omega arith))
