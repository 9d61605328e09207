-- ===== src/Vm/Space/Image.antt =====
-- The three moves of `as_copy`, byte by byte.
use ops_class.Base.{ℕ, ◌+◌, ◌≤◌, ◌<◌, ◌≡◌, false, ◌&&◌, ltb, leb, arith}
use ops_class.Libc.Memory.{Mem}
use ops_class.Libc.Memory.Copy.{Moved}
use ops_class.Libc.Memory.Fill.{Filled}

-- The `n` bytes at `d` are those that stood at `s`.
abbrev pub SameBytes : Mem → Mem → ℕ → ℕ → ℕ → Type 0
SameBytes mem0 mem d s n = (i : ℕ) → i < n → mem (d + i) ≡ mem0 (s + i)

module _ (m0 m1 m2 m3 m4 : Mem) (d s1 s2 s3 n1 n2 n3 : ℕ) (zeroed : Filled m0 d 0 (n1 + n2 + n3) m1)
    (move1 : Moved m1 d s1 0 n1 m2) (move2 : Moved m2 (d + n1) s2 0 n2 m3)
    (move3 : Moved m3 (d + n1 + n2) s3 0 n3 m4) (below1 : s1 + n1 ≤ d) (below2 : s2 + n2 ≤ d)
    (below3 : s3 + n3 ≤ d) where
  pub copy_first : SameBytes m0 m4 d s1 n1
  copy_first i h = ground (arith, move3 (d + i), move2 (d + i), move1 (d + i), zeroed (s1 + i))

  pub copy_second : SameBytes m0 m4 (d + n1) s2 n2
  copy_second i h =
      ground (arith, move3 (d + n1 + i), move2 (d + n1 + i), move1 (s2 + i), zeroed (s2 + i))

  pub copy_third : SameBytes m0 m4 (d + n1 + n2) s3 n3
  copy_third i h =
      ground (arith, move3 (d + n1 + n2 + i), move2 (s3 + i), move1 (s3 + i), zeroed (s3 + i))

  pub copy_rest : (a : ℕ) → (leb d a && ltb a (d + (n1 + n2 + n3))) ≡ false → m4 a ≡ m0 a
  copy_rest a out = ground (arith, out, move3 a, move2 a, move1 a, zeroed a)
