-- ===== src/Sched/Spinlock/Update.antt =====
-- One processor has moved: when the others still agree with it.
use ops_class.Base.{
  ℕ, ◌≡◌, ◌≢◌, refl, sym, ◌∙◌, ap, subst, true, false, ◌==◌, if◌then◌else◌, Option, ℕ_discrete,
  eq→==, ne→==, arith, inl, inr, Bool-cases,
}
use ops_class.Sched.Spinlock.{Cpu, System, held_by}
use ops_class.Sched.Spinlock.Consistent.{has, IsCpu, IsConsistent}

-- The processors after `i` has become `c`.
module _ (s : System) (con : IsConsistent s) (i : ℕ) (c : Cpu) (holder : Option ℕ) (word : ℕ)
    (ok : IsCpu holder i c) (others : (j : ℕ) → i ≢ j → held_by holder j ≡ held_by s.holder j) where
  abbrev pub after : System
  after = record { word = word; holder = holder; cpu = λ j. if i == j then c else s.cpu j }

  at_i : after.cpu i ≡ c
  at_i = rw (eq→== i i refl) refl

  at_other : (j : ℕ) → i ≢ j → after.cpu j ≡ s.cpu j
  at_other j ne = rw (ne→== i j ne) refl

  cpus_after : (j : ℕ) → IsCpu holder j (after.cpu j)
  cpus_after j = elim (ℕ_discrete i j) [
    | yes e ↦ subst (λ k. IsCpu holder k (after.cpu k)) e (subst (IsCpu holder i) (sym at_i) ok)
    | no ne ↦
        let old = con.cpus j in
        subst (IsCpu holder j) (sym (at_other j ne))
          (record { level = old.level; spinlocks = old.spinlocks; holds = others j ne ∙ old.holds })
  ]

  has_at : (j : ℕ) → i ≢ j → has (after.cpu j).place ≡ has (s.cpu j).place
  has_at j ne = ap (λ d. has d.place) (at_other j ne)

  has_i : has (after.cpu i).place ≡ has c.place
  has_i = ap (λ d. has d.place) at_i

  -- The lock word stays as it is, and so does who has it.
  pub IsConsistent-same : word ≡ s.word → has c.place ≡ has (s.cpu i).place → IsConsistent after
  IsConsistent-same e same = record {
    bit = omega (arith, con.bit);
    cpus = cpus_after;
    free = λ z j. has_same j ∙ con.free (sym e ∙ z) j;
    taken = λ nz. let (j, h) = con.taken (λ z. nz (e ∙ z)) in (j, has_same j ∙ h);
    unique = λ j k hj hk. con.unique j k (sym (has_same j) ∙ hj) (sym (has_same k) ∙ hk);
  }
    where
      has_same : (j : ℕ) → has (after.cpu j).place ≡ has (s.cpu j).place
      has_same j = elim (ℕ_discrete i j) [
        | yes q ↦ subst (λ k. has (after.cpu k).place ≡ has (s.cpu k).place) q (has_i ∙ same)
        | no ne ↦ has_at j ne
      ]

  -- Processor `i` takes the lock that was free.
  pub IsConsistent-taken : s.word ≡ 0 → word ≡ 1 → has c.place ≡ true → IsConsistent after
  IsConsistent-taken z one h = record {
    bit = omega arith;
    cpus = cpus_after;
    free = λ z'. absurd (omega arith);
    taken = λ _. (i, has_i ∙ h);
    unique = λ j k hj hk. sym (only j hj) ∙ only k hk;
  }
    where
      only : (j : ℕ) → has (after.cpu j).place ≡ true → i ≡ j
      only j hj = elim (ℕ_discrete i j) [
        | yes e ↦ e
        | no ne ↦ absurd (cc (con.free z j, has_at j ne, hj))
      ]

  -- Processor `i`, which had it, gives it back.
  pub IsConsistent-freed :
      has (s.cpu i).place ≡ true → word ≡ 0 → has c.place ≡ false → IsConsistent after
  IsConsistent-freed had z h = record {
    bit = omega arith;
    cpus = cpus_after;
    free = λ _ j. none_has j;
    taken = λ nz. absurd (nz z);
    unique = λ j k hj hk. absurd (cc (none_has j, hj));
  }
    where
      none_has : (j : ℕ) → has (after.cpu j).place ≡ false
      none_has j = elim (ℕ_discrete i j) [
        | yes e ↦ subst (λ k. has (after.cpu k).place ≡ false) e (has_i ∙ h)
        | no ne ↦ elim (Bool-cases (has (s.cpu j).place)) [
          | inl yes_ ↦ absurd (ne (con.unique i j had yes_))
          | inr no_ ↦ has_at j ne ∙ no_
        ]
      ]
