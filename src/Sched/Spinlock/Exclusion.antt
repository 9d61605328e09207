-- ===== src/Sched/Spinlock/Exclusion.antt =====
-- At most one processor has the spinlock, and interrupts are off just while one must not be
-- interrupted, whatever order the processors run in.
use ops_class.Base.{
  ℕ, ◌+◌, ◌-◌, ◌≤◌, ◌≡◌, ◌≢◌, refl, sym, ◌∙◌, ap, subst, true, false, ◌==◌, none, some, eq→==,
  ne→==, ==→eq, arith, inl, inr, Bool-cases,
}
use ops_class.Base.Run.{done, Checked, value}
use ops_class.Sched.Spl.{Level, splx}
use ops_class.Sched.Spinlock.{
  Place, outside, looking, trying, owning, inside, leaving, System, put_cpu, held_by, init, advance,
  do_i_hold,
}
use ops_class.Sched.Spinlock.Consistent.{
  has, raised, counted, is_inside, IsLevel, IsConsistent, Step, moves, sets_level, Reaches, here,
  next, raise-IsLevel, lower-IsLevel, Levelled, splx-IsLevel,
}
use ops_class.Sched.Spinlock.Update.{IsConsistent-same, IsConsistent-taken, IsConsistent-freed}

module _ (s : System) (con : IsConsistent s) (i : ℕ) where
  abbrev Advances : Type 0
  Advances = (s' : System) × (advance s i ≡ value s') × IsConsistent s'

  module _ (p : Place) (e : (s.cpu i).place ≡ p) where
    level_at : IsLevel (raised p) (s.cpu i).level
    level_at = subst (λ q. IsLevel (raised q) (s.cpu i).level) e (con.cpus i).level

    spinlocks_at : (s.cpu i).spinlocks ≡ counted p
    spinlocks_at = (con.cpus i).spinlocks ∙ ap counted e

    holds_at : held_by s.holder i ≡ is_inside p
    holds_at = (con.cpus i).holds ∙ ap is_inside e

    -- If this processor has the lock, no other is the holder.
    not_held : has p ≡ true → (j : ℕ) → i ≢ j → held_by s.holder j ≡ false
    not_held h j ne = (con.cpus j).holds ∙ go (s.cpu j).place refl
      where
        go : (q : Place) → (s.cpu j).place ≡ q → is_inside q ≡ false
        go outside e' = refl
        go looking e' = refl
        go trying e' = refl
        go owning e' = refl
        go inside e' = absurd (ne (con.unique i j (ap has e ∙ h) (ap has e')))
        go leaving e' = refl

  -- In a consistent state no panic and no failed assertion is met, and the next state is consistent.
  advance-IsConsistent : Advances
  unfolding advance
  advance-IsConsistent = go (s.cpu i).place refl
    where
      go : (p : Place) → (s.cpu i).place ≡ p → Advances
      go outside e =
          let (l, run, il) = raise-IsLevel (s.cpu i).level (level_at outside e) in
          (
            _,
            rw (e, holds_at outside e, run) refl,
            IsConsistent-same s con i
                (record { place = looking; level = l; spinlocks = (s.cpu i).spinlocks + 1 })
                s.holder s.word
                (record {
                  level = il;
                  spinlocks = omega (arith, spinlocks_at outside e);
                  holds = holds_at outside e;
                })
                (λ j ne. refl) refl (sym (ap has e)),
          )
      go looking e = elim (Bool-cases (s.word == 0)) [
        | inl free ↦ (
          _,
          rw (e, free) refl,
          IsConsistent-same s con i (record (s.cpu i) { place = trying }) s.holder s.word
              (record {
                level = level_at looking e;
                spinlocks = spinlocks_at looking e;
                holds = holds_at looking e;
              })
              (λ j ne. refl) refl (sym (ap has e)),
        )
        | inr busy ↦ (
          _,
          rw (e, busy) refl,
          IsConsistent-same s con i (record (s.cpu i) { place = looking }) s.holder s.word
              (record {
                level = level_at looking e;
                spinlocks = spinlocks_at looking e;
                holds = holds_at looking e;
              })
              (λ j ne. refl) refl (sym (ap has e)),
        )
      ]
      go trying e = elim (Bool-cases (s.word == 0)) [
        | inl free ↦ (
          _,
          rw (e, free) refl,
          IsConsistent-taken s con i (record (s.cpu i) { place = owning }) s.holder 1
              (record {
                level = level_at trying e;
                spinlocks = spinlocks_at trying e;
                holds = holds_at trying e;
              })
              (λ j ne. refl) (==→eq s.word 0 free) refl refl,
        )
        | inr busy ↦ (
          _,
          rw (e, busy) refl,
          IsConsistent-same s con i (record (s.cpu i) { place = looking }) s.holder 1
              (record {
                level = level_at trying e;
                spinlocks = spinlocks_at trying e;
                holds = holds_at trying e;
              })
              (λ j ne. refl) (ground (arith, con.bit, busy)) (sym (ap has e)),
        )
      ]
      go owning e = (
        _,
        rw e refl,
        IsConsistent-same s con i (record (s.cpu i) { place = inside }) (some i) s.word
            (record {
              level = level_at owning e;
              spinlocks = spinlocks_at owning e;
              holds = eq→== i i refl;
            })
            (λ j ne. ne→== i j ne ∙ sym (not_held owning e refl j ne)) refl (sym (ap has e)),
      )
      go inside e = (
        _,
        rw (e, holds_at inside e, spinlocks_at inside e) refl,
        IsConsistent-same s con i
            (record (s.cpu i) { place = leaving; spinlocks = (s.cpu i).spinlocks - 1 }) none s.word
            (record {
              level = level_at inside e;
              spinlocks = omega (arith, spinlocks_at inside e);
              holds = refl;
            })
            (λ j ne. sym (not_held inside e refl j ne)) refl (sym (ap has e)),
      )
      go leaving e =
          let (l, run, il) = lower-IsLevel (s.cpu i).level (level_at leaving e) in
          (
            _,
            rw (e, run) refl,
            IsConsistent-freed s con i (record (s.cpu i) { place = outside; level = l }) s.holder 0
                (record {
                  level = il;
                  spinlocks = spinlocks_at leaving e;
                  holds = holds_at leaving e;
                })
                (λ j ne. refl) (ap has e) refl refl,
          )

  -- A change of the level keeps the state consistent as well.
  set-IsConsistent :
      (spl old : ℕ) (l : Level)
      → spl ≤ 1
      → splx true spl (s.cpu i).level ≡ done old l
      → IsConsistent (put_cpu s i (record (s.cpu i) { level = l }))
  set-IsConsistent spl old l v e =
      IsConsistent-same s con i (record (s.cpu i) { level = l }) s.holder s.word
        (record {
          level = subst (Levelled (raised (s.cpu i).place)) e (
              splx-IsLevel (raised (s.cpu i).place) spl (s.cpu i).level (small (s.cpu i).place)
                (con.cpus i).level v);
          spinlocks = (con.cpus i).spinlocks;
          holds = (con.cpus i).holds;
        })
        (λ j ne. refl) refl refl
    where
      small : (p : Place) → raised p ≤ 1
      small outside = omega arith
      small looking = omega arith
      small trying = omega arith
      small owning = omega arith
      small inside = omega arith
      small leaving = omega arith

Step-IsConsistent : {s s' : System} → Step s s' → IsConsistent s → IsConsistent s'
Step-IsConsistent (moves {s' = s'} i e) con =
    let (t, e', ok) = advance-IsConsistent _ con i in subst IsConsistent (same e' e) ok
  where
    same : {r : Checked System} {a b : System} → r ≡ value a → r ≡ value b → a ≡ b
    same p q = cc
Step-IsConsistent (sets_level i spl old l v where_ e) con = set-IsConsistent _ con i spl old l v e

Reaches-IsConsistent : {s s' : System} → IsConsistent s → Reaches s s' → IsConsistent s'
Reaches-IsConsistent con here = con
Reaches-IsConsistent con (next r st) = Step-IsConsistent st (Reaches-IsConsistent con r)

-- Whatever order the processors take their steps and change their levels in: two of them never have
-- the lock together, no assertion of spinlock.c or spl.c fails and no deadlock is reported, a
-- processor is taken for the holder just while it has the lock, and its interrupts are on just if it
-- is in no call on the lock, does not hold it, and has not raised its level itself.
pub spinlock_exclusion :
    {s s' : System}
    → IsConsistent s
    → Reaches s s'
    → ((i j : ℕ) → has (s'.cpu i).place ≡ true → has (s'.cpu j).place ≡ true → i ≡ j)
      × ((i : ℕ) → (t : System) × (advance s' i ≡ value t))
      × ((i : ℕ) → do_i_hold s' i ≡ is_inside (s'.cpu i).place)
      × ((i : ℕ)
          → (s'.cpu i).level.irqon ≡ (raised (s'.cpu i).place + (s'.cpu i).level.curspl == 0))
unfolding do_i_hold
spinlock_exclusion {s' = s'} con r =
    let ok = Reaches-IsConsistent con r in
    (
      ok.unique,
      λ i. let (t, e, ok') = advance-IsConsistent s' ok i in (t, e),
      λ i. (ok.cpus i).holds,
      λ i. (ok.cpus i).level.irq,
    )

-- `spinlock_init`, with the processors in no call and at level 0.
pub init-IsConsistent : IsConsistent (
    init (λ i. record {
      place = outside;
      level = record { iplhigh_count = 0; curspl = 0; irqon = true };
      spinlocks = 0;
    }))
init-IsConsistent = record {
  cpus = λ i. record {
    level = record { valid = omega arith; count = refl; irq = refl };
    spinlocks = refl;
    holds = refl;
  };
  bit = omega arith;
  free = λ z i. refl;
  taken = λ nz. absurd (nz refl);
  unique = λ i j hi hj. absurd (cc);
}
