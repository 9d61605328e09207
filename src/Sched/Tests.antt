-- ===== src/Sched/Tests.antt =====
-- The theorems of kern/thread on small lists.
use ops_class.Base.{ℕ, ◌≡◌, refl, [], ◌∷◌, inl, inr, arith, none}
use ops_class.Base.{true, false, ◌==◌, ◌+◌}
use ops_class.Base.Run.{value}
use ops_class.Sched.Spl.{splraise}
use ops_class.Sched.Spinlock
use ops_class.Sched.Spinlock.{System, Cpu, outside, advance, do_i_hold}
use ops_class.Sched.Spinlock.Consistent.{Reaches, here, next, moves, has, raised, is_inside}
use ops_class.Sched.Spinlock.Exclusion.{spinlock_exclusion, init-IsConsistent}
use ops_class.Sched.Threadlist.{Threads, init}
use ops_class.Sched.Threadlist.Chain.{In}
use ops_class.Sched.Threadlist.Deque.{add_tail, insert_before, Implements, spec_list}
use ops_class.Sched.Threadlist.Laws.{perform-Implements, init-IsList}

abbrev blank : Threads
blank = record { next = λ i. none; prev = λ i. none; count = 0 }

-- The list of the threads 5 and 6.
abbrev one : Implements (add_tail 5) (init blank) []
one = perform-Implements (init blank) (add_tail 5) [] (init-IsList blank) (λ h. h, omega arith)

not_five : In 6 (5 ∷ []) → ⊥
not_five (inl e) = omega arith
not_five (inr z) = z

abbrev two : Implements (add_tail 6) (one.0) (5 ∷ [])
unfolding spec_list
two = perform-Implements (one.0) (add_tail 6) (5 ∷ []) (one.2) (not_five, omega arith)

not_there : In 7 (5 ∷ 6 ∷ []) → ⊥
not_there (inl e) = omega arith
not_there (inr (inl e)) = omega arith
not_there (inr (inr z)) = z

perform-Implements_example : Implements (insert_before 7 6) (two.0) (5 ∷ 6 ∷ [])
unfolding spec_list
perform-Implements_example =
    perform-Implements (two.0) (insert_before 7 6) (5 ∷ 6 ∷ []) (two.2)
      (inr (inl refl), not_there, omega arith)

abbrev idle : System
idle = Spinlock.init (λ i. record {
  place = outside;
  level = record { iplhigh_count = 0; curspl = 0; irqon = true };
  spinlocks = 0;
})

-- Processor 0 has begun to acquire the lock.
abbrev begun : System
begun = Spinlock.put_cpu idle 0 (record {
  place = Spinlock.looking;
  level = record { iplhigh_count = 1; curspl = 0; irqon = false };
  spinlocks = 1;
})

begun-Reaches : Reaches idle begun
unfolding advance splraise
begun-Reaches = next here (moves 0 refl)

spinlock_exclusion_example :
    ((i j : ℕ) → has (begun.cpu i).place ≡ true → has (begun.cpu j).place ≡ true → i ≡ j)
    × ((i : ℕ) → (t : System) × (advance begun i ≡ value t))
    × ((i : ℕ) → do_i_hold begun i ≡ is_inside (begun.cpu i).place)
    × ((i : ℕ)
        → (begun.cpu i).level.irqon
          ≡ (raised (begun.cpu i).place + (begun.cpu i).level.curspl == 0))
spinlock_exclusion_example = spinlock_exclusion init-IsConsistent begun-Reaches
