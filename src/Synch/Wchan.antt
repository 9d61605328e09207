-- ===== src/Synch/Wchan.antt =====
-- The wait channels of kern/thread/thread.c: first come, first woken.
use ops_class.Base.{ℕ, List, [], ◌∷◌, ◌++◌}

-- `wc_threads`, and those threads taken off it that have yet to run. Threads are numbers.
pub record Wchan : Type 0 where
  pub sleeping : List ℕ
  pub runnable : List ℕ

abbrev pub empty : Wchan
empty = record { sleeping = []; runnable = [] }

-- `wchan_sleep`, up to the switch to another thread.
unfoldable pub sleep : ℕ → Wchan → Wchan
sleep thread wc = record wc { sleeping = wc.sleeping ++ (thread ∷ []) }

unfoldable pub woken : List ℕ → List ℕ → Wchan
woken [] runnable = record { sleeping = []; runnable = runnable }
woken (target ∷ sleeping) runnable = record {
  sleeping = sleeping;
  runnable = runnable ++ (target ∷ []);
}

-- `wchan_wakeone`.
unfoldable pub wakeone : Wchan → Wchan
unfolding woken
wakeone wc = woken wc.sleeping wc.runnable

-- `wchan_wakeall`.
unfoldable pub wakeall : Wchan → Wchan
wakeall wc = record { sleeping = []; runnable = wc.runnable ++ wc.sleeping }
