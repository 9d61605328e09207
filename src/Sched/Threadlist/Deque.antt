-- ===== src/Sched/Threadlist/Deque.antt =====
-- The operations on a list of threads, and what each does to a sequence.
use ops_class.Base.{
  ℕ, ◌+◌, ◌^◌, ◌<◌, ◌≡◌, List, [], ◌∷◌, ◌++◌, Option, none, some, length, ◌==◌, if◌then◌else◌,
}
use ops_class.Base.Run.{Cmd, done, ◌>>=◌}
use ops_class.Sched.Threadlist.{
  Threads, addhead, addtail, remhead, remtail, insertafter, insertbefore, remove,
}
use ops_class.Sched.Threadlist.Chain.{In}
use ops_class.Sched.Threadlist.Splice.{Linked}

-- The list in memory is that of `ts`, counted, and the count does not wrap.
pub record IsList (s : Threads) (ts : List ℕ) : Type 0 where
  pub linked : Linked s ts
  pub count : s.count ≡ length ts
  pub small : length ts < 2 ^ 32

-- The operations, and what they do to a sequence of threads.
pub data Op : Type 0 where
  add_head add_tail : ℕ → Op
  rem_head rem_tail : Op
  insert_after insert_before : ℕ → ℕ → Op
  take_out : ℕ → Op

-- An operation that hands back no thread hands back NULL here.
unfoldable pub quiet : Cmd Threads (Unit {0}) → Cmd Threads (Option ℕ)
quiet m = m >>= λ _. done none

unfoldable pub perform : Op → Cmd Threads (Option ℕ)
unfolding quiet
perform (add_head t) = quiet (addhead t)
perform (add_tail t) = quiet (addtail t)
perform rem_head = remhead
perform rem_tail = remtail
perform (insert_after o t) = quiet (insertafter o t)
perform (insert_before t o) = quiet (insertbefore t o)
perform (take_out t) = quiet (remove t)

abbrev pub Deque : Type 0
Deque = List ℕ

-- The sequence with `t` behind `o`, before `o`, and without `t`.
unfoldable pub behind : ℕ → ℕ → Deque → Deque
behind o t [] = []
behind o t (x ∷ xs) = let rest = behind o t xs in if x == o then x ∷ t ∷ xs else x ∷ rest

unfoldable pub before : ℕ → ℕ → Deque → Deque
before o t [] = []
before o t (x ∷ xs) = let rest = before o t xs in if x == o then t ∷ x ∷ xs else x ∷ rest

unfoldable pub without : ℕ → Deque → Deque
without t [] = []
without t (x ∷ xs) = let rest = without t xs in if x == t then xs else x ∷ rest

unfoldable pub last_of : Deque → Option ℕ
last_of [] = none
last_of (x ∷ []) = some x
last_of (x ∷ y ∷ xs) = last_of (y ∷ xs)

unfoldable pub but_last : Deque → Deque
but_last [] = []
but_last (x ∷ []) = []
but_last (x ∷ y ∷ xs) = x ∷ but_last (y ∷ xs)

unfoldable pub spec_list : Op → Deque → Deque
unfolding but_last behind before without
spec_list (add_head t) ts = t ∷ ts
spec_list (add_tail t) ts = ts ++ (t ∷ [])
spec_list rem_head [] = []
spec_list rem_head (x ∷ ts) = ts
spec_list rem_tail ts = but_last ts
spec_list (insert_after o t) ts = behind o t ts
spec_list (insert_before t o) ts = before o t ts
spec_list (take_out t) ts = without t ts

unfoldable pub spec_result : Op → Deque → Option ℕ
unfolding last_of
spec_result rem_head [] = none
spec_result rem_head (x ∷ ts) = some x
spec_result rem_tail ts = last_of ts
spec_result _ ts = none

-- A thread is put on the list only if it is not on it; where a thread is named, it is on it.
abbrev pub Allowed : Op → Deque → Type 0
Allowed (add_head t) ts = (In t ts → ⊥) × (length ts + 1 < 2 ^ 32)
Allowed (add_tail t) ts = (In t ts → ⊥) × (length ts + 1 < 2 ^ 32)
Allowed rem_head ts = Unit
Allowed rem_tail ts = Unit
Allowed (insert_after o t) ts = In o ts × (In t ts → ⊥) × (length ts + 1 < 2 ^ 32)
Allowed (insert_before t o) ts = In o ts × (In t ts → ⊥) × (length ts + 1 < 2 ^ 32)
Allowed (take_out t) ts = In t ts

-- The operation ends without a fault, hands back what it should, and the list is as it should be.
abbrev pub Implements : Op → Threads → Deque → Type 0
Implements op s ts =
    (s' : Threads) × (perform op s ≡ done (spec_result op ts) s') × IsList s' (spec_list op ts)
