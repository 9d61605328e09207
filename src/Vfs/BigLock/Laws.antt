-- ===== src/Vfs/BigLock/Laws.antt =====
-- The big lock over nested acquires and releases of one thread, and of a thread that did not make it.
use ops_class.Base.{
  ℕ, zero, suc, ◌+◌, ◌-◌, ◌^◌, ◌<◌, ◌≡◌, ◌≢◌, refl, ap, subst, ◌∙◌, true, false, eq→==, ne→==,
  lt→ltb, arith,
}
use ops_class.Base.Run.{Checked, value, panic}
use ops_class.Synch.Lock
use ops_class.Synch.Lock.{Lock, acquired, sleeps, asserts}
use ops_class.Vfs.BigLock.{
  BigLock, Entry, entered, waits, entry_panic, do_i_hold, deeper, acquire, release,
}

-- The big lock made by `maker`, held `depth` deep.
abbrev pub held : ℕ → ℕ → BigLock
held maker depth = record { lock = record { lock_thread = maker; lock_count = 0 }; depth = depth }

abbrev pub free : ℕ → BigLock
free maker = record { lock = Lock.create maker; depth = 0 }

-- `n` acquires by `thread` in a row, none of which waits.
pub acquire_all : ℕ → ℕ → BigLock → Entry
acquire_all zero thread big = entered big
acquire_all (suc n) thread big = elim (acquire big thread) [
  | entered big' ↦ acquire_all n thread big'
  | waits ↦ waits
  | entry_panic ↦ entry_panic
]

pub release_all : ℕ → ℕ → BigLock → Checked BigLock
release_all zero thread big = value big
release_all (suc n) thread big = elim (release big thread) [
  | value big' ↦ release_all n thread big'
  | panic ↦ panic
]

acquire_held :
    (maker depth : ℕ)
    → depth + 1 < 2 ^ 32
    → acquire (held maker depth) maker ≡ entered (held maker (depth + 1))
unfolding acquire do_i_hold deeper Lock.do_i_hold
acquire_held maker depth h =
    rw (eq→== maker maker refl) (ap (λ d. entered (held maker d)) (omega arith))

acquire_all_held :
    (n maker depth : ℕ)
    → depth + n < 2 ^ 32
    → acquire_all n maker (held maker depth) ≡ entered (held maker (depth + n))
unfolding acquire_all
acquire_all_held zero maker depth h = ap (λ d. entered (held maker d)) (omega arith)
acquire_all_held (suc n) maker depth h =
    ap
      (λ e. elim e [
        | entered big ↦ acquire_all n maker big
        | waits ↦ waits
        | entry_panic ↦ entry_panic
      ])
      (acquire_held maker depth (omega arith))
    ∙ (acquire_all_held n maker (depth + 1) (omega arith)
        ∙ ap (λ d. entered (held maker d)) (omega arith))

release_last : (maker : ℕ) → release (held maker 1) maker ≡ value (free maker)
unfolding release do_i_hold Lock.do_i_hold Lock.release Lock.create
release_last maker = rw (eq→== maker maker refl) refl

release_nested :
    (maker depth : ℕ)
    → 1 < depth
    → release (held maker depth) maker ≡ value (held maker (depth - 1))
unfolding release do_i_hold Lock.do_i_hold
release_nested maker depth h =
    rw
      (eq→== maker maker refl, lt→ltb 0 depth (omega arith), ne→== (depth - 1) 0 (λ z. omega arith))
      refl

release_all_held :
    (n maker : ℕ) → release_all (suc n) maker (held maker (suc n)) ≡ value (free maker)
unfolding release_all
release_all_held zero maker =
    ap (λ r. elim r [ value big ↦ release_all zero maker big | panic ↦ panic ]) (release_last maker)
release_all_held (suc n) maker =
    ap (λ r. elim r [ value big ↦ release_all (suc n) maker big | panic ↦ panic ])
      (release_nested maker (suc (suc n)) (omega arith) ∙ ap (λ d. value (held maker d)) down)
    ∙ release_all_held n maker
  where
    down : suc (suc n) - 1 ≡ suc n
    down = omega arith

acquire_free : (maker thread : ℕ) → acquire (free maker) thread ≡ entered (held maker 1)
unfolding acquire do_i_hold deeper Lock.create Lock.do_i_hold Lock.acquire
acquire_free maker thread = refl

-- The thread that made the big lock can take it up to 2^32 - 1 deep without waiting, the lock is
-- held by it until it has been released as often, and then it is free again, with no panic.
pub acquire-release_nested :
    (n maker : ℕ)
    → n + 1 < 2 ^ 32
    → (acquire_all (n + 1) maker (free maker) ≡ entered (held maker (n + 1)))
      × (do_i_hold (held maker (n + 1)) maker ≡ true)
      × (release_all (n + 1) maker (held maker (n + 1)) ≡ value (free maker))
unfolding do_i_hold Lock.do_i_hold acquire_all acquire
acquire-release_nested n maker h = (
  subst (λ k. acquire_all k maker (free maker) ≡ entered (held maker (n + 1))) one
      (ap
          (λ e. elim e [
            | entered big ↦ acquire_all n maker big
            | waits ↦ waits
            | entry_panic ↦ entry_panic
          ])
          (acquire_free maker maker)
        ∙ (acquire_all_held n maker 1 (omega arith)
            ∙ ap (λ d. entered (held maker d)) (omega arith))),
  rw (eq→== maker maker refl) refl,
  subst (λ k. release_all k maker (held maker k) ≡ value (free maker)) one
      (release_all_held n maker),
)
  where
    one : suc n ≡ n + 1
    one = omega arith

-- Any other thread that takes the free big lock is not taken for its holder: its next acquire
-- waits for itself, and its release panics.
pub acquire-release_other :
    (maker thread : ℕ)
    → thread ≢ maker
    → (acquire (free maker) thread ≡ entered (held maker 1))
      × (do_i_hold (held maker 1) thread ≡ false)
      × (acquire (held maker 1) thread ≡ waits)
      × (release (held maker 1) thread ≡ panic)
unfolding do_i_hold acquire release Lock.do_i_hold Lock.acquire
acquire-release_other maker thread ne = (
  acquire_free maker thread,
  rw (ne→== thread maker ne) refl,
  rw (ne→== thread maker ne) refl,
  rw (ne→== thread maker ne) refl,
)
