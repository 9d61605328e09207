-- ===== src/Sched/Spinlock/Consistent.antt =====
-- When the processors, the spinlock and the interrupt levels agree.
use ops_class.Base.{
  ℕ, ◌+◌, ◌≤◌, ◌≡◌, ◌≢◌, refl, Bool, true, false, ◌==◌, ltb, Option, eq→==, arith, inl, inr, ◌⊎◌,
  Bool-cases,
}
use ops_class.Base.Run.{Run, done, fail, panicked, blocked, value}
use ops_class.Sched.Spl.{Level, ipl_none, ipl_high, splraise, spllower, splx}
use ops_class.Sched.Spinlock.{
  Place, outside, looking, trying, owning, inside, leaving, Cpu, System, put_cpu, held_by, advance,
}

-- The places with the lock word set by this processor, those between the raise and the lower of the
-- interrupt level, and those in which the lock counts among the processor's.
abbrev pub has : Place → Bool
has outside = false
has looking = false
has trying = false
has owning = true
has inside = true
has leaving = true

abbrev pub raised : Place → ℕ
raised outside = 0
raised _ = 1

abbrev pub counted : Place → ℕ
counted outside = 0
counted leaving = 0
counted _ = 1

abbrev pub is_inside : Place → Bool
is_inside inside = true
is_inside _ = false

-- The level of a processor that the lock has raised `k` times: raised once more by `splhigh`, with
-- interrupts on just if it is not raised at all.
pub record IsLevel (k : ℕ) (l : Level) : Type 0 where
  pub valid : l.curspl ≤ 1
  pub count : l.iplhigh_count ≡ k + l.curspl
  pub irq : l.irqon ≡ (k + l.curspl == 0)

pub record IsCpu (holder : Option ℕ) (i : ℕ) (c : Cpu) : Type 0 where
  pub level : IsLevel (raised c.place) c.level
  pub spinlocks : c.spinlocks ≡ counted c.place
  pub holds : held_by holder i ≡ is_inside c.place

pub record IsConsistent (s : System) : Type 0 where
  pub cpus : (i : ℕ) → IsCpu s.holder i (s.cpu i)
  pub bit : s.word ≤ 1
  pub free : s.word ≡ 0 → (i : ℕ) → has (s.cpu i).place ≡ false
  pub taken : s.word ≢ 0 → (i : ℕ) × (has (s.cpu i).place ≡ true)
  pub unique : (i j : ℕ) → has (s.cpu i).place ≡ true → has (s.cpu j).place ≡ true → i ≡ j

-- One processor moves, or changes its level by `splx` when it is not in a call on the lock.
pub data Step (s : System) : System → Type 0 where
  moves : {s' : System} (i : ℕ) → advance s i ≡ value s' → Step s s'
  sets_level :
      (i spl old : ℕ) (l : Level)
      → spl ≤ 1
      → ((s.cpu i).place ≡ outside) ⊎ ((s.cpu i).place ≡ inside)
      → splx true spl (s.cpu i).level ≡ done old l
      → Step s (put_cpu s i (record (s.cpu i) { level = l }))

pub data Reaches (s : System) : System → Type 0 where
  here : Reaches s s
  next : {s' s'' : System} → Reaches s s' → Step s' s'' → Reaches s s''

pub raise-IsLevel :
    (l : Level)
    → IsLevel 0 l
    → (l' : Level) × (splraise true ipl_none ipl_high l ≡ done tt l') × IsLevel 1 l'
unfolding splraise
raise-IsLevel l il = (
  _,
  refl,
  record {
    valid = il.valid;
    count = ground (arith, il.count, il.valid);
    irq = ground (arith, il.irq, il.count, il.valid);
  },
)

pub lower-IsLevel :
    (l : Level)
    → IsLevel 1 l
    → (l' : Level) × (spllower true ipl_high ipl_none l ≡ done tt l') × IsLevel 0 l'
unfolding spllower
lower-IsLevel l il = (
  _,
  refl,
  record {
    valid = il.valid;
    count = ground (arith, il.count, il.valid);
    irq = ground (arith, il.irq, il.count, il.valid);
  },
)

-- What comes of a change of the level.
abbrev pub Levelled : ℕ → Run Level ℕ → Type 0
Levelled k (done old l) = IsLevel k l
Levelled k (fail e l) = ⊥
Levelled k panicked = ⊥
Levelled k blocked = ⊥

pub splx-IsLevel :
    (k spl : ℕ) (l : Level) → k ≤ 1 → IsLevel k l → spl ≤ 1 → Levelled k (splx true spl l)
unfolding splx splraise spllower
splx-IsLevel k spl l small il v = elim (Bool-cases (ltb l.curspl spl)) [
  | inl up ↦
      let low : l.curspl ≡ 0 = ground (arith, up) in
      let high : spl ≡ 1 = ground (arith, up) in
      rw (up, eq→== l.curspl 0 low, eq→== spl 1 high)
        (record {
          valid = v;
          count = ground (arith, il.count);
          irq = ground (arith, il.irq, il.count);
        })
  | inr stay ↦ rw stay (elim (Bool-cases (ltb spl l.curspl)) [
    | inl down ↦
        let high : l.curspl ≡ 1 = ground (arith, il.valid, down) in
        let low : spl ≡ 0 = ground (arith, il.valid, down) in
        rw (down, eq→== l.curspl 1 high, eq→== spl 0 low)
          (record {
            valid = v;
            count = ground (arith, il.count);
            irq = ground (arith, il.irq, il.count);
          })
    | inr same ↦ rw same il
  ])
]
