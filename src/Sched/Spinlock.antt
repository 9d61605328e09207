-- ===== src/Sched/Spinlock.antt =====
-- kern/thread/spinlock.c: a spinlock among the processors of the machine.
pub mod Consistent
pub mod Update
pub mod Exclusion
use ops_class.Base.{
  ℕ, ◌+◌, ◌-◌, Bool, true, false, ◌==◌, ltb, if◌then◌else◌, not, ◌||◌, Option, none, some,
}
use ops_class.Base.Run.{Cmd, Run, done, fail, panicked, blocked, Checked, value, panic}
use ops_class.Sched.Spl.{Level, ipl_none, ipl_high, splraise, spllower}

-- Where a processor is in `spinlock_acquire` and `spinlock_release`: not in them and without the
-- lock; about to read the lock word; about to test and set it; with the word set and the holder not
-- written yet; with the lock; with the holder cleared and the word still set.
pub data Place : Type 0 where
  outside looking trying owning inside leaving : Place

pub record Cpu : Type 0 where
  pub place : Place
  pub level : Level
  pub spinlocks : ℕ

-- `splk_lock` and `splk_holder`, and the processors, by number.
pub record System : Type 0 where
  pub word : ℕ
  pub holder : Option ℕ
  pub cpu : ℕ → Cpu

abbrev pub put_cpu : System → ℕ → Cpu → System
put_cpu s i c = record s { cpu = λ j. if i == j then c else s.cpu j }

abbrev pub held_by : Option ℕ → ℕ → Bool
held_by none i = false
held_by (some h) i = h == i

-- `spinlock_init`.
abbrev pub init : (ℕ → Cpu) → System
init cpu = record { word = 0; holder = none; cpu = cpu }

-- `spinlock_do_i_hold`.
unfoldable pub do_i_hold : System → ℕ → Bool
do_i_hold s i = held_by s.holder i

-- What becomes of processor `i` when its interrupt level has been changed.
pub levelled : System → ℕ → (Level → Cpu) → Run Level (Unit {0}) → Checked System
levelled s i k (done _ l) = value (put_cpu s i (k l))
levelled s i k (fail e l) = value (put_cpu s i (k l))
levelled s i k panicked = panic
levelled s i k blocked = panic

-- `spinlock_acquire` up to its loop.
pub enter : System → ℕ → Checked System
enter s i =
    if held_by s.holder i
    then panic
    else levelled s i
        (λ l. record { place = looking; level = l; spinlocks = (s.cpu i).spinlocks + 1 })
        (splraise true ipl_none ipl_high (s.cpu i).level)

-- `spinlock_data_get`.
pub look : System → ℕ → System
look s i = put_cpu s i (record (s.cpu i) { place = if s.word == 0 then trying else looking })

-- `spinlock_data_testandset`, which the machine does in one step.
pub testandset : System → ℕ → System
testandset s i =
    record (put_cpu s i (record (s.cpu i) { place = if s.word == 0 then owning else looking })) {
      word = 1;
    }

-- `splk->splk_holder = mycpu`.
pub own : System → ℕ → System
own s i = record (put_cpu s i (record (s.cpu i) { place = inside })) { holder = some i }

-- `spinlock_release` up to `splk->splk_holder = NULL`.
pub leave : System → ℕ → Checked System
leave s i =
    if not (held_by s.holder i) || not (ltb 0 (s.cpu i).spinlocks)
    then panic
    else value
        (record (put_cpu s i
          (record (s.cpu i) { place = leaving; spinlocks = (s.cpu i).spinlocks - 1 })) {
            holder = none;
          })

-- `spinlock_data_set(&splk->splk_lock, 0); spllower(IPL_HIGH, IPL_NONE)`.
pub unlock : System → ℕ → Checked System
unlock s i =
    levelled (record s { word = 0 }) i (λ l. record (s.cpu i) { place = outside; level = l })
      (spllower true ipl_high ipl_none (s.cpu i).level)

abbrev pub from_place : Place → System → ℕ → Checked System
from_place outside s i = enter s i
from_place looking s i = value (look s i)
from_place trying s i = value (testandset s i)
from_place owning s i = value (own s i)
from_place inside s i = leave s i
from_place leaving s i = unlock s i

-- The next step of processor `i`: one without the lock begins to acquire it, one with it to release
-- it, and one in between goes on.
unfoldable pub advance : System → ℕ → Checked System
unfolding enter look testandset own leave unlock levelled
advance s i = from_place (s.cpu i).place s i
