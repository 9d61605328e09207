-- ===== src/Sched/Spl.antt =====
-- kern/thread/spl.c: the interrupt priority level, counted.
use ops_class.Base.{ℕ, ◌+◌, ◌-◌, ◌%◌, ◌^◌, Bool, true, false, ◌==◌, ltb, if◌then◌else◌, not, ◌||◌}
use ops_class.Base.Run.{Cmd, done, panicked, ◌>>◌}

-- `t_iplhigh_count` and `t_curspl` of the thread that runs, and whether its processor takes
-- interrupts. The count is kept modulo 2^32.
pub record Level : Type 0 where
  pub iplhigh_count : ℕ
  pub curspl : ℕ
  pub irqon : Bool

abbrev pub ipl_none : ℕ
ipl_none = 0

abbrev pub ipl_high : ℕ
ipl_high = 1

-- `exists` is CURCPU_EXISTS(): before there is a processor structure, interrupts are off anyway.
unfoldable pub splraise : Bool → ℕ → ℕ → Cmd Level (Unit {0})
splraise exists oldspl newspl l =
    if not (oldspl == ipl_none) || not (newspl == ipl_high)
    then panicked
    else if not exists
    then done tt l
    else done tt (record l {
      iplhigh_count = (l.iplhigh_count + 1) % 2 ^ 32;
      irqon = if l.iplhigh_count == 0 then false else l.irqon;
    })

abbrev pub lowered : ℕ → ℕ
lowered count = (count + (2 ^ 32 - 1)) % 2 ^ 32

unfoldable pub spllower : Bool → ℕ → ℕ → Cmd Level (Unit {0})
spllower exists oldspl newspl l =
    if not (oldspl == ipl_high) || not (newspl == ipl_none)
    then panicked
    else if not exists
    then done tt l
    else done tt (record l {
      iplhigh_count = lowered l.iplhigh_count;
      irqon = if lowered l.iplhigh_count == 0 then true else l.irqon;
    })

abbrev pub set_curspl : ℕ → Cmd Level (Unit {0})
set_curspl spl l = done tt (record l { curspl = spl })

-- It hands back the old level.
unfoldable pub splx : Bool → ℕ → Cmd Level ℕ
splx exists spl l =
    if not exists
    then done spl l
    else if ltb l.curspl spl
    then (do splraise exists l.curspl spl; set_curspl spl; done l.curspl) l
    else if ltb spl l.curspl
    then (do set_curspl spl; spllower exists l.curspl spl; done l.curspl) l
    else done spl l
