-- ===== src/Dev/Console.antt =====
-- kern/dev/generic/console.c: the input ring between the interrupt handler and the readers, and the
-- ways out for a character.
pub mod Ring
pub mod Trace
pub mod Output
use ops_class.Base.{
  ℕ, zero, suc, ◌+◌, ◌-◌, ◌%◌, ◌^◌, Bool, true, false, ◌||◌, not, Option, none, some, List, [], ◌∷◌,
  ◌++◌, ltb, ◌==◌, if◌then◌else◌, get_or, set,
}
use ops_class.Base.Run.{Checked, value, panic}

abbrev pub buffer_size : ℕ
buffer_size = 32

-- `struct con_softc`: the semaphores by their counts, the ring with its head and its tail.
pub record Console : Type 0 where
  pub rsem : ℕ
  pub wsem : ℕ
  pub gotchars : List ℕ
  pub gotchars_head : ℕ
  pub gotchars_tail : ℕ

-- `V` on a semaphore: its count is an `unsigned`, and the assertion is on the count after.
abbrev pub up : ℕ → (ℕ → Console) → Checked Console
up count store =
    let count = (count + 1) % 2 ^ 32 in if ltb 0 count then value (store count) else panic

-- The slots are of `unsigned char`.
unfoldable pub con_input : ℕ → Console → Checked Console
con_input ch cs =
    let nexthead = (cs.gotchars_head + 1) % buffer_size in
    if nexthead == cs.gotchars_tail
    then value cs
    else up cs.rsem (λ n. record cs {
      rsem = n;
      gotchars = set cs.gotchars cs.gotchars_head (ch % 256);
      gotchars_head = nexthead;
    })

unfoldable pub con_start : Console → Checked Console
con_start cs = up cs.wsem (λ n. record cs { wsem = n })

-- `P(cs->cs_rsem)` in `getch_intr`, `none` as long as it waits.
unfoldable pub wait_input : Console → Option Console
wait_input cs = if cs.rsem == 0 then none else some (record cs { rsem = cs.rsem - 1 })

-- The rest of `getch_intr`, which holds no lock: the slot is read, and then the tail moved.
unfoldable pub read_slot : Console → ℕ
read_slot cs = get_or cs.gotchars cs.gotchars_tail 0

unfoldable pub move_tail : Console → Console
move_tail cs = record cs { gotchars_tail = (cs.gotchars_tail + 1) % buffer_size }

-- `delayed_outbuf` and `delayed_outbuf_pos`; a `char` is kept as its byte.
pub record Delayed : Type 0 where
  pub outbuf : List ℕ
  pub outbuf_pos : ℕ

abbrev pub delaybufsize : ℕ
delaybufsize = 1024

unfoldable pub putch_delayed : ℕ → Delayed → Checked Delayed
putch_delayed ch d =
    if not (ltb d.outbuf_pos delaybufsize)
    then panic
    else value
        (record { outbuf = set d.outbuf d.outbuf_pos (ch % 256); outbuf_pos = d.outbuf_pos + 1 })

-- The loop of `flush_delay_buf` from the position `i` on, with the rounds that are left: the
-- characters that go to `putch`, in order.
pub flushed : ℕ → ℕ → List ℕ → List ℕ
flushed zero i outbuf = []
flushed (suc n) i outbuf = get_or outbuf i 0 ∷ flushed n (i + 1) outbuf

unfoldable pub flush_delay_buf : Delayed → List ℕ × Delayed
unfolding flushed
flush_delay_buf d = (flushed d.outbuf_pos 0 d.outbuf, record d { outbuf_pos = 0 })

-- What stands around a call of `putch`: `the_console`, and what `curthread` and `curcpu` say.
pub record Context : Type 0 where
  pub the_console : Option Console
  pub in_interrupt : Bool
  pub curspl : ℕ
  pub spinlocks : ℕ
  pub delayed : Delayed

-- How a character leaves.
pub data Put : Type 0 where
  -- kept for later
  keeps : Delayed → Put
  -- sent at once, polling the device
  polls : ℕ → Put
  -- sent once the device is free, with the semaphore taken
  sends : ℕ → Console → Put
  waits asserts : Put

-- `putch_intr`.
pub putch_intr : ℕ → Console → Put
putch_intr ch cs = if cs.wsem == 0 then waits else sends ch (record cs { wsem = cs.wsem - 1 })

pub kept : Checked Delayed → Put
kept (value d) = keeps d
kept panic = asserts

unfoldable pub putch : ℕ → Context → Put
unfolding putch_intr kept putch_delayed
putch ch k = elim k.the_console [
  | none ↦ kept (putch_delayed ch k.delayed)
  | some cs ↦
      if k.in_interrupt || (ltb 0 k.curspl || ltb 0 k.spinlocks) then polls ch else putch_intr ch cs
]
