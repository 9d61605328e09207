-- ===== src/Dev/Tests.antt =====
-- The console at a fresh ring.
use ops_class.Base.{ℕ, ◌≡◌, refl, [], ◌∷◌, ◌++◌, replicate, length-replicate, arith}
use ops_class.Dev.Console.{
  Console, Delayed, con_input, wait_input, read_slot, move_tail, flush_delay_buf,
}
use ops_class.Dev.Console.Ring.{IsRing, read_out, pending}
use ops_class.Dev.Console.Trace.{
  idle, Holding, Runs, stay, arrives, passes, reads, takes, Runs-fifo,
}
use ops_class.Dev.Console.Output.{bytes, delay_all, Flushes, delay_all-Flushes}

abbrev fresh : Console
fresh = record {
  rsem = 0;
  wsem = 1;
  gotchars = replicate 32 0;
  gotchars_head = 0;
  gotchars_tail = 0;
}

fresh-IsRing : IsRing 0 fresh
fresh-IsRing = record { size = refl; head = omega arith; tail = omega arith; count = refl }

-- An `A` arrives, and a reader takes it.
abbrev drained : Console
drained = record {
  rsem = 0;
  wsem = 1;
  gotchars = 65 ∷ replicate 31 0;
  gotchars_head = 1;
  gotchars_tail = 1;
}

one_round : Runs idle fresh (65 ∷ []) (65 ∷ []) idle drained
unfolding con_input wait_input read_slot move_tail read_out
one_round = arrives 65 refl (passes refl (reads (takes stay)))

Runs-fifo_example :
    IsRing 0 drained
    × Holding idle drained
    × (pending fresh ++ (65 ∷ []) ≡ (65 ∷ []) ++ pending drained)
Runs-fifo_example = Runs-fifo fresh-IsRing tt one_round

abbrev nothing_delayed : Delayed
nothing_delayed = record { outbuf = replicate 1024 0; outbuf_pos = 0 }

delay_all-Flushes_example :
    Flushes
      ((flush_delay_buf nothing_delayed).0 ++ bytes (79 ∷ 83 ∷ []))
      (delay_all (79 ∷ 83 ∷ []) nothing_delayed)
delay_all-Flushes_example =
    delay_all-Flushes (79 ∷ 83 ∷ []) nothing_delayed (length-replicate {A = ℕ} 1024 0) (omega arith)
