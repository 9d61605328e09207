-- ===== src/Dev/Console/Trace.antt =====
-- Runs of the console's input: the interrupt handler and one reader, interleaved.
use ops_class.Base.{
  ℕ, ◌-◌, ◌%◌, ◌≡◌, refl, sym, ◌∙◌, ap, inl, inr, Option, none, some, List, [], ◌∷◌, ◌++◌,
  append-nil, append_assoc, ltb, ◌==◌, if◌then◌else◌, length, arith, Bool-cases, subst, ==→ne,
}
use ops_class.Base.Run.{value}
use ops_class.Dev.Console.{Console, buffer_size, con_input, wait_input, read_slot, move_tail}
use ops_class.Dev.Console.Ring.{
  IsRing, pending, Entered, con_input-Entered, move_tail-first, read_slot-kept,
}

-- The reader is in no call, past the semaphore, or has read the slot and not moved the tail.
pub data Reader : Type 0 where
  idle past : Reader
  read : ℕ → Reader

abbrev pub claims : Reader → ℕ
claims idle = 0
claims past = 1
claims (read ch) = 1

-- What the reader has read is what is in the slot at the tail.
abbrev pub Holding : Reader → Console → Type 0
Holding idle cs = Unit
Holding past cs = Unit
Holding (read ch) cs = ch ≡ read_slot cs

-- The character that an arrival adds, if the queue has room for it.
abbrev pub accepted : ℕ → Console → List ℕ → List ℕ
accepted ch cs chs = if ltb (length (pending cs)) (buffer_size - 1) then ch % 256 ∷ chs else chs

-- The steps lead from a state to another. One reader is in `getch_intr` at a time, as the lock
-- `con_userlock_read` has it in `con_io`; the handler may come between any two of its accesses. The
-- lists are the characters accepted and those that readers took, in order.
pub data Runs : Reader → Console → List ℕ → List ℕ → Reader → Console → Type 0 where
  stay : {rd : Reader} {cs : Console} → Runs rd cs [] [] rd cs
  arrives :
      (ch : ℕ) {rd rd' : Reader} {cs cs' end : Console} {came taken : List ℕ}
      → con_input ch cs ≡ value cs'
      → Runs rd cs' came taken rd' end
      → Runs rd cs (accepted ch cs came) taken rd' end
  passes :
      {rd' : Reader} {cs cs' end : Console} {came taken : List ℕ}
      → wait_input cs ≡ some cs'
      → Runs past cs' came taken rd' end
      → Runs idle cs came taken rd' end
  reads :
      {rd' : Reader} {cs end : Console} {came taken : List ℕ}
      → Runs (read (read_slot cs)) cs came taken rd' end
      → Runs past cs came taken rd' end
  takes :
      {ch : ℕ} {rd' : Reader} {cs end : Console} {came taken : List ℕ}
      → Runs idle (move_tail cs) came taken rd' end
      → Runs (read ch) cs came (ch ∷ taken) rd' end

-- Passing the semaphore claims a character and leaves the queue.
abbrev pub Passed : Console → Option Console → Type 0
Passed cs none = cs.rsem ≡ 0
Passed cs (some cs') = IsRing 1 cs' × (pending cs' ≡ pending cs)

wait_input-Passed : (cs : Console) → IsRing 0 cs → Passed cs (wait_input cs)
unfolding wait_input
wait_input-Passed cs r = elim (Bool-cases (cs.rsem == 0)) [
  | inl empty ↦ rw empty (ground (arith, empty))
  | inr more ↦ rw more (
    record {
      size = r.size;
      head = r.head;
      tail = r.tail;
      count = omega (arith, r.count, ==→ne cs.rsem 0 more);
    },
    refl,
  )
]

accepted-append :
    (ch : ℕ) (cs : Console) (came : List ℕ)
    → pending cs ++ accepted ch cs came
      ≡ (if ltb (length (pending cs)) (buffer_size - 1)
          then pending cs ++ (ch % 256 ∷ [])
          else pending cs)
        ++ came
accepted-append ch cs came = elim (Bool-cases (ltb (length (pending cs)) (buffer_size - 1))) [
  | inl room ↦ rw room (sym (append_assoc (pending cs) (ch % 256 ∷ []) came))
  | inr full ↦ rw full refl
]

-- An arrival leaves what the reader has read in its slot.
arrival-Holding :
    (rd : Reader) (ch : ℕ) (cs cs' : Console)
    → IsRing (claims rd) cs
    → con_input ch cs ≡ value cs'
    → Holding rd cs
    → Holding rd cs'
arrival-Holding idle ch cs cs' r e h = tt
arrival-Holding past ch cs cs' r e h = tt
arrival-Holding (read c) ch cs cs' r e h = h ∙ sym (read_slot-kept 0 ch cs cs' r e)

-- However the handler and the readers, one at a time, are interleaved, the ring stays well formed,
-- and the characters that readers took, followed by those still waiting, are the characters that
-- were waiting at the start followed by those accepted: none is lost, repeated or out of order.
pub Runs-fifo :
    {rd rd' : Reader} {cs end : Console} {came taken : List ℕ}
    → IsRing (claims rd) cs
    → Holding rd cs
    → Runs rd cs came taken rd' end
    → IsRing (claims rd') end × Holding rd' end × (pending cs ++ came ≡ taken ++ pending end)
Runs-fifo {cs = cs} r h stay = (r, h, append-nil (pending cs))
Runs-fifo {rd = rd} {cs = cs} r h (arrives ch {cs' = cs'} {came = came} e run) =
    let step : Entered (claims rd) ch cs (value cs') =
      subst (Entered (claims rd) ch cs) e (con_input-Entered (claims rd) ch cs r) in
    let (ring, held, eq) = Runs-fifo step.0 (arrival-Holding rd ch cs cs' r e h) run in
    (ring, held, accepted-append ch cs came ∙ (ap (λ l. l ++ came) (sym step.1) ∙ eq))
Runs-fifo {cs = cs} r h (passes {cs' = cs'} {came = came} e run) =
    let step : Passed cs (some cs') = subst (Passed cs) e (wait_input-Passed cs r) in
    let (ring, held, eq) = Runs-fifo step.0 tt run in
    (ring, held, ap (λ l. l ++ came) (sym step.1) ∙ eq)
Runs-fifo r h (reads run) = Runs-fifo r refl run
Runs-fifo {cs = cs} r h (takes {ch = ch} {came = came} run) =
    let step = move_tail-first 0 cs r in
    let (ring, held, eq) = Runs-fifo step.0 tt run in
    (
      ring,
      held,
      ap (λ l. l ++ came) (step.1 ∙ ap (λ c. c ∷ pending (move_tail cs)) (sym h))
          ∙ ap (λ l. ch ∷ l) eq,
    )
