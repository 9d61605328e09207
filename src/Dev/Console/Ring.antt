-- ===== src/Dev/Console/Ring.antt =====
-- The input ring as a queue.
use ops_class.Base.{
  ℕ, zero, suc, ◌+◌, ◌-◌, ◌%◌, ◌^◌, ◌<◌, ◌≡◌, ◌≢◌, refl, sym, ◌∙◌, ap, ap₂, inl, inr, true, List,
  [], ◌∷◌, ◌++◌, ltb, lt→ltb, ◌==◌, if◌then◌else◌, get_or, set, length, arith, Bool-cases,
  length-set, get_or-set_self, get_or-set_ne,
}
use ops_class.Base.Run.{Checked, value, panic}
use ops_class.Dev.Console.{Console, buffer_size, con_input, read_slot, move_tail}

-- `n` characters of the ring from the slot `tail` on.
unfoldable pub read_out : ℕ → ℕ → List ℕ → List ℕ
read_out zero tail buf = []
read_out (suc n) tail buf = get_or buf tail 0 ∷ read_out n ((tail + 1) % buffer_size) buf

-- How many characters the ring holds.
abbrev pub used : Console → ℕ
used cs = (cs.gotchars_head + buffer_size - cs.gotchars_tail) % buffer_size

-- The queue that the ring stands for.
abbrev pub pending : Console → List ℕ
pending cs = read_out (used cs) cs.gotchars_tail cs.gotchars

-- A ring in which `claims` characters belong to readers that have passed the semaphore and not yet
-- taken a character; the semaphore counts the others.
pub record IsRing (claims : ℕ) (cs : Console) : Type 0 where
  pub size : length cs.gotchars ≡ buffer_size
  pub head : cs.gotchars_head < buffer_size
  pub tail : cs.gotchars_tail < buffer_size
  pub count : cs.rsem + claims ≡ used cs

read_out-length : (n tail : ℕ) (buf : List ℕ) → length (read_out n tail buf) ≡ n
unfolding read_out
read_out-length zero tail buf = refl
read_out-length (suc n) tail buf = ap suc (read_out-length n ((tail + 1) % buffer_size) buf)

read_out-suc :
    (n tail : ℕ) (buf : List ℕ)
    → tail < buffer_size
    → read_out (suc n) tail buf
      ≡ read_out n tail buf ++ (get_or buf ((tail + n) % buffer_size) 0 ∷ [])
unfolding read_out
read_out-suc zero tail buf t = ap (λ k. get_or buf k 0 ∷ []) (omega arith)
read_out-suc (suc n) tail buf t =
    ap (λ l. get_or buf tail 0 ∷ l)
      (read_out-suc n ((tail + 1) % buffer_size) buf (omega arith)
        ∙ ap (λ k. read_out n ((tail + 1) % buffer_size) buf ++ (get_or buf k 0 ∷ []))
            (omega arith))

-- A slot that is not read may be written.
read_out-set :
    (n tail k v : ℕ) (buf : List ℕ)
    → tail < buffer_size
    → n + k < buffer_size
    → read_out n tail (set buf ((tail + n + k) % buffer_size) v) ≡ read_out n tail buf
unfolding read_out
read_out-set zero tail k v buf t small = refl
read_out-set (suc n) tail k v buf t small =
    ap₂ (λ c l. c ∷ l) (get_or-set_ne buf ((tail + suc n + k) % buffer_size) tail v 0 (omega arith))
      (ap (λ s. read_out n ((tail + 1) % buffer_size) (set buf s v)) (omega arith)
        ∙ read_out-set n ((tail + 1) % buffer_size) k v buf (omega arith) (omega arith))

-- Writing the slot after the last adds the character at the end.
read_out_snoc :
    (n tail v : ℕ) (buf : List ℕ)
    → n < buffer_size
    → tail < buffer_size
    → length buf ≡ buffer_size
    → read_out (suc n) tail (set buf ((tail + n) % buffer_size) v) ≡ read_out n tail buf ++ (v ∷ [])
read_out_snoc n tail v buf small t l =
    read_out-suc n tail _ t
    ∙ ap₂ (λ xs c. xs ++ (c ∷ []))
        (ap (λ s. read_out n tail (set buf s v)) (omega arith)
          ∙ read_out-set n tail 0 v buf t (omega arith))
        (get_or-set_self buf ((tail + n) % buffer_size) v 0 (omega (arith, l)))

-- What `con_input` does to the queue: a full one stays as it is, any other gets the character at
-- its end, and the semaphore counts it.
abbrev pub Entered : ℕ → ℕ → Console → Checked Console → Type 0
Entered claims ch cs (value cs') =
    IsRing claims cs'
    × (pending cs' ≡ (
        if ltb (length (pending cs)) (buffer_size - 1)
        then pending cs ++ (ch % 256 ∷ [])
        else pending cs))
Entered claims ch cs panic = ⊥

-- In every state of the ring `con_input` adds the character to the queue, or drops it if the queue
-- has 31 characters; the assertion of `V` holds.
pub con_input-Entered :
    (claims ch : ℕ) (cs : Console) → IsRing claims cs → Entered claims ch cs (con_input ch cs)
unfolding con_input
con_input-Entered claims ch cs r =
    elim (Bool-cases ((cs.gotchars_head + 1) % buffer_size == cs.gotchars_tail)) [
      | inl full ↦
          let u : used cs ≡ 31 = ground (arith, full, r.head, r.tail) in
          rw full (r, sym (rw (read_out-length (used cs) cs.gotchars_tail cs.gotchars, u) refl))
      | inr free ↦
          let u : used cs < 31 = ground (arith, free, r.head, r.tail) in
          let counted : ltb 0 ((cs.rsem + 1) % 2 ^ 32) ≡ true = ground (arith, u, r.count) in
          let room : ltb (length (pending cs)) 31 ≡ true =
            rw (read_out-length (used cs) cs.gotchars_tail cs.gotchars) (lt→ltb (used cs) 31 u) in
          let next : ((cs.gotchars_head + 1) % buffer_size + buffer_size - cs.gotchars_tail)
                % buffer_size
              ≡ suc (used cs) =
            omega (arith, u, r.head, r.tail) in
          rw (free, counted, room)
            (
              record {
                size = length-set cs.gotchars cs.gotchars_head (ch % 256) ∙ r.size;
                head = omega arith;
                tail = r.tail;
                count = omega (arith, u, next, r.count);
              },
              ap₂ (λ n s. read_out n cs.gotchars_tail (set cs.gotchars s (ch % 256))) next
                    (omega (arith, r.head, r.tail))
                  ∙ read_out_snoc (used cs) cs.gotchars_tail (ch % 256) cs.gotchars
                      (omega (arith, u)) r.tail r.size,
            )
    ]

-- A reader that has passed the semaphore finds a character: the first of the queue, which it
-- removes when it moves the tail.
pub move_tail-first :
    (claims : ℕ) (cs : Console)
    → IsRing (claims + 1) cs
    → IsRing claims (move_tail cs) × (pending cs ≡ read_slot cs ∷ pending (move_tail cs))
unfolding move_tail read_slot read_out
move_tail-first claims cs r =
    let u : used cs ≡ suc (used (move_tail cs)) = ground (arith, r.head, r.tail, r.count) in
    (
      record {
        size = r.size;
        head = r.head;
        tail = omega arith;
        count = omega (arith, u, r.count);
      },
      ap (λ n. read_out n cs.gotchars_tail cs.gotchars) u,
    )

-- While a character is claimed, `con_input` leaves the slot at the tail alone.
pub read_slot-kept :
    (claims ch : ℕ) (cs cs' : Console)
    → IsRing (claims + 1) cs
    → con_input ch cs ≡ value cs'
    → read_slot cs' ≡ read_slot cs
unfolding con_input read_slot
read_slot-kept claims ch cs cs' r e =
    elim (Bool-cases ((cs.gotchars_head + 1) % buffer_size == cs.gotchars_tail)) [
      | inl full ↦ sym (ap slot_at (same (rw full at e)))
      | inr free ↦
          let some_ : 0 < used cs = omega (arith, r.count) in
          let apart : cs.gotchars_head ≢ cs.gotchars_tail =
            λ z. omega (arith, some_, z, r.head, r.tail) in
          elim (Bool-cases (ltb 0 ((cs.rsem + 1) % 2 ^ 32))) [
            | inl up_ ↦
                sym (ap slot_at (same (rw (free, up_) at e)))
                ∙ get_or-set_ne cs.gotchars cs.gotchars_head cs.gotchars_tail (ch % 256) 0 apart
            | inr wrapped ↦ absurd (no_value (rw (free, wrapped) at e))
          ]
    ]
  where
    slot_at : Console → ℕ
    slot_at c = get_or c.gotchars c.gotchars_tail 0

    same : {a b : Console} → value a ≡ value b → a ≡ b
    same h = cc

    no_value : {a : Console} → panic ≡ value a → ⊥
    no_value h = cc
