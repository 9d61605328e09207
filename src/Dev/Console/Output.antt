-- ===== src/Dev/Console/Output.antt =====
-- The characters put before there is a console.
use ops_class.Base.{
  ◌%◌, ℕ, zero, suc, ◌+◌, ◌≤◌, ◌<◌, ◌≡◌, refl, sym, ◌∙◌, ap, ap₂, true, List, [], ◌∷◌, ◌++◌,
  append-nil, append_assoc, ltb, lt→ltb, length, length-set, get_or, set, get_or-set_self,
  get_or-set_ne, arith, subst,
}
use ops_class.Base.Run.{Checked, value, panic}
use ops_class.Dev.Console.{Delayed, delaybufsize, putch_delayed, flushed, flush_delay_buf}

-- The characters as they are kept.
pub bytes : List ℕ → List ℕ
bytes [] = []
bytes (ch ∷ chs) = ch % 256 ∷ bytes chs

-- `putch` of each character in turn, without a console.
pub delay_all : List ℕ → Delayed → Checked Delayed
delay_all [] d = value d
delay_all (ch ∷ chs) d = elim (putch_delayed ch d) [ value d' ↦ delay_all chs d' | panic ↦ panic ]

flushed-snoc :
    (n i ch : ℕ) (buf : List ℕ)
    → i + n < length buf
    → flushed (suc n) i (set buf (i + n) ch) ≡ flushed n i buf ++ (ch ∷ [])
unfolding flushed
flushed-snoc zero i ch buf h =
    ap (λ c. c ∷ [])
      (ap (λ k. get_or (set buf k ch) i 0) (omega arith) ∙ get_or-set_self buf i ch 0 (omega arith))
flushed-snoc (suc n) i ch buf h =
    ap₂ (λ c l. c ∷ l) (get_or-set_ne buf (i + suc n) i ch 0 (omega arith))
      (ap (λ k. flushed (suc n) (i + 1) (set buf k ch)) (omega arith)
        ∙ flushed-snoc n (i + 1) ch buf (omega arith))

-- The buffer holds what has been put.
abbrev pub Flushes : List ℕ → Checked Delayed → Type 0
Flushes chs (value d) =
    (flush_delay_buf d ≡ (chs, record d { outbuf_pos = 0 })) × (length d.outbuf ≡ delaybufsize)
Flushes chs panic = ⊥

-- Characters put before there is a console, as long as they fit in the 1024 bytes of the buffer
-- with those put before, are kept without a panic, and `flush_delay_buf` gives their bytes out in order,
-- after those put before, and empties the buffer.
pub delay_all-Flushes :
    (chs : List ℕ) (d : Delayed)
    → length d.outbuf ≡ delaybufsize
    → d.outbuf_pos + length chs ≤ delaybufsize
    → Flushes ((flush_delay_buf d).0 ++ bytes chs) (delay_all chs d)
unfolding bytes delay_all flush_delay_buf putch_delayed
delay_all-Flushes [] d size fits =
    (ap (λ l. (l, record d { outbuf_pos = 0 })) (sym (append-nil (flush_delay_buf d).0)), size)
delay_all-Flushes (ch ∷ chs) d size fits =
    let one : d.outbuf_pos + 1 ≡ suc d.outbuf_pos = omega arith in
    let zero_add : d.outbuf_pos ≡ 0 + d.outbuf_pos = omega arith in
    let room : ltb d.outbuf_pos delaybufsize ≡ true =
      lt→ltb d.outbuf_pos delaybufsize (omega arith) in
    let d' : Delayed = record {
      outbuf = set d.outbuf d.outbuf_pos (ch % 256);
      outbuf_pos = d.outbuf_pos + 1;
    } in
    let step : putch_delayed ch d ≡ value d' = rw room refl in
    let more : (flush_delay_buf d').0 ≡ (flush_delay_buf d).0 ++ (ch % 256 ∷ []) =
      ap (λ n. flushed n 0 d'.outbuf) one
      ∙ (ap (λ k. flushed (suc d.outbuf_pos) 0 (set d.outbuf k (ch % 256))) zero_add
          ∙ flushed-snoc d.outbuf_pos 0 (ch % 256) d.outbuf (omega (arith, size))) in
    let next : (flush_delay_buf d').0 ++ bytes chs ≡ (flush_delay_buf d).0 ++ bytes (ch ∷ chs) =
      ap (λ l. l ++ bytes chs) more
      ∙ append_assoc (flush_delay_buf d).0 (ch % 256 ∷ []) (bytes chs) in
    subst (Flushes ((flush_delay_buf d).0 ++ bytes (ch ∷ chs))) (sym (delay_step step)) (
      subst (λ l. Flushes l (delay_all chs d')) next
        (delay_all-Flushes chs d' (length-set d.outbuf d.outbuf_pos (ch % 256) ∙ size)
          (omega arith)))
  where
    delay_step :
        {d' : Delayed} → putch_delayed ch d ≡ value d' → delay_all (ch ∷ chs) d ≡ delay_all chs d'
    delay_step e = ap (λ r. elim r [ value d' ↦ delay_all chs d' | panic ↦ panic ]) e
