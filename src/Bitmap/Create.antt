-- ===== src/Bitmap/Create.antt =====
-- What `bitmap_create` makes.
use ops_class.Base.{
  ℕ, zero, suc, ◌+◌, ◌-◌, ◌*◌, ◌/◌, ◌%◌, ◌^◌, ◌≤◌, ◌<◌, ◌≡◌, refl, inl, inr, true, false, arith,
  ◌==◌, ltb, if◌then◌else◌, Bool-cases, length, lt→ltb, ltb→lt, ltb→le, eq→==, not, List, Option,
  none, some, replicate, length-replicate, length-set, get_or-replicate, get_or-set, ◌∙◌, subst,
}
use ops_class.Base.Bits.{set_bit, set_bit-lt, bit_set_zero}
use ops_class.Base.Run.{Checked, value, panic}
use ops_class.Bitmap.{Bitmap, words_of, word, or_word, isset, mark_overbits, create}
use ops_class.Bitmap.Valid.{IsValid, isset-or_word}

-- `v` holds bytes, and its bits are those of `p` below `i` or from `k` on, and set between.
record Filled (nbits len i : ℕ) (v : List ℕ) : Type 0 where
  sized : length v ≡ len
  bytes : (ix : ℕ) → word v ix < 256
  clear : (j : ℕ) → j < nbits → isset (record { nbits = nbits; v = v }) j ≡ false
  marked : (j : ℕ) → nbits ≤ j → j < i → isset (record { nbits = nbits; v = v }) j ≡ true

Filled-cast : {nbits len i k : ℕ} {v : List ℕ} → i ≡ k → Filled nbits len i v → Filled nbits len k v
Filled-cast {nbits} {len} {v} e f = subst (λ n. Filled nbits len n v) e f

-- A round of the loop that marks the bits past the end.
Filled-or_word :
    (nbits len ix j : ℕ) (v : List ℕ)
    → Filled nbits len (ix * 8 + j) v
    → ix < len
    → j < 8
    → nbits ≤ ix * 8 + j
    → Filled nbits len (ix * 8 + (j + 1)) (or_word v ix j)
Filled-or_word nbits len ix j v f inside small past = record {
  sized = length-set v ix _ ∙ f.sized;
  bytes = λ k. ground (
    arith,
    get_or-set v ix k (set_bit (word v ix) j) 0,
    set_bit-lt (word v ix) j,
    f.bytes ix,
    f.bytes k,
    f.sized,
  );
  clear = λ k h. ground (arith, bits k, f.clear k);
  marked = λ k out h. ground (arith, bits k, f.marked k);
}
  where
    bits :
        (k : ℕ)
        → isset (record { nbits = nbits; v = or_word v ix j }) k
          ≡ (if ix * 8 + j == k then true else isset (record { nbits = nbits; v = v }) k)
    bits =
        isset-or_word (record { nbits = nbits; v = v }) ix (omega (arith, f.sized)) j small
          (f.bytes ix)

mark_overbits-Filled :
    (n nbits len ix j : ℕ) (v : List ℕ)
    → Filled nbits len (ix * 8 + j) v
    → ix < len
    → j + n ≡ 8
    → nbits ≤ ix * 8 + j
    → Filled nbits len (ix * 8 + 8) (mark_overbits n ix j v)
unfolding mark_overbits
mark_overbits-Filled zero nbits len ix j v f inside e past = Filled-cast (omega arith) f
mark_overbits-Filled (suc n) nbits len ix j v f inside e past =
    mark_overbits-Filled n nbits len ix (j + 1) (or_word v ix j)
      (Filled-or_word nbits len ix j v f inside (omega arith) past) inside (omega arith)
      (omega arith)

Filled-replicate : (nbits len : ℕ) → Filled nbits len nbits (replicate len 0)
unfolding isset
Filled-replicate nbits len = record {
  sized = length-replicate len 0;
  bytes = λ ix. omega (arith, get_or-replicate {A = ℕ} len ix 0);
  clear = λ j h. rw (get_or-replicate {A = ℕ} len (j / 8) 0) (bit_set_zero (j % 8));
  marked = λ j out h. absurd (omega arith);
}

-- A fresh map of `nbits` bits.
abbrev pub Fresh : ℕ → Checked (Option Bitmap) → Type 0
Fresh nbits (value (some b)) =
    IsValid b × (b.nbits ≡ nbits) × ((i : ℕ) → i < nbits → isset b i ≡ false)
Fresh nbits (value none) = ⊥
Fresh nbits panic = ⊥

Fresh-of_Filled :
    (nbits : ℕ) (v : List ℕ)
    → nbits + 7 < 2 ^ 32
    → Filled nbits ((nbits + 7) / 8) (8 * ((nbits + 7) / 8)) v
    → Fresh nbits (value (some (record { nbits = nbits; v = v })))
Fresh-of_Filled nbits v small f = (
  record {
    small = small;
    sized = f.sized;
    bytes = f.bytes;
    over = λ i out h. f.marked i out (omega (arith, f.sized));
  },
  refl,
  f.clear,
)

-- The branch of `bitmap_create` for a size that is no multiple of eight, with its assertions.
abbrev overbits_branch : ℕ → ℕ → Checked (Option Bitmap)
overbits_branch nbits words =
    let ix = words - 1 in
    let overbits = nbits - ix * 8 in
    if not (nbits / 8 == ix)
    then panic
    else if not (ltb 0 overbits)
    then panic
    else if not (ltb overbits 8)
    then panic
    else value (
        some (record {
          nbits = nbits;
          v = mark_overbits (8 - overbits) ix overbits (replicate words 0);
        }))

with_overbits :
    (nbits : ℕ)
    → nbits + 7 < 2 ^ 32
    → nbits / 8 < (nbits + 7) / 8
    → Fresh nbits (overbits_branch nbits ((nbits + 7) / 8))
with_overbits nbits small more =
    rw
      (
        eq→== (nbits / 8) (len - 1) (omega arith),
        lt→ltb 0 (nbits - (len - 1) * 8) (omega arith),
        lt→ltb (nbits - (len - 1) * 8) 8 (omega arith),
      )
      (Fresh-of_Filled nbits _ small (
        Filled-cast (omega arith) (
          mark_overbits-Filled (8 - (nbits - (len - 1) * 8)) nbits len (len - 1)
            (nbits - (len - 1) * 8) (replicate len 0)
            (Filled-cast (omega arith) (Filled-replicate nbits len)) (omega arith) (omega arith)
            (omega arith))))
  where
    len : ℕ
    len = (nbits + 7) / 8

-- If both allocations succeed and `nbits + 7` fits an `unsigned`, `bitmap_create` does not panic and
-- makes a valid bitmap of `nbits` bits, all clear.
pub create-Fresh : (nbits : ℕ) → nbits + 7 < 2 ^ 32 → Fresh nbits (create true true nbits)
unfolding create
create-Fresh nbits small =
    let words : words_of nbits ≡ (nbits + 7) / 8 = omega arith in
    rw words (elim (Bool-cases (ltb (nbits / 8) ((nbits + 7) / 8))) [
      | inl more ↦ rw more (with_overbits nbits small (ltb→lt (nbits / 8) ((nbits + 7) / 8) more))
      | inr exact ↦ rw exact (
          Fresh-of_Filled nbits (replicate ((nbits + 7) / 8) 0) small (
            Filled-cast (omega (arith, ltb→le (nbits / 8) ((nbits + 7) / 8) exact))
              (Filled-replicate nbits ((nbits + 7) / 8))))
    ])
