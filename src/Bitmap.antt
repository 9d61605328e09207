-- ===== src/Bitmap.antt =====
-- kern/lib/bitmap.c: a fixed-size array of bits, kept in bytes. The children prove what the
-- operations promise about single bits.
pub mod Valid
pub mod Alloc
pub mod Mark
pub mod Create
pub mod Tests
use ops_class.Base.{
  ℕ, zero, suc, ◌+◌, ◌-◌, ◌*◌, ◌/◌, ◌%◌, ◌^◌, Bool, true, false, Option, none, some, List, [], ◌∷◌,
  not, ltb, ◌==◌, if◌then◌else◌, get_or, set, length, replicate,
}
use ops_class.Base.Bits.{bit_set, set_bit, clear_bit}
use ops_class.Base.Run.{Errno, Checked, value, panic, Run, done, fail, panicked, enospc}

-- `struct bitmap`; `v` holds bytes.
pub record Bitmap : Type 0 where
  pub nbits : ℕ
  pub v : List ℕ

-- `DIVROUNDUP(nbits, BITS_PER_WORD)`, in `unsigned` arithmetic.
abbrev pub words_of : ℕ → ℕ
words_of nbits = (nbits + 8 - 1) % 2 ^ 32 / 8

-- `b->v[ix]`.
abbrev pub word : List ℕ → ℕ → ℕ
word v ix = get_or v ix 0

-- `b->v[ix] |= 1 << j`.
abbrev pub or_word : List ℕ → ℕ → ℕ → List ℕ
or_word v ix j = set v ix (set_bit (word v ix) j)

-- `for (j=overbits; j<BITS_PER_WORD; j++)`, with the rounds that are left.
pub mark_overbits : ℕ → ℕ → ℕ → List ℕ → List ℕ
mark_overbits zero ix j v = v
mark_overbits (suc n) ix j v = mark_overbits n ix (j + 1) (or_word v ix j)

-- The two arguments before `nbits` say whether the two calls of kmalloc succeed. The result is
-- `none` for NULL.
unfoldable pub create : Bool → Bool → ℕ → Checked (Option Bitmap)
unfolding mark_overbits
create false got_v nbits = value none
create true false nbits = value none
create true true nbits =
    let words = words_of nbits in
    let ix = words - 1 in
    let overbits = nbits - ix * 8 in
    let v = replicate words 0 in
    if ltb (nbits / 8) words
    then (if not (nbits / 8 == ix)
        then panic
        else if not (ltb 0 overbits)
        then panic
        else if not (ltb overbits 8)
        then panic
        else value
            (some (record { nbits = nbits; v = mark_overbits (8 - overbits) ix overbits v })))
    else value (some (record { nbits = nbits; v = v }))

-- The inner loop of `bitmap_alloc` on the byte `ix`, with the rounds that are left. Past its end
-- stands `KASSERT(0)`.
pub alloc_word : ℕ → ℕ → ℕ → Bitmap → Run Bitmap ℕ
alloc_word zero ix offset b = panicked
alloc_word (suc n) ix offset b =
    let rest = alloc_word n ix (offset + 1) b in
    let index = ix * 8 + offset in
    if bit_set (word b.v ix) offset
    then rest
    else if ltb index b.nbits
    then done index (record b { v = or_word b.v ix offset })
    else panicked

-- The outer loop, with the rounds that are left.
pub alloc_from : ℕ → ℕ → Bitmap → Run Bitmap ℕ
alloc_from zero ix b = fail enospc b
alloc_from (suc n) ix b =
    let rest = alloc_from n (ix + 1) b in if word b.v ix == 255 then rest else alloc_word 8 ix 0 b

unfoldable pub alloc : Bitmap → Run Bitmap ℕ
unfolding alloc_from alloc_word
alloc b = alloc_from (words_of b.nbits) 0 b

-- `b->v[ix] & mask`, as the truth value that callers read. No caller asks past the last byte.
unfoldable pub isset : Bitmap → ℕ → Bool
isset b index = bit_set (word b.v (index / 8)) (index % 8)

unfoldable pub mark : Bitmap → ℕ → Checked Bitmap
mark b index =
    if not (ltb index b.nbits)
    then panic
    else if bit_set (word b.v (index / 8)) (index % 8)
    then panic
    else value (record b { v = or_word b.v (index / 8) (index % 8) })

unfoldable pub unmark : Bitmap → ℕ → Checked Bitmap
unmark b index =
    if not (ltb index b.nbits)
    then panic
    else if not (bit_set (word b.v (index / 8)) (index % 8))
    then panic
    else value (record b { v = set b.v (index / 8) (clear_bit (word b.v (index / 8)) (index % 8)) })
