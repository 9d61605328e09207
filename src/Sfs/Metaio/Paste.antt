-- ===== src/Sfs/Metaio/Paste.antt =====
-- Pieces of a buffer.
use ops_class.Base.{
  ℕ, zero, suc, ◌+◌, ◌-◌, ◌<◌, ◌≤◌, ◌≡◌, refl, ◌∙◌, ap, ◌&&◌, ltb, leb, arith, get_or,
  if◌then◌else◌, List, [], ◌∷◌, take, drop, length,
}
use ops_class.Sfs.Metaio.{paste}

pub length-paste : (off : ℕ) (xs buf : List ℕ) → length (paste off xs buf) ≡ length buf
unfolding paste
length-paste off [] buf = refl
length-paste off (x ∷ xs) [] = refl
length-paste zero (x ∷ xs) (b ∷ buf) = ap suc (length-paste zero xs buf)
length-paste (suc off) (x ∷ xs) (b ∷ buf) = ap suc (length-paste off (x ∷ xs) buf)

pub get_or-paste :
    (off : ℕ) (xs buf : List ℕ) (i : ℕ)
    → off + length xs ≤ length buf
    → get_or (paste off xs buf) i 0
      ≡ (if leb off i && ltb i (off + length xs) then get_or xs (i - off) 0 else get_or buf i 0)
unfolding paste
get_or-paste off [] buf i h = ground arith
get_or-paste off (x ∷ xs) [] i h = absurd (omega arith)
get_or-paste zero (x ∷ xs) (b ∷ buf) zero h = ground arith
get_or-paste zero (x ∷ xs) (b ∷ buf) (suc i) h =
    get_or-paste zero xs buf i (omega arith) ∙ ground arith
get_or-paste (suc off) (x ∷ xs) (b ∷ buf) zero h = ground arith
get_or-paste (suc off) (x ∷ xs) (b ∷ buf) (suc i) h =
    get_or-paste off (x ∷ xs) buf i (omega arith) ∙ ground arith

pub get_or-take : (n i : ℕ) (xs : List ℕ) → i < n → get_or (take n xs) i 0 ≡ get_or xs i 0
get_or-take zero i xs h = absurd (omega arith)
get_or-take (suc n) i [] h = refl
get_or-take (suc n) zero (x ∷ xs) h = refl
get_or-take (suc n) (suc i) (x ∷ xs) h = get_or-take n i xs (omega arith)

pub get_or-drop : (n i : ℕ) (xs : List ℕ) → get_or (drop n xs) i 0 ≡ get_or xs (n + i) 0
get_or-drop zero i xs = ap (λ k. get_or xs k 0) (omega arith)
get_or-drop (suc n) i [] = refl
get_or-drop (suc n) i (x ∷ xs) =
    get_or-drop n i xs ∙ ap (λ k. get_or (x ∷ xs) k 0) {x = suc (n + i)} (omega arith)
