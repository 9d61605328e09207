-- ===== src/Sfs/Words.antt =====
-- A disk block read as an array of `uint32_t`, on the big-endian target.
use ops_class.Base.{
  ℕ, zero, suc, ◌+◌, ◌*◌, ◌/◌, ◌%◌, ◌^◌, ◌<◌, ◌≡◌, refl, ap₂, List, [], ◌∷◌, arith, length, get_or,
  drop, ap, ◌∙◌, replicate, get_or-replicate,
}

-- `static uint32_t idbuf[SFS_DBPERIDB]` filled with the bytes of a block: `n` words.
unfoldable pub words : ℕ → List ℕ → List ℕ
words zero bytes = []
words (suc n) bytes =
    (get_or bytes 0 0 * 2 ^ 24
      + get_or bytes 1 0 * 2 ^ 16
      + get_or bytes 2 0 * 2 ^ 8
      + get_or bytes 3 0)
    ∷ words n (drop 4 bytes)

-- The bytes of the buffer, as they are written out.
unfoldable pub bytes_of : List ℕ → List ℕ
bytes_of [] = []
bytes_of (w ∷ ws) =
    (w / 2 ^ 24 % 256) ∷ (w / 2 ^ 16 % 256) ∷ (w / 2 ^ 8 % 256) ∷ (w % 256) ∷ bytes_of ws

abbrev pub AreWords : List ℕ → Type 0
AreWords ws = (i : ℕ) → get_or ws i 0 < 2 ^ 32

pub words-bytes_of : (ws : List ℕ) → AreWords ws → words (length ws) (bytes_of ws) ≡ ws
unfolding words bytes_of
words-bytes_of [] h = refl
words-bytes_of (w ∷ ws) h = ap₂ ◌∷◌ (omega (arith, h 0)) (words-bytes_of ws (λ i. h (suc i)))

pub length-words : (n : ℕ) (bytes : List ℕ) → length (words n bytes) ≡ n
unfolding words
length-words zero bytes = refl
length-words (suc n) bytes = omega (arith, length-words n (drop 4 bytes))

pub length-bytes_of : (ws : List ℕ) → length (bytes_of ws) ≡ 4 * length ws
unfolding bytes_of
length-bytes_of [] = refl
length-bytes_of (w ∷ ws) = omega (arith, length-bytes_of ws)

pub bytes_of-lt : (ws : List ℕ) (i : ℕ) → get_or (bytes_of ws) i 0 < 256
unfolding bytes_of
bytes_of-lt [] i = omega arith
bytes_of-lt (w ∷ ws) zero = omega arith
bytes_of-lt (w ∷ ws) (suc zero) = omega arith
bytes_of-lt (w ∷ ws) (suc (suc zero)) = omega arith
bytes_of-lt (w ∷ ws) (suc (suc (suc zero))) = omega arith
bytes_of-lt (w ∷ ws) (suc (suc (suc (suc i)))) = bytes_of-lt ws i

get_or-drop : (n i : ℕ) (xs : List ℕ) → get_or (drop n xs) i 0 ≡ get_or xs (n + i) 0
get_or-drop zero i xs = ap (λ k. get_or xs k 0) (omega arith)
get_or-drop (suc n) i [] = refl
get_or-drop (suc n) i (x ∷ xs) =
    get_or-drop n i xs ∙ ap (λ k. get_or (x ∷ xs) k 0) {x = suc (n + i)} (omega arith)

pub words-AreWords :
    (n : ℕ) (bytes : List ℕ) → ((i : ℕ) → get_or bytes i 0 < 256) → AreWords (words n bytes)
unfolding words
words-AreWords zero bytes h i = omega arith
words-AreWords (suc n) bytes h zero = omega (arith, h 0, h 1, h 2, h 3)
words-AreWords (suc n) bytes h (suc i) =
    words-AreWords n (drop 4 bytes) (λ j. omega (arith, get_or-drop 4 j bytes, h (4 + j))) i

words_of_zeros :
    (n i : ℕ) (bytes : List ℕ) → ((j : ℕ) → get_or bytes j 0 ≡ 0) → get_or (words n bytes) i 0 ≡ 0
unfolding words
words_of_zeros zero i bytes h = refl
words_of_zeros (suc n) zero bytes h = omega (arith, h 0, h 1, h 2, h 3)
words_of_zeros (suc n) (suc i) bytes h =
    words_of_zeros n i (drop 4 bytes) (λ j. omega (arith, get_or-drop 4 j bytes, h (4 + j)))

pub words-replicate : (n m i : ℕ) → get_or (words n (replicate m 0)) i 0 ≡ 0
words-replicate n m i = words_of_zeros n i (replicate m 0) (λ j. get_or-replicate m j 0)

pub words_zeros : words 128 (replicate 512 0) ≡ replicate 128 0
unfolding words
words_zeros = refl
