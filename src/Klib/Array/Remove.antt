-- ===== src/Klib/Array/Remove.antt =====
-- array_remove, on the elements.
use ops_class.Base.{
  ℕ, zero, suc, ◌+◌, ◌-◌, ◌≤◌, ◌<◌, ◌≡◌, refl, ◌∙◌, ap, inl, inr, List, [], ◌∷◌, ltb, leb, ltb→lt,
  ltb→le, if◌then◌else◌, get_or, length, arith, Bool-cases, true,
}
use ops_class.Base.Run.{Checked, value, panic}
use ops_class.Klib.Array.{Array, slide, remove}
use ops_class.Klib.Array.Laws.{IsArray, elem}

length-slide : (index n : ℕ) (xs : List ℕ) → length (slide index n xs) ≡ length xs
unfolding slide
length-slide zero n [] = refl
length-slide (suc index) n [] = refl
length-slide (suc index) n (x ∷ xs) = ap suc (length-slide index n xs)
length-slide zero zero (x ∷ xs) = refl
length-slide zero (suc n) (x ∷ []) = refl
length-slide zero (suc n) (x ∷ y ∷ xs) = ap suc (length-slide zero n (y ∷ xs))

get_or-slide-zero :
    (n : ℕ) (xs : List ℕ) (i : ℕ)
    → i < n
    → n < length xs
    → get_or (slide zero n xs) i 0 ≡ get_or xs (suc i) 0
unfolding slide
get_or-slide-zero n [] i h l = absurd (omega arith)
get_or-slide-zero zero (x ∷ xs) i h l = absurd (omega arith)
get_or-slide-zero (suc n) (x ∷ []) i h l = absurd (omega arith)
get_or-slide-zero (suc n) (x ∷ y ∷ xs) zero h l = refl
get_or-slide-zero (suc n) (x ∷ y ∷ xs) (suc i) h l =
    get_or-slide-zero n (y ∷ xs) i (omega arith) (omega arith)

get_or-slide_before :
    (index n : ℕ) (xs : List ℕ) (i : ℕ) → i < index → get_or (slide index n xs) i 0 ≡ get_or xs i 0
unfolding slide
get_or-slide_before zero n xs i h = absurd (omega arith)
get_or-slide_before (suc index) n [] i h = refl
get_or-slide_before (suc index) n (x ∷ xs) zero h = refl
get_or-slide_before (suc index) n (x ∷ xs) (suc i) h =
    get_or-slide_before index n xs i (omega arith)

get_or-slide_after :
    (index n : ℕ) (xs : List ℕ) (i : ℕ)
    → index ≤ i
    → i < index + n
    → index + n < length xs
    → get_or (slide index n xs) i 0 ≡ get_or xs (suc i) 0
unfolding slide
get_or-slide_after zero n xs i low h l = get_or-slide-zero n xs i (omega arith) (omega arith)
get_or-slide_after (suc index) n [] i low h l = absurd (omega arith)
get_or-slide_after (suc index) n (x ∷ xs) zero low h l = absurd (omega arith)
get_or-slide_after (suc index) n (x ∷ xs) (suc i) low h l =
    get_or-slide_after index n xs i (omega arith) (omega arith) (omega arith)

-- What array_remove comes to: the element is gone and those behind it have moved up, or a panic
-- where there is none.
abbrev pub Removed : ℕ → Array → Checked Array → Type 0
Removed index a (value a') =
    IsArray a'
    × (index < a.num)
    × (a'.num ≡ a.num - 1)
    × ((i : ℕ) → i < a'.num → elem a' i ≡ elem a (if ltb i index then i else i + 1))
Removed index a panic = a.num ≤ index

-- array_remove takes out the element named and moves those behind it up by one, in order; it
-- panics exactly if there is no such element.
pub remove-Removed : (index : ℕ) (a : Array) → IsArray a → Removed index a (remove index a)
unfolding remove
remove-Removed index a v = elim (Bool-cases (ltb index a.num)) [
  | inr out ↦ rw (inside, out) (ltb→le index a.num out)
  | inl in_ ↦
      let lt = ltb→lt index a.num in_ in
      rw (inside, in_)
        (
          record {
            size = length-slide index (a.num - (index + 1)) a.v ∙ v.size;
            within = omega (arith, v.within);
            small = v.small;
          },
          lt,
          refl,
          λ i h. moved i h lt,
        )
]
  where
    inside : leb a.num a.max ≡ true
    inside = ground (arith, v.within)

    moved :
        (i : ℕ)
        → i < a.num - 1
        → index < a.num
        → get_or (slide index (a.num - (index + 1)) a.v) i 0
          ≡ get_or a.v (if ltb i index then i else i + 1) 0
    moved i h lt = elim (Bool-cases (ltb i index)) [
      | inl before ↦
          rw before (get_or-slide_before index (a.num - (index + 1)) a.v i (ltb→lt i index before))
      | inr after ↦ rw after (
          get_or-slide_after index (a.num - (index + 1)) a.v i (ltb→le i index after) (omega arith)
            (omega (arith, v.size, v.within))
          ∙ ap (λ k. get_or a.v k 0) (omega arith))
    ]
