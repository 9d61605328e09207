-- ===== src/Vm/Kmalloc/Count.antt =====
-- How many numbers below a bound have a property, and lists of numbers without repetition.
use ops_class.Base.{
  ℕ, zero, suc, ◌+◌, ◌≤◌, ◌<◌, ◌≡◌, ◌≢◌, refl, inl, inr, Bool, true, false, List, [], ◌∷◌, ◌==◌,
  if◌then◌else◌, arith, Bool-cases, ==→eq, ==→ne, eq→==, ne→==,
}

module _ {A : Type 0} where
  abbrev pub put : (ℕ → A) → ℕ → A → ℕ → A
  put f i v j = if i == j then v else f j

abbrev pub bit : Bool → ℕ
bit b = if b then 1 else 0

unfoldable pub count : (ℕ → Bool) → ℕ → ℕ
count f zero = 0
count f (suc n) = bit (f n) + count f n

abbrev pub has : ℕ → List ℕ → Bool
has j [] = false
has j (x ∷ xs) = if x == j then true else has j xs

abbrev pub Distinct : List ℕ → Type 0
Distinct [] = Unit
Distinct (x ∷ xs) = (has x xs ≡ false) × Distinct xs

pub put_here : {A : Type 0} (f : ℕ → A) (i : ℕ) (v : A) → put f i v i ≡ v
put_here f i v = rw (eq→== i i refl) refl

pub put_other : {A : Type 0} (f : ℕ → A) (i j : ℕ) (v : A) → i ≢ j → put f i v j ≡ f j
put_other f i j v ne = rw (ne→== i j ne) refl

count-put_out : (f : ℕ → Bool) (i n : ℕ) (v : Bool) → n ≤ i → count (put f i v) n ≡ count f n
unfolding count
count-put_out f i zero v h = refl
count-put_out f i (suc n) v h =
    rw (put_other f i n v (λ e. omega arith), count-put_out f i n v (omega arith)) refl

pub count-put :
    (f : ℕ → Bool) (i n : ℕ) (v : Bool)
    → i < n
    → count (put f i v) n + bit (f i) ≡ count f n + bit v
unfolding count
count-put f i zero v h = absurd (omega arith)
count-put f i (suc n) v h = elim (Bool-cases (i == n)) [
  | inl e ↦
      let same = ==→eq i n e in rw (e, count-put_out f i n v (omega arith), same) (omega arith)
  | inr ne ↦ let apart = ==→ne i n ne in rw ne (omega (arith, count-put f i n v (omega arith)))
]

pub count-below : (f : ℕ → Bool) (n : ℕ) → count f n ≤ n
unfolding count
count-below f zero = omega arith
count-below f (suc n) = ground (arith, count-below f n)

pub count-full : (f : ℕ → Bool) (n : ℕ) → ((i : ℕ) → i < n → f i ≡ true) → count f n ≡ n
unfolding count
count-full f zero h = refl
count-full f (suc n) h =
    rw (h n (omega arith)) (omega (arith, count-full f n (λ i l. h i (omega arith))))

pub count-none : (n : ℕ) → count (λ j. false) n ≡ 0
unfolding count
count-none zero = refl
count-none (suc n) = omega (arith, count-none n)

-- If as many numbers as can have the property have it, all do.
pub count-all : (f : ℕ → Bool) (i n : ℕ) → count f n ≡ n → i < n → f i ≡ true
count-all f i n full h = elim (Bool-cases (f i)) [
  | inl t ↦ t
  | inr ff ↦
      let more = count-put f i n true h in
      let most = count-below (put f i true) n in absurd (rw_impossible f i n ff full more most)
]
  where
    rw_impossible :
        (f : ℕ → Bool) (i n : ℕ)
        → f i ≡ false
        → count f n ≡ n
        → count (put f i true) n + bit (f i) ≡ count f n + 1
        → count (put f i true) n ≤ n
        → ⊥
    rw_impossible f i n ff full more most = ground (arith, ff)
