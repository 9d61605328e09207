-- ===== src/Klib/Array/Laws.antt =====
-- array_preallocate and array_add, on the elements.
use ops_class.Base.{
  ℕ, zero, suc, ◌+◌, ◌*◌, ◌%◌, ◌^◌, ◌≤◌, ◌<◌, ◌≡◌, refl, ◌∙◌, ap, inl, inr, Option, none, some,
  List, [], ◌∷◌, ltb, ltb→lt, ltb→le, get_or, get_or-set_self, get_or-set_ne, length, length-set,
  arith, Bool-cases,
}
use ops_class.Base.Run.{Errno, enomem, Run, done, fail, panicked, blocked, Ensures, returns, fails}
use ops_class.Klib.Array.{
  Array, Kmalloc, pointer_size, grow, copy_slots, moved_to, resized, preallocate, sized, setsize,
  stored, add,
}
use ops_class.Klib.Array.Grow.{Enough, grow-Enough}

-- The element `i`.
abbrev pub elem : Array → ℕ → ℕ
elem a i = get_or a.v i 0

-- The block has `max` slots, and the elements are within.
pub record IsArray (a : Array) : Type 0 where
  pub size : length a.v ≡ a.max
  pub within : a.num ≤ a.max
  pub small : a.max < 2 ^ 30

-- A block from kmalloc has the size asked for.
abbrev pub Sized : Kmalloc → Type 0
Sized kmalloc =
    (bytes : ℕ) (block : List ℕ) → kmalloc bytes ≡ some block → length block * pointer_size ≡ bytes

length-copy_slots : (n : ℕ) (from to : List ℕ) → length (copy_slots n from to) ≡ length to
unfolding copy_slots
length-copy_slots zero from to = refl
length-copy_slots (suc n) [] to = refl
length-copy_slots (suc n) (x ∷ from) [] = refl
length-copy_slots (suc n) (x ∷ from) (y ∷ to) = ap suc (length-copy_slots n from to)

get_or-copy_slots :
    (n : ℕ) (from to : List ℕ) (i : ℕ)
    → i < n
    → n ≤ length from
    → n ≤ length to
    → get_or (copy_slots n from to) i 0 ≡ get_or from i 0
unfolding copy_slots
get_or-copy_slots zero from to i h f t = absurd (omega arith)
get_or-copy_slots (suc n) [] to i h f t = absurd (omega arith)
get_or-copy_slots (suc n) (x ∷ from) [] i h f t = absurd (omega arith)
get_or-copy_slots (suc n) (x ∷ from) (y ∷ to) zero h f t = refl
get_or-copy_slots (suc n) (x ∷ from) (y ∷ to) (suc i) h f t =
    get_or-copy_slots n from to i (omega arith) (omega arith) (omega arith)

-- There is room for `num` elements, and those that were there are as before.
pub record Roomy (num : ℕ) (a a' : Array) : Type 0 where
  pub valid : IsArray a'
  pub room : num ≤ a'.max
  pub same_num : a'.num ≡ a.num
  pub kept : (i : ℕ) → i < a.num → elem a' i ≡ elem a i

-- There was no memory, and nothing has changed.
abbrev pub NoMemory : Array → Errno → Array → Type 0
NoMemory a e a' = (e ≡ enomem) × (a' ≡ a)

module _ (kmalloc : Kmalloc) (law : Sized kmalloc) where
  moved_to-Roomy :
      (num newmax : ℕ) (a : Array) (r : Option (List ℕ))
      → IsArray a
      → a.max < num
      → num ≤ newmax
      → newmax < 2 ^ 30
      → ((block : List ℕ) → r ≡ some block → length block ≡ newmax)
      → Ensures (λ _ a'. Roomy num a a') (NoMemory a) (moved_to a newmax r)
  unfolding moved_to
  moved_to-Roomy num newmax a none v more enough high l = fails (refl, refl)
  moved_to-Roomy num newmax a (some block) v more enough high l =
      let size : length block ≡ newmax = l block refl in
      returns (record {
        valid = record {
          size = length-copy_slots a.num a.v block ∙ size;
          within = omega (arith, v.within);
          small = high;
        };
        room = enough;
        same_num = refl;
        kept = λ i h.
            get_or-copy_slots a.num a.v block i h (omega (arith, v.size, v.within))
              (omega (arith, size, v.within));
      })

  -- For up to 2^29 elements array_preallocate ends, with room for them and the elements as they
  -- were, or with ENOMEM and nothing changed.
  pub preallocate-Roomy :
      (num : ℕ) (a : Array)
      → IsArray a
      → num ≤ 2 ^ 29
      → Ensures (λ _ a'. Roomy num a a') (NoMemory a) (preallocate kmalloc num a)
  unfolding preallocate resized
  preallocate-Roomy num a v small = elim (Bool-cases (ltb a.max num)) [
    | inl more ↦
        let lt = ltb→lt a.max num more in
        let g : Enough num (grow 40 num a.max) = grow-Enough num a.max v.small small in
        let bytes : g.0 * pointer_size % 2 ^ 32 ≡ g.0 * pointer_size = omega (arith, g.3) in
        rw (more, g.1, bytes)
          (moved_to-Roomy num g.0 a (kmalloc (g.0 * pointer_size)) v lt g.2 g.3
            (λ block e. omega (arith, law (g.0 * pointer_size) block e)))
    | inr enough ↦ rw enough (
        returns (record {
          valid = v;
          room = ltb→le a.max num enough;
          same_num = refl;
          kept = λ i h. refl;
        }))
  ]

  -- `val` is the last element, its index is handed back, and the others are as before.
  abbrev pub Added : ℕ → Array → ℕ → Array → Type 0
  Added val a index a' =
      IsArray a'
      × (index ≡ a.num)
      × (a'.num ≡ a.num + 1)
      × (elem a' a.num ≡ val)
      × ((i : ℕ) → i < a.num → elem a' i ≡ elem a i)

  stored-Added :
      (val : ℕ) (a : Array) (r : Run Array (Unit {0}))
      → Ensures (λ _ a'. Roomy (a.num + 1) a a') (NoMemory a) r
      → Ensures (Added val a) (NoMemory a) (stored a.num val (sized (a.num + 1) r))
  unfolding stored sized
  stored-Added val a (done _ a') (returns p) = returns (
    record {
      size = length-set a'.v a.num val ∙ p.valid.size;
      within = p.room;
      small = p.valid.small;
    },
    refl,
    refl,
    get_or-set_self a'.v a.num val 0 (omega (arith, p.room, p.valid.size)),
    λ i h. get_or-set_ne a'.v a.num i val 0 (omega arith) ∙ p.kept i h,
  )
  stored-Added val a (fail e a') (fails p) = fails p
  stored-Added val a panicked r = elim r [ ]
  stored-Added val a blocked r = elim r [ ]

  -- array_add on an array of less than 2^29 elements puts the value behind the others, which are as
  -- before, and hands its index back, or returns ENOMEM with nothing changed.
  pub add-Added :
      (val : ℕ) (a : Array)
      → IsArray a
      → a.num < 2 ^ 29
      → Ensures (Added val a) (NoMemory a) (add kmalloc val a)
  unfolding add setsize
  add-Added val a v small =
      let next : (a.num + 1) % 2 ^ 32 ≡ a.num + 1 = omega arith in
      rw next (
        stored-Added val a (preallocate kmalloc (a.num + 1) a)
          (preallocate-Roomy (a.num + 1) a v (omega arith)))
