-- ===== src/Klib/Array.antt =====
-- kern/lib/array.c and kern/include/array.h: arrays of pointers that grow. Pointers are numbers.
pub mod Grow
pub mod Laws
pub mod Remove
use ops_class.Base.{
  ℕ, zero, suc, ◌+◌, ◌-◌, ◌*◌, ◌/◌, ◌%◌, ◌^◌, Option, none, some, List, [], ◌∷◌, not, ltb, leb,
  ◌==◌, if◌then◌else◌, get_or, set, length,
}
use ops_class.Base.Run.{Errno, enomem, Checked, value, panic, Run, done, fail, panicked, blocked}

-- `struct array`: `v` is the block of `max` slots.
pub record Array : Type 0 where
  pub v : List ℕ
  pub num : ℕ
  pub max : ℕ

-- `array_init`.
unfoldable pub init : Array
init = record { v = []; num = 0; max = 0 }

-- What kmalloc gives for a number of bytes: the slots of the block, with whatever they hold.
abbrev pub Kmalloc : Type 0
Kmalloc = ℕ → Option (List ℕ)

abbrev pub pointer_size : ℕ
pointer_size = 4

-- `while (num > newmax) { newmax = newmax ? newmax*2 : 4; }`, `none` past the rounds given.
pub grow : ℕ → ℕ → ℕ → Option ℕ
grow zero num newmax = if ltb newmax num then none else some newmax
grow (suc rounds) num newmax =
    let rest = grow rounds num (if newmax == 0 then 4 else newmax * 2 % 2 ^ 32) in
    if ltb newmax num then rest else some newmax

-- memcpy of the first `n` slots.
pub copy_slots : ℕ → List ℕ → List ℕ → List ℕ
copy_slots zero from to = to
copy_slots (suc n) [] to = to
copy_slots (suc n) (x ∷ from) [] = []
copy_slots (suc n) (x ∷ from) (y ∷ to) = x ∷ copy_slots n from to

-- The new block takes the place of the old.
pub moved_to : Array → ℕ → Option (List ℕ) → Run Array (Unit {0})
moved_to a newmax none = fail enomem a
moved_to a newmax (some block) = done tt (record a { v = copy_slots a.num a.v block; max = newmax })

-- A loop that has not ended after the rounds given counts as one that does not end.
pub resized : Kmalloc → Array → Option ℕ → Run Array (Unit {0})
resized kmalloc a none = blocked
resized kmalloc a (some newmax) = moved_to a newmax (kmalloc (newmax * pointer_size % 2 ^ 32))

-- The loop gets 40 rounds.
unfoldable pub preallocate : Kmalloc → ℕ → Array → Run Array (Unit {0})
preallocate kmalloc num a =
    if ltb a.max num then resized kmalloc a (grow 40 num a.max) else done tt a

pub sized : ℕ → Run Array (Unit {0}) → Run Array (Unit {0})
sized num (done _ a) = done tt (record a { num = num })
sized num (fail e a) = fail e a
sized num panicked = panicked
sized num blocked = blocked

unfoldable pub setsize : Kmalloc → ℕ → Array → Run Array (Unit {0})
setsize kmalloc num a = sized num (preallocate kmalloc num a)

-- The end of `array_add`.
pub stored : ℕ → ℕ → Run Array (Unit {0}) → Run Array ℕ
stored index val (done _ a) = done index (record a { v = set a.v index val })
stored index val (fail e a) = fail e a
stored index val panicked = panicked
stored index val blocked = blocked

unfoldable pub add : Kmalloc → ℕ → Array → Run Array ℕ
add kmalloc val a = stored a.num val (setsize kmalloc ((a.num + 1) % 2 ^ 32) a)

-- memmove of `n` slots from `index + 1` to `index`.
pub slide : ℕ → ℕ → List ℕ → List ℕ
slide index n [] = []
slide (suc index) n (x ∷ xs) = x ∷ slide index n xs
slide zero zero (x ∷ xs) = x ∷ xs
slide zero (suc n) (x ∷ []) = x ∷ []
slide zero (suc n) (x ∷ y ∷ xs) = y ∷ slide zero n (y ∷ xs)

unfoldable pub remove : ℕ → Array → Checked Array
remove index a =
    if not (leb a.num a.max)
    then panic
    else if not (ltb index a.num)
    then panic
    else value (record a { v = slide index (a.num - (index + 1)) a.v; num = a.num - 1 })

unfoldable pub get : Array → ℕ → Checked ℕ
get a index = if not (ltb index a.num) then panic else value (get_or a.v index 0)

unfoldable pub store : Array → ℕ → ℕ → Checked Array
store a index val =
    if not (ltb index a.num) then panic else value (record a { v = set a.v index val })
