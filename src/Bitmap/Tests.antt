-- ===== src/Bitmap/Tests.antt =====
-- The bitmap's theorems at concrete maps.
use ops_class.Base.{◌≡◌, refl, true, arith, [], ◌∷◌, some}
use ops_class.Base.Bits.{bit_set, set_bit, clear_bit}
use ops_class.Base.Run.{value, done, fail, enospc}
use ops_class.Bitmap.{Bitmap, create, alloc, mark, unmark}
use ops_class.Bitmap.Valid.{IsValid}
use ops_class.Bitmap.Alloc.{Allocated, alloc-Allocated}
use ops_class.Bitmap.Mark.{mark-Turned}
use ops_class.Bitmap.Create.{Fresh, create-Fresh}

-- Ten bits: the first nine in use, and the six past the end.
abbrev ten : Bitmap
ten = record { nbits = 10; v = 255 ∷ 253 ∷ [] }

abbrev ten_full : Bitmap
ten_full = record { nbits = 10; v = 255 ∷ 255 ∷ [] }

create_ten : create true true 10 ≡ value (some (record { nbits = 10; v = 0 ∷ 252 ∷ [] }))
unfolding create set_bit
create_ten = refl

alloc-ten : alloc ten ≡ done 9 ten_full
unfolding alloc bit_set set_bit
alloc-ten = refl

alloc_full : alloc ten_full ≡ fail enospc ten_full
unfolding alloc
alloc_full = refl

unmark-ten : unmark ten_full 9 ≡ value ten
unfolding unmark bit_set clear_bit
unmark-ten = refl

-- Ten bits as they are made, and with bit 3 in use.
abbrev pub made : Bitmap
made = record { nbits = 10; v = 0 ∷ 252 ∷ [] }

abbrev made_three : Bitmap
made_three = record { nbits = 10; v = 8 ∷ 252 ∷ [] }

pub made-IsValid : IsValid made
unfolding create set_bit
made-IsValid = (create-Fresh 10 (omega arith)).0

made_three-IsValid : IsValid made_three
unfolding mark set_bit bit_set
made_three-IsValid = (mark-Turned 3 made-IsValid).3

create-Fresh_example : Fresh 10 (value (some made))
unfolding create set_bit
create-Fresh_example = create-Fresh 10 (omega arith)

alloc-Allocated_example : Allocated made_three (alloc made_three)
alloc-Allocated_example = alloc-Allocated made_three-IsValid
