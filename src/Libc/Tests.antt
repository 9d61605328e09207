-- ===== src/Libc/Tests.antt =====
-- The memory and string functions at concrete regions.
use ops_class.Base.{◌+◌, ℕ, ◌<◌, ◌≢◌, ◌==◌, if◌then◌else◌, ◌%◌, ◌≡◌, refl, arith}
use ops_class.Libc.Memory.{Mem, memmove}
use ops_class.Libc.Memory.Copy.{Moved}
use ops_class.Libc.Memory.Move.{memmove-Moved}
use ops_class.Libc.Strings.{strcmp}
use ops_class.Libc.Strings.Length.{IsString, Compared, strcmp-Compared}

-- Each byte holds the low byte of its address.
abbrev counting : Mem
counting a = a % 256

move_up : memmove 102 100 5 counting 106 ≡ 104
unfolding memmove
move_up = refl

memmove-Moved_example : Moved counting 102 100 0 5 (memmove 102 100 5 counting)
memmove-Moved_example = memmove-Moved counting 102 100 5

-- "ab" at 10 and "abc" at 20.
abbrev two_strings : Mem
two_strings a =
    if a == 10
    then 97
    else if a == 11
    then 98
    else if a == 20
    then 97
    else if a == 21
    then 98
    else if a == 22
    then 99
    else 0

ab-IsString : IsString two_strings 10 2
ab-IsString = record { chars = chars; terminator = refl }
  where
    chars : (i : ℕ) → i < 2 → two_strings (10 + i) ≢ 0
    chars i h z = ground (arith, h, z)

abc-IsString : IsString two_strings 20 3
abc-IsString = record { chars = chars; terminator = refl }
  where
    chars : (i : ℕ) → i < 3 → two_strings (20 + i) ≢ 0
    chars i h z = ground (arith, h, z)

strcmp-Compared_example : Compared two_strings 10 20 (strcmp 100 10 20 two_strings)
strcmp-Compared_example = strcmp-Compared 100 10 20 2 two_strings ab-IsString (omega arith)
