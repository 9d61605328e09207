-- ===== src/Libc/Strings.antt =====
-- The string functions of common/libc/string, over a memory of bytes. The C loops have no bound;
-- each takes the number of rounds that it may run, and is `none` if these do not suffice.
pub mod Length
pub mod Copy
pub mod Search
use ops_class.Base.{
  ℕ, zero, suc, ◌+◌, ◌%◌, Bool, true, false, ◌&&◌, not, Option, none, some, ltb, ◌==◌,
  if◌then◌else◌,
}
use ops_class.Libc.Memory.{Mem, put}

-- `while (str[ret]) { ret++; }`.
pub strlen_loop : ℕ → ℕ → ℕ → Mem → Option ℕ
strlen_loop zero ret str mem = none
strlen_loop (suc n) ret str mem =
    let rest = strlen_loop n (ret + 1) str mem in if mem (str + ret) == 0 then some ret else rest

unfoldable pub strlen : ℕ → ℕ → Mem → Option ℕ
strlen rounds str mem = strlen_loop rounds 0 str mem

-- `for (i=0; src[i]; i++) { dest[i] = src[i]; }`, and the terminator.
pub strcpy_loop : ℕ → ℕ → ℕ → ℕ → Mem → Option Mem
strcpy_loop zero i dest src mem = none
strcpy_loop (suc n) i dest src mem =
    let rest = strcpy_loop n (i + 1) dest src (put mem (dest + i) (mem (src + i))) in
    if mem (src + i) == 0 then some (put mem (dest + i) 0) else rest

unfoldable pub strcpy : ℕ → ℕ → ℕ → Mem → Option Mem
strcpy rounds dest src mem = strcpy_loop rounds 0 dest src mem

-- `strcpy(dest+offset, src)` in strcat, once the offset is known.
pub append_at : ℕ → ℕ → ℕ → Mem → Option ℕ → Option Mem
append_at rounds dest src mem none = none
append_at rounds dest src mem (some offset) = strcpy rounds (dest + offset) src mem

unfoldable pub strcat : ℕ → ℕ → ℕ → Mem → Option Mem
strcat rounds dest src mem = append_at rounds dest src mem (strlen rounds dest mem)

-- 1, 0 and -1.
pub data Order : Type 0 where
  greater equal less : Order

-- The comparison after the loop, of `unsigned char`.
abbrev pub order_of : ℕ → ℕ → Order
order_of x y = if ltb y x then greater else if x == y then equal else less

pub strcmp_loop : ℕ → ℕ → ℕ → ℕ → Mem → Option Order
strcmp_loop zero i a b mem = none
strcmp_loop (suc n) i a b mem =
    let rest = strcmp_loop n (i + 1) a b mem in
    if not (mem (a + i) == 0) && mem (a + i) == mem (b + i)
    then rest
    else some (order_of (mem (a + i)) (mem (b + i)))

unfoldable pub strcmp : ℕ → ℕ → ℕ → Mem → Option Order
strcmp rounds a b mem = strcmp_loop rounds 0 a b mem

-- A pointer, `none` for NULL.
abbrev pub Pointer : Type 0
Pointer = Option ℕ

pub strchr_loop : ℕ → ℕ → ℕ → Mem → Option Pointer
strchr_loop zero s ch mem = none
strchr_loop (suc n) s ch mem =
    let rest = strchr_loop n (s + 1) ch mem in
    if mem s == 0
    then (if mem s == ch then some (some s) else some none)
    else if mem s == ch
    then some (some s)
    else rest

-- `ch_arg` is converted to `char`.
unfoldable pub strchr : ℕ → ℕ → ℕ → Mem → Option Pointer
strchr rounds s ch_arg mem = strchr_loop rounds s (ch_arg % 256) mem

-- The loop of strrchr, from the index `i` down.
pub strrchr_loop : ℕ → ℕ → ℕ → Mem → Pointer
strrchr_loop zero s ch mem = none
strrchr_loop (suc i) s ch mem =
    let rest = strrchr_loop i s ch mem in if mem (s + i) == ch then some (s + i) else rest

-- The search from behind the terminator, once the length is known.
pub search_back : ℕ → ℕ → Mem → Option ℕ → Option Pointer
search_back s ch mem none = none
search_back s ch mem (some n) = some (strrchr_loop (n + 1) s ch mem)

unfoldable pub strrchr : ℕ → ℕ → ℕ → Mem → Option Pointer
strrchr rounds s ch_arg mem = search_back s (ch_arg % 256) mem (strlen rounds s mem)
