-- ===== src/Libc/Memory.antt =====
-- memcpy, memmove, memset and bzero of common/libc/string, over a memory of bytes.
pub mod Copy
pub mod Move
pub mod Fill
use ops_class.Base.{
  ℕ, zero, suc, ◌+◌, ◌-◌, ◌*◌, ◌/◌, ◌%◌, Bool, ◌&&◌, ◌==◌, ltb, leb, if◌then◌else◌,
}

abbrev pub Mem : Type 0
Mem = ℕ → ℕ

-- A byte is stored.
abbrev pub put : Mem → ℕ → ℕ → Mem
put mem a v x = if a == x then v else mem x

-- `sizeof(long)` on the 32-bit target.
abbrev pub long_size : ℕ
long_size = 4

-- `*(long *)d = *(const long *)s`: the four bytes are read before they are stored.
abbrev pub move_long : Mem → ℕ → ℕ → Mem
move_long mem d s =
    put (put (put (put mem d (mem s)) (d + 1) (mem (s + 1))) (d + 2) (mem (s + 2))) (d + 3)
      (mem (s + 3))

abbrev pub aligned : ℕ → ℕ → ℕ → Bool
aligned dst src len = dst % long_size == 0 && (src % long_size == 0 && len % long_size == 0)

-- `for (i...; i<len; i++) { d[i] = s[i]; }`, with the rounds that are left.
unfoldable pub copy_up : ℕ → ℕ → ℕ → ℕ → Mem → Mem
copy_up zero i dst src mem = mem
copy_up (suc n) i dst src mem = copy_up n (i + 1) dst src (put mem (dst + i) (mem (src + i)))

pub copy_longs_up : ℕ → ℕ → ℕ → ℕ → Mem → Mem
copy_longs_up zero i dst src mem = mem
copy_longs_up (suc n) i dst src mem =
    copy_longs_up n (i + 1) dst src (move_long mem (dst + i * 4) (src + i * 4))

-- `for (i=len; i>0; i--) { d[i-1] = s[i-1]; }`.
pub copy_down : ℕ → ℕ → ℕ → Mem → Mem
copy_down zero dst src mem = mem
copy_down (suc n) dst src mem = copy_down n dst src (put mem (dst + n) (mem (src + n)))

pub copy_longs_down : ℕ → ℕ → ℕ → Mem → Mem
copy_longs_down zero dst src mem = mem
copy_longs_down (suc n) dst src mem =
    copy_longs_down n dst src (move_long mem (dst + n * 4) (src + n * 4))

unfoldable pub memcpy : ℕ → ℕ → ℕ → Mem → Mem
unfolding copy_up copy_longs_up
memcpy dst src len mem =
    if aligned dst src len
    then copy_longs_up (len / long_size) 0 dst src mem
    else copy_up len 0 dst src mem

unfoldable pub memmove : ℕ → ℕ → ℕ → Mem → Mem
unfolding memcpy copy_down copy_longs_down
memmove dst src len mem =
    if ltb dst src
    then memcpy dst src len mem
    else if aligned dst src len
    then copy_longs_down (len / long_size) dst src mem
    else copy_down len dst src mem

-- `for (i=0; i<len; i++) { p[i] = ch; }`.
pub fill : ℕ → ℕ → ℕ → ℕ → Mem → Mem
fill zero i p ch mem = mem
fill (suc n) i p ch mem = fill n (i + 1) p ch (put mem (p + i) ch)

pub zero_longs : ℕ → ℕ → ℕ → Mem → Mem
zero_longs zero i p mem = mem
zero_longs (suc n) i p mem =
    let a = p + i * 4 in
    zero_longs n (i + 1) p (put (put (put (put mem a 0) (a + 1) 0) (a + 2) 0) (a + 3) 0)

-- `ch` is converted to `char`.
unfoldable pub memset : ℕ → ℕ → ℕ → Mem → Mem
unfolding fill
memset p ch len mem = fill len 0 p (ch % 256) mem

unfoldable pub bzero : ℕ → ℕ → Mem → Mem
unfolding fill zero_longs
bzero p len mem =
    if p % long_size == 0 && len % long_size == 0
    then zero_longs (len / long_size) 0 p mem
    else fill len 0 p 0 mem
