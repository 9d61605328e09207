-- ===== src/Klib/Tests.antt =====
-- The kernel library at small values.
use ops_class.Klib.Uio.{Io, uio_sysspace, uio_read, uio_write, uiomove, kinit}
use ops_class.Klib.Uio.Account.{Accounted, Accounts, uiomove-Accounts}
use ops_class.Klib.Uio.Bytes.{MovedBytes, uiomove-MovedBytes}
use ops_class.Base.{
  ◌==◌, if◌then◌else◌, Bool-cases, inl, inr, ℕ, ◌+◌, ◌*◌, ◌/◌, ◌%◌, ◌≡◌, refl, arith, List, [], ◌∷◌,
  Option, none, some, length, length-replicate, replicate, ap, true, false,
}
use ops_class.Base.Run.{Ensures}
use ops_class.Klib.Bswap.{bswap32, bswap64}
use ops_class.Klib.Array.{Array, Kmalloc, add, remove, grow}
use ops_class.Klib.Array.Grow.{Enough, grow-Enough}
use ops_class.Klib.Array.Remove.{Removed, remove-Removed}
use ops_class.Klib.Array.Laws.{IsArray, Sized, NoMemory, Added, add-Added}

swapped : bswap32 0x0102_0304 ≡ 0x0403_0201
unfolding bswap32
swapped = refl

-- The byte 0x01 does not come out at the other end.
not_swapped : bswap64 0x0000_0100_0000_0000 ≡ 0
unfolding bswap64
not_swapped = refl

-- Every request is granted, with zeros.
kmalloc : Kmalloc
kmalloc bytes = if bytes % 4 == 0 then some (replicate (bytes / 4) 0) else none

kmalloc-Sized : Sized kmalloc
unfolding kmalloc
kmalloc-Sized bytes block = elim (Bool-cases (bytes % 4 == 0)) [
  | inl whole ↦ rw whole (λ e. sized_by e (ground (arith, whole)))
  | inr part ↦ rw part (λ e. absurd (none_some e))
]
  where
    slots : Option (List ℕ) → ℕ
    slots none = 0
    slots (some block) = length block * 4 + 1

    none_some : none ≡ some block → ⊥
    none_some e = omega (arith, ap slots e)

    sized_by :
        some (replicate (bytes / 4) 0) ≡ some block
        → bytes / 4 * 4 ≡ bytes
        → length block * 4 ≡ bytes
    sized_by e w = omega (arith, ap slots e, length-replicate {A = ℕ} (bytes / 4) 0, w)

abbrev three : Array
three = record { v = 7 ∷ 8 ∷ 9 ∷ 0 ∷ []; num = 3; max = 4 }

three-IsArray : IsArray three
three-IsArray = record { size = refl; within = omega arith; small = omega arith }

grow-Enough_example : Enough 9 (grow 40 9 4)
grow-Enough_example = grow-Enough 9 4 (omega arith) (omega arith)

add-Added_example :
    Ensures (Added kmalloc kmalloc-Sized 10 three) (NoMemory three) (add kmalloc 10 three)
add-Added_example = add-Added kmalloc kmalloc-Sized 10 three three-IsArray (omega arith)

remove-Removed_example : Removed 1 three (remove 1 three)
remove-Removed_example = remove-Removed 1 three three-IsArray

-- Two kernel buffers, the first of them used up.
abbrev two_buffers : Io
two_buffers = record {
  kernel = record { mem = λ a. a % 256; armed = false };
  uio = record {
    iov = record { base = 100; len = 0 } ∷ record { base = 200; len = 8 } ∷ [];
    offset = 40;
    resid = 8;
    segflg = uio_sysspace;
    rw_ = uio_read;
    space = none;
  };
}

two_buffers-Accounted : Accounted (two_buffers.uio) 0 (two_buffers.uio)
two_buffers-Accounted = record {
  resid = refl;
  offset = refl;
  buffers = refl;
  segflg = refl;
  rw_ = refl;
  space = refl;
}

uiomove-Accounts_example :
    Accounts (λ a. true) (two_buffers.uio) 5 (uiomove (λ a. true) none 1000 5 two_buffers)
uiomove-Accounts_example =
    uiomove-Accounts (λ a. true) (two_buffers.uio) (omega arith) none 1000 5 two_buffers refl
      two_buffers-Accounted

uiomove-MovedBytes_example :
    MovedBytes
      (λ a. true)
      1000
      1004
      16
      9
      0
      (record { mem = λ a. a % 256; armed = false })
      uio_write
      9
      (uiomove
        (λ a. true)
        none
        1000
        9
        (record {
          kernel = record { mem = λ a. a % 256; armed = false };
          uio = kinit 1004 16 0 uio_write;
        }))
uiomove-MovedBytes_example =
    uiomove-MovedBytes (λ a. true) 1000 1004 16 9 0 (record { mem = λ a. a % 256; armed = false })
      none uio_write (omega arith)
