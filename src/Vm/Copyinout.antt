-- ===== src/Vm/Copyinout.antt =====
-- kern/vm/copyinout.c: copying between the kernel and user space. The access to user memory may
-- fault; then `copyfail` brings the call back to its `setjmp`, and it returns EFAULT.
pub mod Check
pub mod Strings
use ops_class.Base.{
  ℕ, zero, suc, ◌+◌, ◌-◌, ◌%◌, ◌^◌, min, Bool, true, false, ◌||◌, not, Option, none, some, ltb, leb,
  ◌==◌, if◌then◌else◌,
}
use ops_class.Base.Run.{Errno, efault, enametoolong, Cmd, Run, done, fail, panicked, blocked}
use ops_class.Libc.Memory.{Mem, put, copy_up, memcpy}

-- `USERSPACETOP`.
abbrev pub userspacetop : ℕ
userspacetop = 0x8000_0000

-- `copycheck`: `*stoplen`, or `none` for EFAULT.
unfoldable pub copycheck : ℕ → ℕ → Option ℕ
copycheck userptr len =
    let bot = userptr in
    let top = (bot + len + 2 ^ 32 - 1) % 2 ^ 32 in
    if ltb top bot
    then none
    else if leb userspacetop bot
    then none
    else if leb userspacetop top
    then some (userspacetop - bot)
    else some len

-- The memory, and whether `tm_badfaultfunc` of the current thread is `copyfail`.
pub record Kernel : Type 0 where
  pub mem : Mem
  pub armed : Bool

-- Whether an access to a user address succeeds, after whatever the VM system does for it.
abbrev pub Mapped : Type 0
Mapped = ℕ → Bool

-- How many of `n` bytes at `addr` can be accessed before the first fault.
pub reach : Mapped → ℕ → ℕ → ℕ
reach ok addr zero = 0
reach ok addr (suc n) = let more = reach ok (addr + 1) n in if ok addr then more + 1 else 0

-- `memcpy` between `setjmp` and the end, with the user's bytes at `user`. A fault stops it after
-- the bytes before, and only a thread with `tm_badfaultfunc` set survives it.
pub user_memcpy : Mapped → ℕ → ℕ → ℕ → ℕ → Cmd Kernel (Unit {0})
user_memcpy ok user dest src len k =
    let n = reach ok user len in
    if n == len
    then done tt (record { mem = memcpy dest src len k.mem; armed = false })
    else if k.armed
    then fail efault (record { mem = copy_up n 0 dest src k.mem; armed = false })
    else panicked

-- `copyin` and `copyout` from `copycheck` on: `user` is the user address of the two.
pub checked_memcpy : Option ℕ → Mapped → ℕ → ℕ → ℕ → ℕ → Cmd Kernel (Unit {0})
checked_memcpy none ok user dest src len k = fail efault k
checked_memcpy (some stoplen) ok user dest src len k =
    if not (stoplen == len)
    then fail efault k
    else user_memcpy ok user dest src len (record k { armed = true })

unfoldable pub copyin : Mapped → ℕ → ℕ → ℕ → Cmd Kernel (Unit {0})
copyin ok usersrc dest len = checked_memcpy (copycheck usersrc len) ok usersrc dest usersrc len

unfoldable pub copyout : Mapped → ℕ → ℕ → ℕ → Cmd Kernel (Unit {0})
copyout ok src userdest len = checked_memcpy (copycheck userdest len) ok userdest userdest src len

-- How the loop of `copystr` ends: with the terminator, whose position plus one is given, at the end
-- of the space, or with a fault.
pub data Scan : Type 0 where
  ends : ℕ → Mem → Scan
  runs_out faults : Mem → Scan

-- The loop of `copystr` from `i` on, with the rounds that are left.
pub scan : Mapped → ℕ → ℕ → ℕ → ℕ → ℕ → Mem → Scan
scan ok user dest src zero i mem = runs_out mem
scan ok user dest src (suc n) i mem =
    let mem' = put mem (dest + i) (mem (src + i)) in
    let rest = scan ok user dest src n (i + 1) mem' in
    if not (ok (user + i))
    then faults mem
    else if mem' (src + i) == 0
    then ends (i + 1) mem'
    else rest

-- What `copystr` and the code around it return.
pub scanned : ℕ → ℕ → Bool → Scan → Run Kernel ℕ
scanned maxlen stoplen armed (ends got mem) = done got (record { mem = mem; armed = false })
scanned maxlen stoplen armed (runs_out mem) =
    let k : Kernel = record { mem = mem; armed = false } in
    if ltb stoplen maxlen then fail efault k else fail enametoolong k
scanned maxlen stoplen armed (faults mem) =
    if armed then fail efault (record { mem = mem; armed = false }) else panicked

pub copystr : Mapped → ℕ → ℕ → ℕ → ℕ → ℕ → Cmd Kernel ℕ
copystr ok user dest src maxlen stoplen k =
    scanned maxlen stoplen k.armed (scan ok user dest src (min maxlen stoplen) 0 k.mem)

pub checked_copystr : Option ℕ → Mapped → ℕ → ℕ → ℕ → ℕ → Cmd Kernel ℕ
checked_copystr none ok user dest src len k = fail efault k
checked_copystr (some stoplen) ok user dest src len k =
    copystr ok user dest src len stoplen (record k { armed = true })

unfoldable pub copyinstr : Mapped → ℕ → ℕ → ℕ → Cmd Kernel ℕ
copyinstr ok usersrc dest len = checked_copystr (copycheck usersrc len) ok usersrc dest usersrc len

unfoldable pub copyoutstr : Mapped → ℕ → ℕ → ℕ → Cmd Kernel ℕ
copyoutstr ok src userdest len =
    checked_copystr (copycheck userdest len) ok userdest userdest src len
