-- ===== src/Vfs/Tests.antt =====
-- The big lock made by thread 1.
use ops_class.Base.{◌≡◌, true, false, arith}
use ops_class.Base.Run.{value, panic}
use ops_class.Vfs.BigLock.{entered, waits, acquire, release, do_i_hold}
use ops_class.Vfs.BigLock.Laws.{
  held, free, acquire_all, release_all, acquire-release_nested, acquire-release_other,
}

acquire-release_nested_example :
    (acquire_all 3 1 (free 1) ≡ entered (held 1 3))
    × (do_i_hold (held 1 3) 1 ≡ true)
    × (release_all 3 1 (held 1 3) ≡ value (free 1))
acquire-release_nested_example = acquire-release_nested 2 1 (omega arith)

acquire-release_other_example :
    (acquire (free 1) 2 ≡ entered (held 1 1))
    × (do_i_hold (held 1 1) 2 ≡ false)
    × (acquire (held 1 1) 2 ≡ waits)
    × (release (held 1 1) 2 ≡ panic)
acquire-release_other_example = acquire-release_other 1 2 (λ e. omega (arith, e))
