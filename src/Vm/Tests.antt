-- ===== src/Vm/Tests.antt =====
-- The virtual memory code on a small machine: a megabyte of memory from the first megabyte on.
use ops_class.Base.{
  ℕ, ◌%◌, ◌≡◌, ◌≢◌, refl, inl, inr, true, false, some, [], ◌∷◌, arith, replicate, not, ltb,
}
use ops_class.Base.Run.{Ensures, enosys}
use ops_class.Vm.Ram.{Ram, page_size}
use ops_class.Vm.Ram.Laws.{IsValid, steal_all, Stacked, steal_all-Stacked}
use ops_class.Vm.Dumbvm.{AddrSpace, Machine, read, write, translate, vm_fault}
use ops_class.Vm.Dumbvm.Fault.{IsReady, Faulted, vm_fault-Faulted}
use ops_class.Vm.Dumbvm.Sharing.{translate-injective}
use ops_class.Vm.Space.{Loading, as_define_region, as_prepare_load, as_copy, empty_space}
use ops_class.Vm.Space.Region.{Defined, as_define_region-Defined}
use ops_class.Vm.Space.Load.{IsIdle, Prepared, NoRoom, as_prepare_load-Prepared}
use ops_class.Vm.Space.Copy.{IsLoaded, Copied, NoCopy, as_copy-Copied}
use ops_class.Vm.Copyinout.{Kernel, Mapped, copycheck, copyin, copyout, copyinstr, copyoutstr}
use ops_class.Vm.Copyinout.Check.{
  Checked, copycheck-Checked, CopiedUser, Fault, copyin-CopiedUser, copyout-CopiedUser,
}
use ops_class.Vm.Copyinout.Strings.{Got, NotGot, copyinstr-Got, copyoutstr-Got}

abbrev two_megabytes : Ram
two_megabytes = record { firstpaddr = 0x10_0000; lastpaddr = 0x20_0000 }

two_megabytes-IsValid : IsValid two_megabytes
two_megabytes-IsValid = record {
  above_zero = omega arith;
  ordered = omega arith;
  reach = omega arith;
  at_page = omega arith;
}

steal_all-Stacked_example :
    Stacked 0x10_0000 0x20_0000 (steal_all (3 ∷ 1000 ∷ 2 ∷ []) two_megabytes)
steal_all-Stacked_example =
    steal_all-Stacked (3 ∷ 1000 ∷ 2 ∷ []) two_megabytes-IsValid
      (omega arith, (omega arith, (omega arith, tt)))

-- One TLB entry is valid.
abbrev machine : Machine
machine = record {
  ram = two_megabytes;
  mem = λ a. a % 251;
  tlb = (0x40_0000, 0x600) ∷ replicate 63 (0x8000_0000, 0);
  spinlocks = 0;
  in_interrupt = false;
}

-- Two regions of four pages and a stack.
abbrev space : AddrSpace
space = record {
  vbase1 = 0x40_0000;
  pbase1 = 0x1_0000;
  npages1 = 4;
  vbase2 = 0x1000_0000;
  pbase2 = 0x1_4000;
  npages2 = 4;
  stackpbase = 0x1_8000;
}

space-IsReady : IsReady space
space-IsReady = record {
  pages1 = (omega arith, omega arith);
  pages2 = (omega arith, omega arith);
  stack = omega arith;
  positive1 = (omega arith, omega arith, omega arith);
  positive2 = (omega arith, omega arith, omega arith);
  positive_stack = omega arith;
  user1 = omega arith;
  user2 = omega arith;
  phys1 = omega arith;
  phys2 = omega arith;
  phys_stack = omega arith;
}

vm_fault-Faulted_example :
    Faulted space-IsReady 0x40_1234 machine (vm_fault read 0x40_1234 (some space) machine)
    × Faulted space-IsReady 0x40_1234 machine (vm_fault write 0x40_1234 (some space) machine)
vm_fault-Faulted_example = vm_fault-Faulted space-IsReady 0x40_1234 machine

abbrev code_page : ℕ
code_page = 0x40_1000

translate-injective_example : code_page ≡ code_page
unfolding translate
translate-injective_example =
    translate-injective code_page code_page 0x1_1000 space-IsReady (inl (omega arith))
      (inl (omega arith)) (inl (omega arith)) (omega arith) (omega arith) refl refl

as_define_region-Defined_example :
    Ensures
      (Defined 0x40_0123 5000 empty_space)
      (λ e as'.
        (e ≡ enosys) × (as' ≡ empty_space) × (empty_space.vbase1 ≢ 0) × (empty_space.vbase2 ≢ 0))
      (as_define_region machine 0x40_0123 5000 empty_space)
as_define_region-Defined_example =
    as_define_region-Defined machine 0x40_0123 5000 empty_space refl (omega arith)

machine-IsIdle : IsIdle machine
machine-IsIdle = record { valid = two_megabytes-IsValid; sleepy = refl }

-- The same regions, not loaded.
abbrev unloaded : Loading
unloaded = record {
  space = record space { pbase1 = 0; pbase2 = 0; stackpbase = 0 };
  machine = machine;
}

as_prepare_load-Prepared_example :
    Ensures (λ _ l'. Prepared unloaded l') (NoRoom unloaded) (as_prepare_load unloaded)
as_prepare_load-Prepared_example =
    as_prepare_load-Prepared unloaded
      (record { unloaded = (refl, refl, refl); small = (omega arith, omega arith) }) machine-IsIdle

space-IsLoaded : IsLoaded space machine
space-IsLoaded = record {
  small = (omega arith, omega arith);
  below1 = omega arith;
  below2 = omega arith;
  below_stack = omega arith;
}

as_copy-Copied_example :
    Ensures
      (Copied space machine)
      (NoCopy space machine space-IsLoaded)
      (as_copy true space machine)
as_copy-Copied_example = as_copy-Copied space machine space-IsLoaded machine-IsIdle

-- All of user memory below the two gigabytes is mapped, but for page 0.
abbrev mapped : Mapped
mapped a = not (ltb a page_size)

abbrev kernel : Kernel
kernel = record { mem = λ a. a % 7; armed = false }

copycheck-Checked_example : Checked 0x7fff_fff0 32 (copycheck 0x7fff_fff0 32)
copycheck-Checked_example = copycheck-Checked 0x7fff_fff0 32 (omega arith) (omega arith)

copyin-CopiedUser_example :
    Ensures
      (CopiedUser mapped 0x40_0000 0x8010_0000 0x40_0000 12 kernel)
      (Fault mapped 0x40_0000 0x8010_0000 0x40_0000 12 kernel)
      (copyin mapped 0x40_0000 0x8010_0000 12 kernel)
copyin-CopiedUser_example =
    copyin-CopiedUser mapped 0x40_0000 0x8010_0000 12 kernel (omega arith) (omega arith)
      (inr (omega arith))

copyout-CopiedUser_example :
    Ensures
      (CopiedUser mapped 0x40_0000 0x40_0000 0x8010_0000 12 kernel)
      (Fault mapped 0x40_0000 0x40_0000 0x8010_0000 12 kernel)
      (copyout mapped 0x8010_0000 0x40_0000 12 kernel)
copyout-CopiedUser_example =
    copyout-CopiedUser mapped 0x8010_0000 0x40_0000 12 kernel (omega arith) (omega arith)
      (inl (omega arith))

copyinstr-Got_example :
    Ensures
      (Got mapped 0x40_0000 0x8010_0000 0x40_0000 12 kernel)
      (NotGot mapped 0x40_0000 0x8010_0000 0x40_0000 12 kernel)
      (copyinstr mapped 0x40_0000 0x8010_0000 12 kernel)
copyinstr-Got_example =
    copyinstr-Got mapped 0x40_0000 0x8010_0000 12 kernel (omega arith) (omega arith)
      (inr (omega arith))

copyoutstr-Got_example :
    Ensures
      (Got mapped 0x40_0000 0x40_0000 0x8010_0000 12 kernel)
      (NotGot mapped 0x40_0000 0x40_0000 0x8010_0000 12 kernel)
      (copyoutstr mapped 0x8010_0000 0x40_0000 12 kernel)
copyoutstr-Got_example =
    copyoutstr-Got mapped 0x8010_0000 0x40_0000 12 kernel (omega arith) (omega arith)
      (inl (omega arith))
