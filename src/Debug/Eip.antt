-- ===== src/Debug/Eip.antt =====
-- debuginfo_eip of kern/kdebug.c: the choice of the tables, and the tests on those of a program. The
-- memory is the address space in which the processor runs, byte by byte.
use lab3a.Base.{ℕ, ◌+◌, Option, none, some, leb, ◌==◌, if◌then◌else◌}
use lab3a.Mmu.{neg, ulim, pte_u}
use lab3a.Machine.{M, pure, panic, gets, ◌>>=◌, null_deref}
use lab3a.Pmap.UserMem.{user_mem_check}
use lab3a.Strings.{Bytes}
use lab3a.Debug.Lookup.{UserStabData, word_at, stab_size, stabstr_size, Answer, initial, lookup}

abbrev pub ustabdata : ℕ
ustabdata = 0x200000

abbrev pub user_tables : Bytes → UserStabData
user_tables mem = record {
  stabs = word_at mem ustabdata;
  stab_end = word_at mem (ustabdata + 4);
  stabstr = word_at mem (ustabdata + 8);
  stabstr_end = word_at mem (ustabdata + 12);
}

-- user_mem_check(curenv, va, len, PTE_U)
abbrev pub check_current : ℕ → ℕ → Option ℕ → M ℕ
check_current va len none = panic null_deref
check_current va len (some c) = user_mem_check c va len pte_u

-- One test: -1 where it refuses, else the rest.
abbrev pub guarded : ℕ → ℕ → ℕ → M Answer → M Answer
guarded addr va len rest = do
  c ← gets (λ k. k.curenv)
  bad ← check_current va len c
  if bad == 0 then rest else pure (some (neg 1, initial addr))

-- debuginfo_eip(addr, info), with the kernel's own tables
unfoldable pub debuginfo_eip : ℕ → Bytes → UserStabData → ℕ → M Answer
debuginfo_eip fuel mem kernel_tables addr =
    if leb ulim addr
    then pure (lookup fuel mem kernel_tables addr)
    else guarded addr ustabdata 16 (
        let t = user_tables mem in
        guarded addr t.stabs stab_size
          (guarded addr t.stabstr (stabstr_size t) (pure (lookup fuel mem t addr))))
