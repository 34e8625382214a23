-- ===== src/Pmap/UserMem/Wraps.antt =====
-- user_mem_check of kern/pmap.c on a range whose end wraps.
use lab3a.Base.{
  ℕ, ◌+◌, ◌-◌, ◌*◌, ◌/◌, ◌%◌, ◌^◌, ◌≤◌, ◌<◌, ◌≡◌, ◌⊎◌, refl, inl, inr, ◌∙◌, true, false, ltb,
  if◌then◌else◌, arith, Bool, not, ◌&&◌, Bool-cases,
}
use lab3a.Mmu.{u32, pgsize, rounddown, roundup}
use lab3a.Machine.{Kernel, done}
use lab3a.Machine.Convert.{Fits}
use lab3a.Pmap.UserMem.{user_mem_check, fault_at}
use lab3a.Pmap.UserMem.Loop.{
  check_loop_empty, allowed, TablesInMemory, first_denied, verdict, check_loop-first_denied,
}
use lab3a.Pmap.UserMem.Verdict.{pgdir_of}

-- A range whose end or its rounding passes 2 ^ 32, and wraps to no more than the start of the first page, or
-- starts in the last page.
pub user_mem_check_unseen :
    (k : Kernel) (env va len perm : ℕ)
    → va < 2 ^ 32
    → len < 2 ^ 32
    → 2 ^ 32 ≤ va + len + 4095
    → (va + len ≤ 2 ^ 32 + va / 4096 * 4096) ⊎ (2 ^ 32 ≤ va / 4096 * 4096 + 4096)
    → user_mem_check env va len perm k ≡ done 0 k
unfolding user_mem_check rounddown
user_mem_check_unseen k env va len perm hva hlen over back =
    check_loop_empty (pgdir_of k env) va perm (2 ^ 20) _ _ k (omega arith) ends
  where
    ends : roundup (u32 (va + len)) pgsize ≤ va % 2 ^ 32 - va % 2 ^ 32 % 4096
    ends = unfold roundup in omega arith

first_page :
    (k : Kernel) (env va len perm : ℕ)
    → Fits k
    → TablesInMemory k (pgdir_of k env)
    → va < 2 ^ 32
    → len < 2 ^ 32
    → 2 ^ 32 + va / 4096 * 4096 < va + len
    → va / 4096 * 4096 + 4096 < 2 ^ 32
    → user_mem_check env va len perm k
      ≡ verdict k va (first_denied k (pgdir_of k env) perm 1 (va / 4096 * 4096))
unfolding user_mem_check rounddown
first_page k env va len perm fits tables hva hlen behind not_last =
    rw (fits_end, start)
      (check_loop-first_denied k (pgdir_of k env) va perm fits tables (2 ^ 20) 1 (va / 4096 * 4096)
        _ (omega arith) refl (omega arith))
  where
    start : va % 2 ^ 32 - va % 2 ^ 32 % 4096 ≡ va / 4096 * 4096
    start = omega arith

    fits_end : roundup (u32 (va + len)) pgsize ≡ va / 4096 * 4096 + 1 * 4096
    fits_end = unfold roundup in omega arith

first_denied-one :
    (k : Kernel) (pgdir va perm addr : ℕ)
    → verdict k va (first_denied k pgdir perm 1 addr)
      ≡ (if not (allowed k pgdir perm addr) then fault_at va addr k else done 0 k)
unfolding first_denied
first_denied-one k pgdir va perm addr = elim (Bool-cases (allowed k pgdir perm addr)) [
  | inl e ↦ rw e refl
  | inr e ↦ rw e refl
]

-- Whether a range that wraps has its first page tested: the end wraps to a place inside that page, and the
-- page is not the last one.
abbrev pub first_seen : ℕ → ℕ → Bool
first_seen va len =
    ltb (2 ^ 32 + va / 4096 * 4096) (va + len) && ltb (va / 4096 * 4096 + 4096) (2 ^ 32)

-- For an address and a length of 32 bits, and page tables that are in memory: where the end of the range, or
-- its rounding up to a page, passes 2 ^ 32, no page but the first is tested. Access is refused, with the error
-- at va, exactly where the end wraps to a place inside the first page, behind that page's start, the page is
-- not the last one of the address space, and it is not allowed. Otherwise the range is granted,
-- addresses of the kernel and every permission included.
pub user_mem_check_wraps :
    (k : Kernel) (env va len perm : ℕ)
    → Fits k
    → TablesInMemory k (pgdir_of k env)
    → va < 2 ^ 32
    → len < 2 ^ 32
    → 2 ^ 32 ≤ va + len + 4095
    → user_mem_check env va len perm k ≡ (
        if first_seen va len && not (allowed k (pgdir_of k env) perm (va / 4096 * 4096))
        then fault_at va (va / 4096 * 4096) k
        else done 0 k)
user_mem_check_wraps k env va len perm fits tables hva hlen over =
    elim (Bool-cases (first_seen va len)) [
      | inl e ↦
          rw e (first_page k env va len perm fits tables hva hlen (seen e).0 (seen e).1 ∙ by_first)
      | inr e ↦ rw e (user_mem_check_unseen k env va len perm hva hlen over (unseen e))
    ]
  where
    by_first : verdict k va (first_denied k (pgdir_of k env) perm 1 (va / 4096 * 4096)) ≡ (
        if not (allowed k (pgdir_of k env) perm (va / 4096 * 4096))
        then fault_at va (va / 4096 * 4096) k
        else done 0 k)
    by_first = first_denied-one k (pgdir_of k env) va perm (va / 4096 * 4096)

    seen :
        first_seen va len ≡ true
        → (2 ^ 32 + va / 4096 * 4096 < va + len) × (va / 4096 * 4096 + 4096 < 2 ^ 32)
    seen e = (ground arith, ground arith)

    unseen :
        first_seen va len ≡ false
        → (va + len ≤ 2 ^ 32 + va / 4096 * 4096) ⊎ (2 ^ 32 ≤ va / 4096 * 4096 + 4096)
    unseen e = ground arith
