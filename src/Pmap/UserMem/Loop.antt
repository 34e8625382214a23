-- ===== src/Pmap/UserMem/Loop.antt =====
-- The loop of user_mem_check finds the first page that may not be accessed.
use lab3a.Machine.Runs.{and_then_assoc}
use lab3a.Base.{
  ℕ, zero, suc, ◌+◌, ◌*◌, ◌^◌, ◌<◌, ◌≡◌, inl, inr, ap, ◌∙◌, bit_and, Option, none, some, Bool, true,
  false, not, ◌&&◌, ltb, ◌==◌, if◌then◌else◌, Bool-cases, arith, le→ltb, lt→ltb, ◌≤◌,
}
use lab3a.Mmu.{u32, pgsize, ulim, present}
use lab3a.Machine.{Kernel, done, and_then, Run, M}
use lab3a.Machine.Convert.{Fits}
use lab3a.Pmap.UserMem.{denied, fault_at, check_loop}
use lab3a.Pmap.Walk.{pgdir_walk}
use lab3a.Pmap.Walk.Translate.{leaf}
use lab3a.Pmap.Walk.Runs.{pde_of, InMemory, walk-present, walk-absent}

-- The translation of the address grants the permissions.
abbrev pub grants : ℕ → Option ℕ → Bool
grants perm none = false
grants perm (some pte) = bit_and pte perm == perm

abbrev pub allowed : Kernel → ℕ → ℕ → ℕ → Bool
allowed k pgdir perm addr = ltb addr ulim && grants perm (leaf k.mem pgdir addr)

-- Every table of the directory is in physical memory.
abbrev pub TablesInMemory : Kernel → ℕ → Type 0
TablesInMemory k pgdir =
    (va : ℕ) → present (pde_of k pgdir va) ≡ true → InMemory k (pde_of k pgdir va)

-- The first of `n` pages from `addr` on that may not be accessed.
unfoldable pub first_denied : Kernel → ℕ → ℕ → ℕ → ℕ → Option ℕ
first_denied k pgdir perm zero addr = none
first_denied k pgdir perm (suc n) addr =
    if allowed k pgdir perm addr then first_denied k pgdir perm n (addr + 4096) else some addr

-- What user_mem_check returns, by that page.
abbrev pub verdict : Kernel → ℕ → Option ℕ → Run ℕ
verdict k va none = done 0 k
verdict k va (some addr) = fault_at va addr k

-- A loop that begins at its end tests nothing.
pub check_loop_empty :
    (pgdir va perm fuel addr end : ℕ) (k : Kernel)
    → 0 < fuel
    → end ≤ addr
    → check_loop pgdir va perm fuel addr end k ≡ done 0 k
unfolding check_loop
check_loop_empty pgdir va perm zero addr end k h e = absurd (omega arith)
check_loop_empty pgdir va perm (suc fuel) addr end k h e = rw (le→ltb addr end e)

module _ (k : Kernel) (pgdir va perm : ℕ) (fits : Fits k) (tables : TablesInMemory k pgdir) where
  test-allowed :
      (addr : ℕ)
      → and_then (pgdir_walk pgdir addr false k) (denied addr perm)
        ≡ done (not (allowed k pgdir perm addr)) k
  unfolding denied
  test-allowed addr = elim (Bool-cases (present (pde_of k pgdir addr))) [
    | inl h ↦ rw (walk-present k pgdir addr fits false h (tables addr h)) (ground arith)
    | inr h ↦ rw (walk-absent k pgdir addr fits h) (ground arith)
  ]

  pub check_loop-first_denied :
      (fuel n addr end : ℕ)
      → n < fuel
      → addr + n * 4096 ≡ end
      → end < 2 ^ 32
      → check_loop pgdir va perm fuel addr end k ≡ verdict k va (first_denied k pgdir perm n addr)
  unfolding check_loop first_denied
  check_loop-first_denied zero n addr end h e b = absurd (omega arith)
  check_loop-first_denied (suc fuel) zero addr end h e b = rw (le→ltb addr end (omega arith))
  check_loop-first_denied (suc fuel) (suc n) addr end h e b = rw (lt→ltb addr end (omega arith)) (
      and_then_assoc (pgdir_walk pgdir addr false k) (denied addr perm) next
      ∙ ap (λ r. and_then r next) (test-allowed addr)
      ∙ branch (check_loop-first_denied fuel n (addr + 4096) end (omega arith) (omega arith) b))
    where
      rest : M ℕ
      rest = check_loop pgdir va perm fuel (u32 (addr + pgsize)) end

      next : Bool → M ℕ
      next refused = if refused then fault_at va addr else rest

      branch :
          check_loop pgdir va perm fuel (addr + 4096) end k
            ≡ verdict k va (first_denied k pgdir perm n (addr + 4096))
          → next (not (allowed k pgdir perm addr)) k
            ≡ verdict k va (first_denied k pgdir perm (suc n) addr)
      branch ih = elim (Bool-cases (allowed k pgdir perm addr)) [
        | inl ok ↦ let wraps : u32 (addr + pgsize) ≡ addr + 4096 = omega arith in rw (ok, wraps) ih
        | inr bad ↦ rw bad
      ]
