-- ===== src/Pmap/UserMem.antt =====
-- user_mem_check of kern/pmap.c. The loop runs on fuel: a round passes one page, and 2 ^ 20 pages
-- make the address space.
pub mod Loop
pub mod Verdict
pub mod Range
pub mod Wraps
use lab3a.Base.{
  ℕ, zero, suc, ◌+◌, ◌-◌, ◌^◌, ◌≡◌, bit_and, Option, none, some, Bool, true, false, not, ◌||◌, ltb,
  leb, ◌==◌, if◌then◌else◌,
}
use lab3a.Mmu.{u32, pgsize, ulim, rounddown, roundup, present, neg, e_fault}
use lab3a.Machine.{Kernel, M, out_of_fuel, pure, gets, modify, ◌>>=◌, ◌>>◌, load}
use lab3a.Pmap.Walk.{pgdir_walk}

-- The test on one page, after pgdir_walk: true where access is refused.
pub denied : ℕ → ℕ → Option ℕ → M Bool
denied addr perm none = pure true
denied addr perm (some p) = do
  pte ← load p
  pure (leb ulim addr || (not (present pte) || not (bit_and pte perm == perm)))

-- Where the error is reported.
abbrev pub fault_at : ℕ → ℕ → M ℕ
fault_at va addr = do
  modify (λ k. record k { user_mem_check_addr = (if ltb addr va then va else addr) })
  pure (neg e_fault)

pub check_loop : (pgdir va perm : ℕ) → ℕ → ℕ → ℕ → M ℕ
unfolding denied
check_loop pgdir va perm zero addr end = λ k. out_of_fuel
check_loop pgdir va perm (suc fuel) addr end =
    let rest = check_loop pgdir va perm fuel (u32 (addr + pgsize)) end in
    if ltb addr end
    then (do
      p ← pgdir_walk pgdir addr false
      refused ← denied addr perm p
      if refused then fault_at va addr else rest)
    else pure 0

abbrev pub check_fuel : ℕ
check_fuel = 2 ^ 20

-- user_mem_check(env, va, len, perm)
unfoldable pub user_mem_check : ℕ → ℕ → ℕ → ℕ → M ℕ
user_mem_check env va len perm = do
  pgdir ← gets (λ k. (k.envs env).env_pgdir)
  check_loop pgdir va perm check_fuel (rounddown va pgsize) (roundup (u32 (va + len)) pgsize)
