-- ===== src/Env.antt =====
-- Environments: kern/env.c. A `struct Env *` is an index into `envs`.
pub mod Ids
pub mod Lookup
pub mod Pool
pub mod Create
pub mod Reuse
pub mod Sound
pub mod Unmap
pub mod Release
pub mod Run
use lab3a.Base.{
  ℕ, zero, suc, ◌+◌, ◌-◌, ◌*◌, ◌/◌, ◌%◌, ◌^◌, ◌≡◌, bit_and, bit_or, Option, none, some, Bool, true,
  false, not, ◌&&◌, ◌||◌, ltb, leb, ◌==◌, if◌then◌else◌, ptr_eq, List, [],
}
use lab3a.Mmu.{
  u32, pgsize, uvpt, utop, ustacktop, pte_p, pte_w, pte_u, pdx, pgaddr, pte_addr, present,
  rounddown, roundup, neg, is_negative, e_bad_env, e_no_mem, e_no_free_env,
}
use lab3a.Machine.{
  Kernel, PageInfo, PushRegs, Trapframe, Env, EnvStatus, env_free_st, env_dying, env_runnable,
  env_running, env_not_runnable, env_type_user, new_env, free_env, destroyed_only, M, panic,
  monitor_loop, user_mode, null_deref, region_alloc_failed, out_of_fuel, pure, gets, modify, ◌>>=◌,
  ◌>>◌, load, store, set_ref, set_env, cprintf,
}
use lab3a.Machine.Convert.{paddr, kaddr, pa2page, page2kva}
use lab3a.Pmap.Page.{alloc_zero, page_alloc, page_decref}
use lab3a.Pmap.Walk.{page_insert, page_remove}

abbrev pub nenv : ℕ
nenv = 1024

-- ENVX(envid)
unfoldable pub envx : ℕ → ℕ
envx envid = envid % nenv

abbrev pub envgenshift : ℕ
envgenshift = 12

abbrev pub gd_kt : ℕ
gd_kt = 0x08

abbrev pub gd_ut : ℕ
gd_ut = 0x18

abbrev pub gd_ud : ℕ
gd_ud = 0x20

abbrev pub is_free : EnvStatus → Bool
is_free env_free_st = true
is_free env_dying = false
is_free env_runnable = false
is_free env_running = false
is_free env_not_runnable = false

abbrev pub is_running : EnvStatus → Bool
is_running env_free_st = false
is_running env_dying = false
is_running env_runnable = false
is_running env_running = true
is_running env_not_runnable = false

-- e->env_id through a pointer that may be NULL
abbrev pub env_id_at : Option ℕ → M ℕ
env_id_at none = panic null_deref
env_id_at (some e) = gets (λ k. (k.envs e).env_id)

-- e != curenv && e->env_parent_id != curenv->env_id
abbrev pub foreign : ℕ → M Bool
foreign e = do
  c ← gets (λ k. k.curenv)
  if ptr_eq (some e) c then pure false else do
    id ← env_id_at c
    parent ← gets (λ k. (k.envs e).env_parent_id)
    pure (not (parent == id))

-- envid2env: what it returns, and what it stores through env_store
unfoldable pub envid2env : ℕ → Bool → M (ℕ × Option ℕ)
unfolding envx
envid2env envid checkperm = if envid == 0 then (do c ← gets (λ k. k.curenv); pure (0, c)) else do
  let i = envx envid
  e ← gets (λ k. k.envs i)
  if is_free e.env_status || not (e.env_id == envid) then pure (neg e_bad_env, none) else (do
    refused ← (if checkperm then foreign i else pure false)
    if refused then pure (neg e_bad_env, none) else pure (0, some i))

-- The loop of env_init over the environments below `n`, downwards.
pub env_init_below : ℕ → M (Unit {0})
env_init_below zero = pure tt
env_init_below (suc i) = do
  e ← gets (λ k. k.envs i)
  head ← gets (λ k. k.env_free_list)
  set_env i (record e { env_id = 0; env_link = head })
  modify (λ k. record k { env_free_list = some i })
  env_init_below i

-- env_init, less the segment registers of env_init_percpu
unfoldable pub env_init : M (Unit {0})
unfolding env_init_below
env_init = env_init_below nenv

-- memcpy(dst, src, PGSIZE) of pages that do not overlap
abbrev pub copy_page : ℕ → ℕ → (ℕ → ℕ) → ℕ → ℕ
copy_page dst src mem q = if leb dst q && ltb q (dst + pgsize) then mem (src + (q - dst)) else mem q

abbrev pub set_pgdir : ℕ → ℕ → M (Unit {0})
set_pgdir e v = do env ← gets (λ k. k.envs e); set_env e (record env { env_pgdir = v })

-- env_setup_vm after page_alloc
pub setup_from : ℕ → Option ℕ → M ℕ
setup_from e none = pure (neg e_no_mem)
setup_from e (some p) = do
  r ← gets (λ k. (k.pages p).pp_ref)
  set_ref p ((r + 1) % 65536)
  v ← page2kva p
  set_pgdir e v
  modify (λ k. record k { mem = copy_page v k.kern_pgdir k.mem })
  pa ← paddr v
  store (v + 4 * pdx uvpt) (bit_or (bit_or pa pte_p) pte_u)
  pure 0

unfoldable pub env_setup_vm : ℕ → M ℕ
unfolding setup_from
env_setup_vm e = do p ← page_alloc alloc_zero; setup_from e p

-- The id that env_alloc makes for the environment at index `e` from the id that its record has.
unfoldable pub next_id : ℕ → ℕ → ℕ
next_id id e =
    let generation = u32 (id + 2 ^ envgenshift) / nenv * nenv in
    let generation =
      if is_negative generation || generation == 0 then 2 ^ envgenshift else generation in
    bit_or generation e

abbrev pub cleared_regs : PushRegs
cleared_regs = record {
  reg_edi = 0;
  reg_esi = 0;
  reg_ebp = 0;
  reg_oesp = 0;
  reg_ebx = 0;
  reg_edx = 0;
  reg_ecx = 0;
  reg_eax = 0;
}

-- The registers of a new environment.
abbrev pub user_trapframe : Trapframe
user_trapframe = record {
  tf_regs = cleared_regs;
  tf_es = bit_or gd_ud 3;
  tf_ds = bit_or gd_ud 3;
  tf_trapno = 0;
  tf_err = 0;
  tf_eip = 0;
  tf_cs = bit_or gd_ut 3;
  tf_eflags = 0;
  tf_esp = ustacktop;
  tf_ss = bit_or gd_ud 3;
}

-- curenv ? curenv->env_id : 0
abbrev pub curenv_id : Kernel → ℕ
curenv_id k = elim k.curenv [ none ↦ 0 | some c ↦ (k.envs c).env_id ]

-- env_alloc from a free list that begins at the given environment; the second part of the result
-- is what it stores through newenv_store, if it does
unfoldable pub env_alloc_from : ℕ → Option ℕ → M (ℕ × Option ℕ)
unfolding next_id env_setup_vm
env_alloc_from parent_id none = pure (neg e_no_free_env, none)
env_alloc_from parent_id (some e) = do
  r ← env_setup_vm e
  if is_negative r then pure (r, none) else do
    env ← gets (λ k. k.envs e)
    set_env e (record env {
      env_id = next_id env.env_id e;
      env_parent_id = parent_id;
      env_type = env_type_user;
      env_status = env_runnable;
      env_runs = 0;
      env_tf = user_trapframe;
    })
    modify (λ k. record k { env_free_list = (k.envs e).env_link })
    k ← gets (λ k. k)
    cprintf (new_env (curenv_id k) (k.envs e).env_id)
    pure (0, some e)

unfoldable pub env_alloc : ℕ → M (ℕ × Option ℕ)
unfolding env_alloc_from
env_alloc parent_id = do head ← gets (λ k. k.env_free_list); env_alloc_from parent_id head

-- The inner loop of env_free: the entries from `pteno` on, `rounds` of them, of the table at `pt`.
pub unmap_ptes : (e pt pdeno : ℕ) → ℕ → ℕ → M (Unit {0})
unmap_ptes e pt pdeno zero pteno = pure tt
unmap_ptes e pt pdeno (suc rounds) pteno = do
  pte ← load (pt + 4 * pteno)
  pgdir ← gets (λ k. (k.envs e).env_pgdir)
  if bit_and pte pte_p == 1 then page_remove pgdir (pgaddr pdeno pteno 0) else pure tt
  unmap_ptes e pt pdeno rounds (suc pteno)

-- The body of env_free's outer loop.
pub unmap_table : ℕ → ℕ → M (Unit {0})
unfolding unmap_ptes
unmap_table e pdeno = do
  pgdir ← gets (λ k. (k.envs e).env_pgdir)
  pde ← load (pgdir + 4 * pdeno)
  if not (bit_and pde pte_p == 1) then pure tt else do
    pt ← kaddr (pte_addr pde)
    unmap_ptes e pt pdeno 1024 0
    store (pgdir + 4 * pdeno) 0
    table ← pa2page (pte_addr pde)
    page_decref table

pub unmap_tables : ℕ → ℕ → ℕ → M (Unit {0})
unmap_tables e zero pdeno = pure tt
unmap_tables e (suc rounds) pdeno = unmap_table e pdeno >> unmap_tables e rounds (suc pdeno)

-- lcr3(PADDR(pgdir))
abbrev pub load_cr3 : ℕ → M (Unit {0})
load_cr3 pgdir = do pa ← paddr pgdir; modify (λ k. record k { cr3 = pa })

-- The start of env_free, up to its loops.
pub leave_pgdir : ℕ → M (Unit {0})
leave_pgdir e = do
  k ← gets (λ k. k)
  if ptr_eq (some e) k.curenv then load_cr3 k.kern_pgdir else pure tt
  cprintf (free_env (curenv_id k) (k.envs e).env_id)

-- The end of env_free, after its loops.
pub release_env : ℕ → M (Unit {0})
release_env e = do
  pgdir ← gets (λ k. (k.envs e).env_pgdir)
  pa ← paddr pgdir
  set_pgdir e 0
  dir ← pa2page pa
  page_decref dir
  env ← gets (λ k. k.envs e)
  head ← gets (λ k. k.env_free_list)
  set_env e (record env { env_status = env_free_st; env_link = head })
  modify (λ k. record k { env_free_list = some e })

unfoldable pub env_free : ℕ → M (Unit {0})
unfolding unmap_tables
env_free e = leave_pgdir e >> unmap_tables e (pdx utop) 0 >> release_env e

unfoldable pub env_destroy : {A : Type 0} → ℕ → M A
env_destroy e = env_free e >> cprintf destroyed_only >> monitor_loop

-- env_pop_tf leaves for user mode with the registers of the frame.
abbrev pub env_pop_tf : {A : Type 0} → Trapframe → M A
env_pop_tf tf k = user_mode tf k

-- The part of env_run that a switch to another environment does.
abbrev pub env_switch : ℕ → M (Unit {0})
env_switch e = do
  modify (λ k. record k { curenv = some e })
  env ← gets (λ k. k.envs e)
  set_env e (record env { env_status = env_running; env_runs = u32 (env.env_runs + 1) })
  load_cr3 env.env_pgdir

unfoldable pub env_run : {A : Type 0} → ℕ → M A
env_run e = do
  c ← gets (λ k. k.curenv)
  if ptr_eq c (some e) then pure tt else env_switch e
  env ← gets (λ k. k.envs e)
  env_pop_tf env.env_tf
