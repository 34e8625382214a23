-- ===== src/Tests/State.antt =====
-- A small machine: 600 pages, three of them free, and a directory in page 400 whose table in page
-- 401 maps the address 0x800000 to page 402 for the user.
use lab3a.Base.{
  ℕ, ◌+◌, ◌*◌, ◌<◌, ◌≡◌, refl, none, some, Option, [], ◌∷◌, arith, ◌==◌, if◌then◌else◌, true, ◌∙◌,
  sym,
}
use lab3a.Mmu.{present, pgnum}
use lab3a.Machine.{
  Kernel, PageInfo, PushRegs, Trapframe, Env, env_free_st, env_running, env_type_user,
}
use lab3a.Machine.Convert.{kva, Fits}
use lab3a.Pmap.Page.FreeList.{FreeList}
use lab3a.Pmap.Walk.Translate.{word, Directory}
use lab3a.Pmap.Walk.Create.{Fresh}

abbrev pub page_info : Option ℕ → ℕ → PageInfo
page_info l r = record { pp_link = l; pp_ref = r }

abbrev pub small_pages : ℕ → PageInfo
small_pages p =
    if p == 300
    then page_info (some 301) 0
    else if p == 301
    then page_info (some 302) 0
    else if p == 302
    then page_info none 0
    else if p == 303
    then page_info none 0
    else page_info none 1

abbrev pub small_mem : ℕ → ℕ
small_mem p =
    if p == word 400 2 then 401 * 4096 + 7 else if p == word 401 0 then 402 * 4096 + 7 else 0

abbrev pub no_regs : PushRegs
no_regs = record {
  reg_edi = 0;
  reg_esi = 0;
  reg_ebp = 0;
  reg_oesp = 0;
  reg_ebx = 0;
  reg_edx = 0;
  reg_ecx = 0;
  reg_eax = 0;
}

abbrev pub no_trapframe : Trapframe
no_trapframe = record {
  tf_regs = no_regs;
  tf_es = 0;
  tf_ds = 0;
  tf_trapno = 0;
  tf_err = 0;
  tf_eip = 0;
  tf_cs = 0;
  tf_eflags = 0;
  tf_esp = 0;
  tf_ss = 0;
}

abbrev pub no_env : Env
no_env = record {
  env_tf = no_trapframe;
  env_link = none;
  env_id = 0;
  env_parent_id = 0;
  env_type = env_type_user;
  env_status = env_free_st;
  env_runs = 0;
  env_pgdir = 0;
}

abbrev pub first_env : Env
first_env = record no_env { env_id = 4096; env_status = env_running; env_pgdir = kva 400 }

abbrev pub small : Kernel
small = record {
  npages = 600;
  pages = small_pages;
  page_free_list = some 300;
  nextfree = kva 299;
  mem = small_mem;
  kern_pgdir = kva 260;
  user_mem_check_addr = 0;
  envs = λ i. if i == 0 then first_env else no_env;
  curenv = some 0;
  env_free_list = some 1;
  cr3 = 400 * 4096;
  invalidated = [];
  messages = [];
  cons = record { buf = λ i. 0; rpos = 0; wpos = 0 };
}

pub small-Fits : Fits small
small-Fits = omega arith

pub small-FreeList : FreeList small (300 ∷ 301 ∷ 302 ∷ [])
small-FreeList = record {
  chain = (refl, (refl, (refl, refl)));
  distinct = (refl, (refl, (refl, tt)));
  unused = (refl, (refl, (refl, tt)));
  in_range = omega arith;
}

pub only_slot : (i : ℕ) → i < 1024 → present (small_mem (word 400 i)) ≡ true → i ≡ 2
unfolding present
only_slot i b h = ground arith

pub small-Directory : Directory 600 small_mem 400
unfolding present pgnum
small-Directory = record {
  in_range = omega arith;
  tables = λ i o h. rw (only_slot i o.0 h) (omega arith, omega arith);
  apart = λ i j o o' ne h h'. absurd (ne (only_slot i o.0 h ∙ sym (only_slot j o'.0 h')));
}

pub small-Fresh : (p : ℕ) → p < 400 → Fresh small_mem 400 p
unfolding pgnum
small-Fresh p h = record {
  not_directory = omega arith;
  not_table = λ i o q. rw (only_slot i o.0 q) (omega arith);
}
