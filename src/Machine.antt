-- ===== src/Machine.antt =====
-- The state that the kernel's files share, and the runs of their functions: the globals of
-- kern/pmap.c and kern/env.c, `struct PageInfo` of inc/memlayout.h, `struct Env` of inc/env.h and
-- `struct Trapframe` of inc/trap.h. Physical memory is read and written by 32-bit words at kernel
-- virtual addresses. A pointer into `pages` or `envs` is an index, NULL is `none`.
pub mod Convert
pub mod Runs
use lab3a.Base.{ℕ, Option, none, some, List, ◌∷◌, update}

-- struct PageInfo; `pp_ref` is 16 bits wide
pub record PageInfo : Type 0 where
  pub pp_link : Option ℕ
  pub pp_ref : ℕ

-- struct PushRegs
pub record PushRegs : Type 0 where
  pub reg_edi : ℕ
  pub reg_esi : ℕ
  pub reg_ebp : ℕ
  pub reg_oesp : ℕ
  pub reg_ebx : ℕ
  pub reg_edx : ℕ
  pub reg_ecx : ℕ
  pub reg_eax : ℕ

-- struct Trapframe, less its padding
pub record Trapframe : Type 0 where
  pub tf_regs : PushRegs
  pub tf_es : ℕ
  pub tf_ds : ℕ
  pub tf_trapno : ℕ
  pub tf_err : ℕ
  pub tf_eip : ℕ
  pub tf_cs : ℕ
  pub tf_eflags : ℕ
  pub tf_esp : ℕ
  pub tf_ss : ℕ

-- The values of env_status.
pub data EnvStatus : Type 0 where
  env_free_st env_dying env_runnable env_running env_not_runnable : EnvStatus

-- enum EnvType
pub data EnvType : Type 0 where
  env_type_user : EnvType

-- struct Env; an `envid_t` is its 32-bit pattern
pub record Env : Type 0 where
  pub env_tf : Trapframe
  pub env_link : Option ℕ
  pub env_id : ℕ
  pub env_parent_id : ℕ
  pub env_type : EnvType
  pub env_status : EnvStatus
  pub env_runs : ℕ
  pub env_pgdir : ℕ

-- What the kernel reports through cprintf, with the numbers that it prints.
pub data Message : Type 0 where
  mem_check_failed : ℕ → ℕ → Message
  new_env : ℕ → ℕ → Message
  free_env : ℕ → ℕ → Message
  destroyed_only : Message
  exiting : ℕ → Message
  destroying : ℕ → ℕ → Message
  user_fault : ℕ → ℕ → ℕ → Message
  user_text : ℕ → ℕ → Message
  trapframe : Trapframe → Message
  incoming_trap : Message

-- The console's input buffer, `cons` of kern/console.c
pub record Cons : Type 0 where
  pub buf : ℕ → ℕ
  pub rpos : ℕ
  pub wpos : ℕ

pub record Kernel : Type 0 where
  pub npages : ℕ
  pub pages : ℕ → PageInfo
  pub page_free_list : Option ℕ
  pub nextfree : ℕ
  pub mem : ℕ → ℕ
  pub kern_pgdir : ℕ
  pub user_mem_check_addr : ℕ
  pub envs : ℕ → Env
  pub curenv : Option ℕ
  pub env_free_list : Option ℕ
  pub cr3 : ℕ
  pub invalidated : List ℕ
  pub messages : List Message
  pub cons : Cons

pub data Panic : Type 0 where
  paddr_invalid kaddr_invalid pa2page_invalid out_of_memory mapping_failed null_deref : Panic
  kernel_page_fault unhandled_trap assertion region_alloc_failed bad_elf : Panic

-- A function returns, panics, stays in the monitor for ever, or leaves for user mode. A loop on
-- fuel may also run out of it.
pub data Run (A : Type 0) : Type 0 where
  done : A → Kernel → Run A
  panicked : Panic → Kernel → Run A
  monitor_loop : Kernel → Run A
  user_mode : Trapframe → Kernel → Run A
  out_of_fuel : Run A

abbrev pub M : Type 0 → Type 0
M A = Kernel → Run A

module _ {A : Type 0} where
  abbrev pub pure : A → M A
  pure a k = done a k

  abbrev pub panic : Panic → M A
  panic p k = panicked p k

  abbrev pub gets : (Kernel → A) → M A
  gets f k = done (f k) k

abbrev pub modify : (Kernel → Kernel) → M (Unit {0})
modify f k = done tt (f k)

module _ {A B : Type 0} where
  abbrev pub and_then : Run A → (A → M B) → Run B
  and_then (done a k) f = f a k
  and_then (panicked p k) f = panicked p k
  and_then (monitor_loop k) f = monitor_loop k
  and_then (user_mode t k) f = user_mode t k
  and_then out_of_fuel f = out_of_fuel

  infixl 5 ◌>>=◌
  abbrev pub ◌>>=◌ : M A → (A → M B) → M B
  ◌>>=◌ m f k = and_then (m k) f

infixl 5 ◌>>◌
abbrev pub ◌>>◌ : {B : Type 0} → M (Unit {0}) → M B → M B
m >> n = m >>= λ _. n

-- A word of memory, a page's record, an environment's record, and a message.
abbrev pub load : ℕ → M ℕ
load p k = done (k.mem p) k

abbrev pub store : ℕ → ℕ → M (Unit {0})
store p v k = done tt (record k { mem = update k.mem p v })

abbrev pub set_page : ℕ → PageInfo → Kernel → Kernel
set_page pp i k = record k { pages = update k.pages pp i }

abbrev pub set_link : ℕ → Option ℕ → M (Unit {0})
set_link pp l k = done tt (set_page pp (record (k.pages pp) { pp_link = l }) k)

abbrev pub set_ref : ℕ → ℕ → M (Unit {0})
set_ref pp r k = done tt (set_page pp (record (k.pages pp) { pp_ref = r }) k)

abbrev pub set_env : ℕ → Env → M (Unit {0})
set_env e v k = done tt (record k { envs = update k.envs e v })

abbrev pub cprintf : Message → M (Unit {0})
cprintf m k = done tt (record k { messages = m ∷ k.messages })
