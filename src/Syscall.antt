-- ===== src/Syscall.antt =====
-- System calls: kern/syscall.c, and user_mem_assert of kern/pmap.c. What the serial port and the
-- keyboard deliver to a poll of the console is a parameter of a call.
pub mod Destroy
pub mod Cputs
use lab3a.Base.{ℕ, ◌≡◌, bit_or, Option, none, some, true, List, ◌==◌, if◌then◌else◌, ptr_eq}
use lab3a.Mmu.{pte_u, neg, is_negative, e_inval}
use lab3a.Machine.{
  Kernel, M, panic, null_deref, mem_check_failed, exiting, destroying, user_text, pure, gets, ◌>>=◌,
  ◌>>◌, cprintf,
}
use lab3a.Pmap.UserMem.{user_mem_check}
use lab3a.Env.{env_id_at, envid2env, env_destroy}
use lab3a.Console.{cons_getc}

abbrev pub sys_cputs_no : ℕ
sys_cputs_no = 0

abbrev pub sys_cgetc_no : ℕ
sys_cgetc_no = 1

abbrev pub sys_getenvid_no : ℕ
sys_getenvid_no = 2

abbrev pub sys_env_destroy_no : ℕ
sys_env_destroy_no = 3

-- user_mem_assert's branch on what user_mem_check returned
pub assert_result : ℕ → ℕ → M (Unit {0})
assert_result env r =
    if is_negative r
    then (do
      k ← gets (λ k. k)
      cprintf (mem_check_failed (k.envs env).env_id k.user_mem_check_addr)
      env_destroy env)
    else pure tt

unfoldable pub user_mem_assert : ℕ → ℕ → ℕ → ℕ → M (Unit {0})
unfolding assert_result
user_mem_assert env va len perm =
    user_mem_check env va len (bit_or perm pte_u) >>= assert_result env

-- sys_getenvid()
abbrev pub sys_getenvid : M ℕ
sys_getenvid = do c ← gets (λ k. k.curenv); env_id_at c

pub assert_at : Option ℕ → ℕ → ℕ → M (Unit {0})
unfolding user_mem_assert
assert_at none s len = panic null_deref
assert_at (some e) s len = user_mem_assert e s len pte_u

-- sys_cputs(s, len); the text that cprintf then reads from user memory is named by its place
unfoldable pub sys_cputs : ℕ → ℕ → M (Unit {0})
unfolding assert_at
sys_cputs s len = do
  id ← sys_getenvid
  found ← envid2env id true
  assert_at found.1 s len
  cprintf (user_text s len)

unfoldable pub sys_cgetc : List ℕ → List ℕ → M ℕ
sys_cgetc serial kbd = cons_getc serial kbd

-- sys_env_destroy after envid2env, with curenv as the second argument
pub destroy_for : ℕ → Option ℕ → M ℕ
destroy_for e c = do
  id ← env_id_at c
  target ← gets (λ k. (k.envs e).env_id)
  if ptr_eq (some e) c then cprintf (exiting id) else cprintf (destroying id target)
  env_destroy e

pub destroy_at : Option ℕ → M ℕ
unfolding destroy_for
destroy_at none = panic null_deref
destroy_at (some e) = do c ← gets (λ k. k.curenv); destroy_for e c

-- sys_env_destroy(envid)
unfoldable pub sys_env_destroy : ℕ → M ℕ
unfolding destroy_at
sys_env_destroy envid = do
  found ← envid2env envid true
  if is_negative found.0 then pure found.0 else destroy_at found.1

-- syscall(syscallno, a1, a2, ...); the arguments a3, a4 and a5 are not used
unfoldable pub syscall : List ℕ → List ℕ → ℕ → ℕ → ℕ → M ℕ
syscall serial kbd syscallno a1 a2 =
    if syscallno == sys_cputs_no
    then (do sys_cputs a1 a2; pure 0)
    else if syscallno == sys_cgetc_no
    then sys_cgetc serial kbd
    else if syscallno == sys_getenvid_no
    then sys_getenvid
    else if syscallno == sys_env_destroy_no
    then (do r ← sys_env_destroy a1; pure 0)
    else pure (neg e_inval)
