-- ===== src/Syscall/Cputs.antt =====
-- sys_cputs of kern/syscall.c: the text is printed, or the environment is destroyed.
use lab3a.Pmap.UserMem.{user_mem_check}
use lab3a.Base.{
  Option, ap, ◌∙◌, ◌/◌, ◌*◌, subst, sym, ℕ, ◌+◌, ◌^◌, ◌<◌, ◌≤◌, ◌≡◌, ◌≢◌, refl, some, true, false,
  ◌∷◌, ◌⊎◌, inl, inr, max, ==_ne, ==_self,
}
use lab3a.Mmu.{neg, e_fault, pte_u}
use lab3a.Machine.{
  ◌>>=◌, Kernel, Run, done, panicked, monitor_loop, user_mode, out_of_fuel, and_then, user_text,
  cprintf, M, ◌>>◌,
}
use lab3a.Machine.Runs.{Returns, Stays}
use lab3a.Machine.Convert.{Fits}
use lab3a.Pmap.UserMem.Loop.{TablesInMemory, allowed}
use lab3a.Pmap.UserMem.Range.{Checked, AllAllowed, user_mem_check-Checked}
use lab3a.Pmap.UserMem.Wraps.{user_mem_check_unseen}
use lab3a.Pmap.UserMem.Verdict.{pgdir_of}
use lab3a.Env.{env_id_at, envid2env, is_free, envx}
use lab3a.Env.Release.{Freed}
use lab3a.Syscall.{assert_at, sys_cputs, assert_result, user_mem_check}
use lab3a.Syscall.Destroy.{Freeable, destroyed_first}

-- The environment c is current, live, and bears an id of its own place.
pub record Caller (k : Kernel) (c : ℕ) : Type 0 where
  pub current : k.curenv ≡ some c
  pub live : is_free (k.envs c).env_status ≡ false
  pub id : (k.envs c).env_id ≢ 0
  pub place : envx (k.envs c).env_id ≡ c

envid2env-Caller :
    (k : Kernel) (c : ℕ) → Caller k c → envid2env (k.envs c).env_id true k ≡ done (0, some c) k
unfolding envid2env
envid2env-Caller k c me =
    simp (==_ne (k.envs c).env_id 0 me.id, me.place, me.live, ==_self, me.current) refl

sys_cputs-Caller :
    (k : Kernel) (c s len : ℕ)
    → Caller k c
    → sys_cputs s len k
      ≡ and_then
          (and_then (user_mem_check c s len pte_u k) (assert_result c))
          (λ _. cprintf (user_text s len))
unfolding sys_cputs
sys_cputs-Caller k c s len me =
    ap (λ (l : Option ℕ). and_then (env_id_at l k) from_id) me.current
    ∙ rw (envid2env-Caller k c me) refl
  where
    from_id : ℕ → M (Unit {0})
    from_id id = envid2env id true >>= λ found. assert_at found.1 s len >> cprintf (user_text s len)

-- What sys_cputs does: it prints a text that the caller may read, or destroys the caller because of
-- a byte that it may not.
abbrev pub Printed : Kernel → ℕ → ℕ → ℕ → ℕ → Run (Unit {0}) → Type 0
Printed k c d s len r =
    (AllAllowed k (pgdir_of k c) pte_u s (s + len)
      × Returns (λ _ k'. k' ≡ record k { messages = user_text s len ∷ k.messages }) r)
    ⊎ ((a : ℕ) × (s ≤ a)
        × (a < s + max len 1)
        × (allowed k (pgdir_of k c) pte_u a ≡ false)
        × Stays (Freed k c d) r)

asserted :
    (k : Kernel) (c d s len : ℕ) (r : Run ℕ)
    → Freeable k c d
    → Returns (Checked k (pgdir_of k c) s len pte_u) r
    → Printed k c d s len (and_then (and_then r (assert_result c)) (λ _. cprintf (user_text s len)))
unfolding assert_result
asserted k c d s len (done r k') free (inl (z, e, all)) = inl (all, rw (z, e) refl)
asserted k c d s len (done r k') free (inr (z, e, low, high, bad, all)) = inr (
  k'.user_mem_check_addr,
  low,
  high,
  bad,
  rw z (
      subst
        (λ (t : Kernel).
          Stays (Freed k c d)
            (and_then (assert_result c (neg e_fault) t) (λ _. cprintf (user_text s len))))
        (sym e)
        (destroyed_first (Unit {0}) (Unit {0}) k _ k'.user_mem_check_addr c d
          (λ _. cprintf (user_text s len)) free)),
)
asserted k c d s len (panicked p k') free h = absurd h
asserted k c d s len (monitor_loop k') free h = absurd h
asserted k c d s len (user_mode t k') free h = absurd h
asserted k c d s len out_of_fuel free h = absurd h

-- For a live current environment c that can be freed, whose page tables are in memory, and a text whose
-- range, rounded up to a page, stays below 2 ^ 32: sys_cputs prints the text and changes nothing else
-- when c may read every byte of it, and otherwise stays in the monitor with c freed, because of a byte
-- of the range that c may not read.
pub sys_cputs-Printed :
    (k : Kernel) (c d s len : ℕ)
    → Fits k
    → Caller k c
    → Freeable k c d
    → TablesInMemory k (pgdir_of k c)
    → s + len + 4095 < 2 ^ 32
    → Printed k c d s len (sys_cputs s len k)
sys_cputs-Printed k c d s len fits me free tables range =
    rw (sys_cputs-Caller k c s len me)
      (asserted k c d s len _ free (user_mem_check-Checked k c s len pte_u fits tables range))

-- A text whose end, or its rounding up to a page, passes 2 ^ 32, and wraps to no more than the start of the
-- text's first page, is printed for every live current environment, whatever it may read: the check of
-- the range grants it, and the kernel reads it.
pub sys_cputs_wraps :
    (k : Kernel) (c s len : ℕ)
    → Caller k c
    → s < 2 ^ 32
    → len < 2 ^ 32
    → 2 ^ 32 ≤ s + len + 4095
    → s + len ≤ 2 ^ 32 + s / 4096 * 4096
    → sys_cputs s len k ≡ done tt (record k { messages = user_text s len ∷ k.messages })
unfolding assert_result
sys_cputs_wraps k c s len me hs hl over back =
    rw (sys_cputs-Caller k c s len me, user_mem_check_unseen k c s len pte_u hs hl over (inl back))
      refl
