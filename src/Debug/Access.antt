-- ===== src/Debug/Access.antt =====
-- What debuginfo_eip reads of a program: only tables that the program itself may read.
use lab3a.Base.{
  ℕ, ◌+◌, ◌^◌, ◌<◌, ◌≡◌, ◌⊎◌, inl, inr, refl, sym, subst, Option, some, ◌==◌, if◌then◌else◌, arith,
  leb, false,
}
use lab3a.Mmu.{neg, pte_u, ulim}
use lab3a.Machine.{Kernel, M, pure, and_then}
use lab3a.Machine.Convert.{Fits}
use lab3a.Machine.Runs.{Returns, Returns-bind}
use lab3a.Strings.{Bytes}
use lab3a.Pmap.UserMem.{user_mem_check}
use lab3a.Pmap.UserMem.Loop.{TablesInMemory}
use lab3a.Pmap.UserMem.Range.{Checked, AllAllowed, user_mem_check-Checked}
use lab3a.Pmap.UserMem.Verdict.{pgdir_of}
use lab3a.Debug.Lookup.{Answer, UserStabData, initial, lookup, stab_size, stabstr_size}
use lab3a.Debug.Eip.{ustabdata, user_tables, check_current, guarded, debuginfo_eip}

-- -1 with the structure that debuginfo_eip starts from, and no change but to user_mem_check_addr.
abbrev pub Refused : Kernel → ℕ → Answer → Kernel → Type 0
Refused k addr r k' =
    (r ≡ some (neg 1, initial addr))
    × (k' ≡ record k { user_mem_check_addr = k'.user_mem_check_addr })

-- The tables are searched, without a change of state, and the environment c may read the structure at
-- USTABDATA, the first stab, and the string table.
abbrev pub Searched : Kernel → ℕ → ℕ → Bytes → ℕ → Answer → Kernel → Type 0
Searched k c fuel mem addr r k' =
    (r ≡ lookup fuel mem (user_tables mem) addr)
    × (k' ≡ k)
    × AllAllowed k (pgdir_of k c) pte_u ustabdata (ustabdata + 16)
    × AllAllowed k (pgdir_of k c) pte_u (user_tables mem).stabs
        ((user_tables mem).stabs + stab_size)
    × AllAllowed k (pgdir_of k c) pte_u (user_tables mem).stabstr
        ((user_tables mem).stabstr + stabstr_size (user_tables mem))

module _ (k : Kernel) (c addr : ℕ) (Q : Answer → Kernel → Type 0) (fits : Fits k)
    (tables : TablesInMemory k (pgdir_of k c)) (current : k.curenv ≡ some c)
    (refused : (k' : Kernel)
      → Refused k addr (some (neg 1, initial addr)) k'
      → Q (some (neg 1, initial addr)) k') where
  abbrev guarded_by : M Answer → ℕ → M Answer
  guarded_by rest bad = if bad == 0 then rest else pure (some (neg 1, initial addr))

  guarded_lem :
      (va len : ℕ) (rest : M Answer)
      → va + len + 4095 < 2 ^ 32
      → (AllAllowed k (pgdir_of k c) pte_u va (va + len) → Returns Q (rest k))
      → Returns Q (guarded addr va len rest k)
  guarded_lem va len rest range next =
      subst (λ (o : Option ℕ). Returns Q (and_then (check_current va len o k) (guarded_by rest)))
        (sym current)
        (Returns-bind (Checked k (pgdir_of k c) va len pte_u) Q (user_mem_check c va len pte_u k)
          (guarded_by rest) (user_mem_check-Checked k c va len pte_u fits tables range) after)
    where
      after :
          (bad : ℕ) (k' : Kernel)
          → Checked k (pgdir_of k c) va len pte_u bad k'
          → Returns Q (guarded_by rest bad k')
      after bad k' (inl (z, same, all)) =
          rw z (subst (λ (s : Kernel). Returns Q (rest s)) (sym same) (next all))
      after bad k' (inr (z, same, _, _, _, _)) = rw z (refused k' (refl, same))

-- For an address below ULIM and a current environment whose page tables are in memory: debuginfo_eip
-- returns, either with -1 and an untouched structure, or with what the search of the program's tables
-- gives, and then the program may itself read the structure at USTABDATA, the first of its stabs and its
-- whole string table, where these ranges do not wrap.
pub debuginfo_eip-Access :
    (k : Kernel) (c fuel : ℕ) (mem : Bytes) (kernel_tables : UserStabData) (addr : ℕ)
    → Fits k
    → TablesInMemory k (pgdir_of k c)
    → k.curenv ≡ some c
    → addr < ulim
    → (user_tables mem).stabs + 2 ^ 13 < 2 ^ 32
    → (user_tables mem).stabstr + stabstr_size (user_tables mem) + 4095 < 2 ^ 32
    → Returns
        (λ r k'. Refused k addr r k' ⊎ Searched k c fuel mem addr r k')
        (debuginfo_eip fuel mem kernel_tables addr k)
unfolding debuginfo_eip
debuginfo_eip-Access k c fuel mem kernel_tables addr fits tables current low stabs_fit str_fit =
    let outcome : Answer → Kernel → Type 0 =
      λ r k'. Refused k addr r k' ⊎ Searched k c fuel mem addr r k' in
    let t = user_tables mem in
    rw (lt→leb_false low) (
      guarded_lem k c addr outcome fits tables current (λ k' r. inl r) ustabdata 16
        (guarded addr t.stabs stab_size
          (guarded addr t.stabstr (stabstr_size t) (pure (lookup fuel mem t addr))))
        (omega arith)
        (λ first.
          guarded_lem k c addr outcome fits tables current (λ k' r. inl r) t.stabs stab_size
            (guarded addr t.stabstr (stabstr_size t) (pure (lookup fuel mem t addr))) (omega arith)
            (λ second.
              guarded_lem k c addr outcome fits tables current (λ k' r. inl r) t.stabstr
                (stabstr_size t) (pure (lookup fuel mem t addr)) str_fit
                (λ third. inr (refl, refl, first, second, third)))))
  where
    lt→leb_false : addr < ulim → leb ulim addr ≡ false
    lt→leb_false h = ground arith
