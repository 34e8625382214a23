-- ===== src/Pmap/UserMem/Verdict.antt =====
-- What the loop of user_mem_check finds, as a statement on bytes.
use lab3a.Base.{
  ℕ, zero, suc, ◌+◌, ◌-◌, ◌*◌, ◌/◌, ◌%◌, ◌^◌, ◌<◌, ◌≡◌, refl, inl, inr, ap, ◌∙◌, none, some, true,
  false, ltb, subst, Bool-cases, arith,
}
use lab3a.Mmu.{ulim, u32, pgsize, pdx, ptx, rounddown, roundup}
use lab3a.Mmu.Address.{roundup_page}
use lab3a.Machine.{Kernel}
use lab3a.Machine.Convert.{Fits}
use lab3a.Pmap.UserMem.{user_mem_check}
use lab3a.Pmap.UserMem.Loop.{
  allowed, TablesInMemory, first_denied, verdict, check_loop-first_denied,
}

abbrev pub pgdir_of : Kernel → ℕ → ℕ
pgdir_of k env = (k.envs env).env_pgdir

-- The bytes of a page are allowed together.
pub allowed-page :
    (k : Kernel) (pgdir perm a : ℕ)
    → a < 2 ^ 32
    → allowed k pgdir perm (a / 4096 * 4096) ≡ allowed k pgdir perm a
allowed-page k pgdir perm a h = rw (directory, table, below) refl
  where
    directory : pdx (a / 4096 * 4096) ≡ pdx a
    directory = unfold pdx in omega arith

    table : ptx (a / 4096 * 4096) ≡ ptx a
    table = unfold ptx in omega arith

    below : ltb (a / 4096 * 4096) ulim ≡ ltb a ulim
    below = ground arith

unfoldable pub pages_of : ℕ → ℕ → ℕ
pages_of va len = (va + len + 4095) / 4096 - va / 4096

module _ (k : Kernel) (env va len perm : ℕ) (fits : Fits k)
    (tables : TablesInMemory k (pgdir_of k env)) (range : va + len + 4095 < 2 ^ 32) where
  pub check-verdict :
      user_mem_check env va len perm k
      ≡ verdict k va (first_denied k (pgdir_of k env) perm (pages_of va len) (va / 4096 * 4096))
  unfolding user_mem_check rounddown pages_of
  check-verdict =
      rw (fits_end, start)
        (check_loop-first_denied k (pgdir_of k env) va perm fits tables (2 ^ 20) (pages_of va len)
          (va / 4096 * 4096) _ (omega arith) (omega arith) (omega arith))
    where
      start : va % 2 ^ 32 - va % 2 ^ 32 % 4096 ≡ va / 4096 * 4096
      start = omega arith

      fits_end : roundup (u32 (va + len)) pgsize ≡ (va + len + 4095) / 4096 * 4096
      fits_end = ap (λ (x : ℕ). roundup x pgsize) (omega arith) ∙ roundup_page (va + len) range

pub first_denied-none :
    (k : Kernel) (pgdir perm n addr i : ℕ)
    → first_denied k pgdir perm n addr ≡ none
    → i < n
    → allowed k pgdir perm (addr + i * 4096) ≡ true
unfolding first_denied
first_denied-none k pgdir perm zero addr i e h = absurd (omega arith)
first_denied-none k pgdir perm (suc n) addr i e h = elim (Bool-cases (allowed k pgdir perm addr)) [
  | inl ok ↦ go i ok (first_denied-none k pgdir perm n (addr + 4096)) (rw ok at e) h
  | inr bad ↦ absurd (none≢some (rw bad at e))
]
  where
    none≢some : some addr ≡ none → ⊥
    none≢some q = cc

    go :
        (i : ℕ)
        → allowed k pgdir perm addr ≡ true
        → ((i : ℕ)
            → first_denied k pgdir perm n (addr + 4096) ≡ none
            → i < n
            → allowed k pgdir perm (addr + 4096 + i * 4096) ≡ true)
        → first_denied k pgdir perm n (addr + 4096) ≡ none
        → i < suc n
        → allowed k pgdir perm (addr + i * 4096) ≡ true
    go zero ok ih e h = let q : addr + 0 * 4096 ≡ addr = omega arith in rw q ok
    go (suc i) ok ih e h =
        let q : addr + suc i * 4096 ≡ addr + 4096 + i * 4096 = omega arith in
        rw q (ih i e (omega arith))

-- The page that was found: its place, that it is refused, and that those before it are not.
pub record Found (k : Kernel) (pgdir perm n addr b : ℕ) : Type 0 where
  pub index : ℕ
  pub below : index < n
  pub place : b ≡ addr + index * 4096
  pub refused : allowed k pgdir perm b ≡ false
  pub before : (j : ℕ) → j < index → allowed k pgdir perm (addr + j * 4096) ≡ true

pub first_denied-some :
    (k : Kernel) (pgdir perm n addr b : ℕ)
    → first_denied k pgdir perm n addr ≡ some b
    → Found k pgdir perm n addr b
unfolding first_denied
first_denied-some k pgdir perm zero addr b e = absurd (ground arith)
first_denied-some k pgdir perm (suc n) addr b e = elim (Bool-cases (allowed k pgdir perm addr)) [
  | inl ok ↦ further ok (first_denied-some k pgdir perm n (addr + 4096) b (rw ok at e))
  | inr bad ↦ here bad (same_of (rw bad at e))
]
  where
    same_of : some addr ≡ some b → addr ≡ b
    same_of q = cc

    here : allowed k pgdir perm addr ≡ false → addr ≡ b → Found k pgdir perm (suc n) addr b
    here bad q = record {
      index = 0;
      below = omega arith;
      place = omega arith;
      refused = subst (λ x. allowed k pgdir perm x ≡ false) q bad;
      before = λ j h. absurd (omega arith);
    }

    before_next :
        (m : ℕ)
        → allowed k pgdir perm addr ≡ true
        → ((j : ℕ) → j < m → allowed k pgdir perm (addr + 4096 + j * 4096) ≡ true)
        → (j : ℕ) → j < suc m
        → allowed k pgdir perm (addr + j * 4096) ≡ true
    before_next m ok ih zero h = let q : addr + 0 * 4096 ≡ addr = omega arith in rw q ok
    before_next m ok ih (suc j) h =
        let q : addr + suc j * 4096 ≡ addr + 4096 + j * 4096 = omega arith in
        rw q (ih j (omega arith))

    further :
        allowed k pgdir perm addr ≡ true
        → Found k pgdir perm n (addr + 4096) b
        → Found k pgdir perm (suc n) addr b
    further ok f = record {
      index = suc f.index;
      below = omega (arith, f.below);
      place = omega (arith, f.place);
      refused = f.refused;
      before = before_next f.index ok f.before;
    }
