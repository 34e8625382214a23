-- ===== src/Pmap/UserMem/Range.antt =====
-- user_mem_check as its callers see it, byte by byte.
use lab3a.Base.{
  ℕ, ◌+◌, ◌-◌, ◌*◌, ◌/◌, ◌^◌, max, ◌≤◌, ◌<◌, ◌≡◌, ◌⊎◌, refl, inl, inr, sym, ap, ◌∙◌, none, some,
  true, false, ltb, if◌then◌else◌, Option-cases, arith,
}
use lab3a.Mmu.{neg, e_fault}
use lab3a.Machine.{Kernel}
use lab3a.Machine.Convert.{Fits}
use lab3a.Machine.Runs.{Returns}
use lab3a.Pmap.UserMem.{user_mem_check}
use lab3a.Pmap.UserMem.Loop.{allowed, TablesInMemory, first_denied, verdict}
use lab3a.Pmap.UserMem.Verdict.{
  allowed-page, pages_of, check-verdict, first_denied-none, Found, first_denied-some, pgdir_of,
}

-- The bytes of the range from `va` on and below `end` are all allowed.
abbrev pub AllAllowed : Kernel → ℕ → ℕ → ℕ → ℕ → Type 0
AllAllowed k pgdir perm va end = (a : ℕ) → va ≤ a → a < end → allowed k pgdir perm a ≡ true

-- Granted: 0, nothing changed, and every byte of the range allowed. Refused: -E_FAULT, and
-- user_mem_check_addr is the first byte that is not allowed, in the range (an empty range in the
-- middle of a page counts as its first byte).
abbrev pub Checked : Kernel → ℕ → ℕ → ℕ → ℕ → ℕ → Kernel → Type 0
Checked k pgdir va len perm r k' =
    ((r ≡ 0) × (k' ≡ k) × AllAllowed k pgdir perm va (va + len))
    ⊎ ((r ≡ neg e_fault)
        × (k' ≡ record k { user_mem_check_addr = k'.user_mem_check_addr })
        × (va ≤ k'.user_mem_check_addr)
        × (k'.user_mem_check_addr < va + max len 1)
        × (allowed k pgdir perm k'.user_mem_check_addr ≡ false)
        × AllAllowed k pgdir perm va k'.user_mem_check_addr)

page_of : (va a : ℕ) → va ≤ a → a / 4096 * 4096 ≡ va / 4096 * 4096 + (a / 4096 - va / 4096) * 4096
page_of va a h = omega arith

module _ (k : Kernel) (pgdir va len perm : ℕ) (range : va + len + 4095 < 2 ^ 32) where
  granted :
      first_denied k pgdir perm (pages_of va len) (va / 4096 * 4096) ≡ none
      → AllAllowed k pgdir perm va (va + len)
  unfolding pages_of
  granted e a low high =
      sym (allowed-page k pgdir perm a (omega arith))
      ∙ ap (λ (x : ℕ). allowed k pgdir perm x) (page_of va a low)
      ∙ first_denied-none k pgdir perm (pages_of va len) (va / 4096 * 4096) (a / 4096 - va / 4096) e
          (omega arith)

  refused-Checked :
      (b : ℕ)
      → Found k pgdir perm (pages_of va len) (va / 4096 * 4096) b
      → Returns (Checked k pgdir va len perm) (verdict k va (some b))
  unfolding pages_of
  refused-Checked b f =
      inr (refl, refl, low b f.index f.place, high b f.index f.below f.place, bad, others)
    where
      x : ℕ
      x = if ltb b va then va else b

      low : (b i : ℕ) → b ≡ va / 4096 * 4096 + i * 4096 → va ≤ (if ltb b va then va else b)
      low b i q = ground arith

      high :
          (b i : ℕ)
          → i < (va + len + 4095) / 4096 - va / 4096
          → b ≡ va / 4096 * 4096 + i * 4096
          → (if ltb b va then va else b) < va + max len 1
      high b i h q = ground arith

      page :
          (b i : ℕ)
          → b ≡ va / 4096 * 4096 + i * 4096
          → (if ltb b va then va else b) / 4096 * 4096 ≡ b
      page b i q = ground arith

      bad : allowed k pgdir perm x ≡ false
      bad =
          sym (allowed-page k pgdir perm x (omega (arith, high b f.index f.below f.place)))
          ∙ ap (λ (y : ℕ). allowed k pgdir perm y) (page b f.index f.place)
          ∙ f.refused

      index :
          (b i a : ℕ)
          → b ≡ va / 4096 * 4096 + i * 4096
          → va ≤ a
          → a < (if ltb b va then va else b)
          → a / 4096 - va / 4096 < i
      index b i a q l h = ground arith

      others : AllAllowed k pgdir perm va x
      others a l h =
          sym (allowed-page k pgdir perm a (omega (arith, high b f.index f.below f.place)))
          ∙ ap (λ (y : ℕ). allowed k pgdir perm y) (page_of va a l)
          ∙ f.before (a / 4096 - va / 4096) (index b f.index a f.place l h)

module _ (k : Kernel) (env va len perm : ℕ) (fits : Fits k)
    (tables : TablesInMemory k (pgdir_of k env)) where
  -- Where the range and its rounding up to a page stay below 2 ^ 32, user_mem_check returns, and
  -- either grants access to a range of bytes that are all below ULIM and mapped with the
  -- permissions asked for, or refuses it and reports the first byte that is not.
  pub user_mem_check-Checked :
      va + len + 4095 < 2 ^ 32
      → Returns (Checked k (pgdir_of k env) va len perm) (user_mem_check env va len perm k)
  user_mem_check-Checked range =
      rw (check-verdict k env va len perm fits tables range)
        (elim (Option-cases
          (first_denied k (pgdir_of k env) perm (pages_of va len) (va / 4096 * 4096))) [
            | inl e ↦ rw e (inl (refl, refl, granted k (pgdir_of k env) va len perm range e))
            | inr (b, e) ↦ rw e (
                refused-Checked k (pgdir_of k env) va len perm range b (
                  first_denied-some k (pgdir_of k env) perm (pages_of va len) (va / 4096 * 4096) b
                    e))
          ])
