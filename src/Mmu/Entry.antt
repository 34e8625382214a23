-- ===== src/Mmu/Entry.antt =====
-- Page table entries built by `page2pa(pp) | perm | PTE_P`.
use lab3a.Base.{
  bit_and, bit_and-one, ◌==◌, ap, ℕ, ◌*◌, ◌<◌, ◌≡◌, true, bit_or, arith, bit_or_high, bit_or-low,
  ==_iff, ◌∙◌,
}
use lab3a.Mmu.{pte_p, pte_addr, present, pte_u, pte_w, pgnum}

module _ (pa perm : ℕ) (small : perm < 4096) where
  -- The frame of an entry is the frame that was put in.
  pub pte_addr-entry : pte_addr (bit_or (bit_or pa perm) pte_p) ≡ pte_addr pa
  unfolding pte_addr
  pte_addr-entry =
      omega (arith, bit_or_high 12 (bit_or pa perm) 1 (omega arith), bit_or_high 12 pa perm small)

pub present-entry : (x : ℕ) → present (bit_or x pte_p) ≡ true
unfolding present
present-entry x = (==_iff _ 1).1 (omega (arith, bit_or-low x 1))

-- `|=` of permission bits keeps an entry present, with its frame.
pub pte_addr-or : (x perm : ℕ) → perm < 4096 → pte_addr (bit_or x perm) ≡ pte_addr x
unfolding pte_addr
pte_addr-or x perm small = omega (arith, bit_or_high 12 x perm small)

pub present-or : (x perm : ℕ) → present x ≡ true → present (bit_or x perm) ≡ true
unfolding present
present-or x perm h = (==_iff _ 1).1 (omega (arith, (==_iff _ 1).0 h, bit_or-low x perm))

-- The directory entry that pgdir_walk makes for a new table.
abbrev pub table_entry : ℕ → ℕ
table_entry pa = bit_or (bit_or (bit_or pa pte_u) pte_w) pte_p

pub pte_addr-table_entry : (pa : ℕ) → pte_addr (table_entry pa) ≡ pte_addr pa
pte_addr-table_entry pa =
    pte_addr-entry (bit_or pa pte_u) pte_w (omega arith) ∙ pte_addr-or pa pte_u (omega arith)

pub pgnum-pte_addr : (x : ℕ) → pgnum (pte_addr x) ≡ pgnum x
unfolding pgnum pte_addr
pgnum-pte_addr x = omega arith

pub pgnum_of_pte_addr : (x p : ℕ) → pte_addr x ≡ p * 4096 → pgnum x ≡ p
unfolding pgnum pte_addr
pgnum_of_pte_addr x p h = omega arith

pub pte_addr_page : (p : ℕ) → pte_addr (p * 4096) ≡ p * 4096
unfolding pte_addr
pte_addr_page p = omega arith

pub bit_and-pte_p : (x : ℕ) → (bit_and x pte_p == 1) ≡ present x
unfolding present
bit_and-pte_p x = ap (λ (t : ℕ). t == 1) (bit_and-one x)
