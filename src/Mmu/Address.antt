-- ===== src/Mmu/Address.antt =====
-- The address macros of inc/mmu.h and the rounding macros of inc/types.h.
use lab3a.Base.{
  ℕ, ◌+◌, ◌-◌, ◌*◌, ◌/◌, ◌%◌, ◌^◌, ◌≤◌, ◌<◌, ◌≡◌, ap, ap₂, ◌∙◌, bit_or, bit_or_apart, arith,
}
use native.Mathlib.Nat.{div-add-mod', mul-mod_left, mod-lt}
use lab3a.Mmu.{u32, pgsize, pdx, ptx, pgoff, pgaddr, rounddown, roundup}

-- PGADDR of fields in range is their sum.
pub pgaddr_sum :
    (d t o : ℕ) → d < 1024 → t < 1024 → o < 4096 → pgaddr d t o ≡ d * 2 ^ 22 + t * 2 ^ 12 + o
unfolding pgaddr
pgaddr_sum d t o hd ht ho =
    ap₂ (λ (x y : ℕ). bit_or (bit_or x y) o) directory table
    ∙ ap (λ (x : ℕ). bit_or x o) (bit_or_apart 22 d (t * 2 ^ 12) (omega arith) ∙ above)
    ∙ bit_or_apart 12 (d * 1024 + t) o ho
    ∙ omega arith
  where
    directory : u32 (d * 2 ^ 22) ≡ d * 2 ^ 22
    directory = omega arith

    table : u32 (t * 2 ^ 12) ≡ t * 2 ^ 12
    table = omega arith

    above : d * 2 ^ 22 + t * 2 ^ 12 ≡ (d * 1024 + t) * 2 ^ 12
    above = omega arith

-- For a directory index, a table index and an offset in range, PGADDR builds an address from
-- which PDX, PTX and PGOFF read the three back.
pub pgaddr_fields :
    (d t o : ℕ)
    → d < 1024
    → t < 1024
    → o < 4096
    → (pdx (pgaddr d t o) ≡ d) × (ptx (pgaddr d t o) ≡ t) × (pgoff (pgaddr d t o) ≡ o)
unfolding pdx ptx pgoff
pgaddr_fields d t o hd ht ho = rw (pgaddr_sum d t o hd ht ho) (omega arith)

-- Every 32-bit address is the PGADDR of its own PDX, PTX and PGOFF.
pub pgaddr-pdx-ptx-pgoff : (la : ℕ) → la < 2 ^ 32 → pgaddr (pdx la) (ptx la) (pgoff la) ≡ la
unfolding pdx ptx pgoff
pgaddr-pdx-ptx-pgoff la h = omega (
  arith,
  pgaddr_sum (la / 2 ^ 22 % 1024) (la / 2 ^ 12 % 1024) (la % 2 ^ 12) (omega arith) (omega arith)
      (omega arith),
)

-- For a positive n, ROUNDDOWN gives the multiple of n at or below a 32-bit address, less than n
-- away.
pub rounddown_bounds :
    (a n : ℕ)
    → a < 2 ^ 32
    → 0 < n
    → (rounddown a n % n ≡ 0) × (rounddown a n ≤ a) × (a < rounddown a n + n)
unfolding rounddown
rounddown_bounds a n ha hn =
    let fits : a % 2 ^ 32 ≡ a = omega arith in
    rw fits (
      rw (multiple a n) (
        mul-mod_left (a / n) n,
        omega (arith, multiple a n),
        omega (arith, multiple a n, mod-lt a hn),
      ))
  where
    multiple : (a n : ℕ) → a - a % n ≡ a / n * n
    multiple a n = omega (arith, div-add-mod' a n)

pub roundup_page : (a : ℕ) → a + 4095 < 2 ^ 32 → roundup a pgsize ≡ (a + 4095) / 4096 * 4096
unfolding roundup
roundup_page a h = omega arith

-- From an address in the last page but its first byte, ROUNDUP to a page wraps to 0.
pub roundup_wraps : (a : ℕ) → a < 2 ^ 32 → 2 ^ 32 ≤ a + 4095 → roundup a pgsize ≡ 0
unfolding roundup
roundup_wraps a h k = omega arith
