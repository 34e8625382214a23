-- ===== src/Mmu.antt =====
-- Addresses and page table entries: inc/mmu.h, the rounding macros of inc/types.h and the layout
-- constants of inc/memlayout.h. A `uint32_t` is a number below 2 ^ 32; a mask of low ones is a
-- remainder, its complement the part above.
pub mod Address
pub mod Entry
use lab3a.Base.{ℕ, ◌+◌, ◌-◌, ◌*◌, ◌/◌, ◌%◌, ◌^◌, bit_or, Bool, ◌==◌, leb}

abbrev pub u32 : ℕ → ℕ
u32 x = x % 2 ^ 32

abbrev pub pgsize : ℕ
pgsize = 4096

abbrev pub ptsize : ℕ
ptsize = pgsize * 1024

abbrev pub kernbase : ℕ
kernbase = 0xF0000000

abbrev pub iophysmem : ℕ
iophysmem = 0x0A0000

abbrev pub extphysmem : ℕ
extphysmem = 0x100000

-- KSTACKTOP - PTSIZE - PTSIZE
abbrev pub ulim : ℕ
ulim = kernbase - ptsize - ptsize

abbrev pub uvpt : ℕ
uvpt = ulim - ptsize

abbrev pub upages : ℕ
upages = uvpt - ptsize

abbrev pub uenvs : ℕ
uenvs = upages - ptsize

abbrev pub utop : ℕ
utop = uenvs

abbrev pub ustacktop : ℕ
ustacktop = utop - 2 * pgsize

abbrev pub pte_p : ℕ
pte_p = 1

abbrev pub pte_w : ℕ
pte_w = 2

abbrev pub pte_u : ℕ
pte_u = 4

-- PGNUM(la)
unfoldable pub pgnum : ℕ → ℕ
pgnum la = la / 2 ^ 12

-- PDX(la)
unfoldable pub pdx : ℕ → ℕ
pdx la = la / 2 ^ 22 % 1024

-- PTX(la)
unfoldable pub ptx : ℕ → ℕ
ptx la = la / 2 ^ 12 % 1024

-- PGOFF(la)
unfoldable pub pgoff : ℕ → ℕ
pgoff la = la % 2 ^ 12

-- PGADDR(d, t, o)
unfoldable pub pgaddr : ℕ → ℕ → ℕ → ℕ
pgaddr d t o = bit_or (bit_or (u32 (d * 2 ^ 22)) (u32 (t * 2 ^ 12))) o

-- PTE_ADDR(pte): the low twelve bits cleared
unfoldable pub pte_addr : ℕ → ℕ
pte_addr pte = pte / 2 ^ 12 * 2 ^ 12

-- pte & PTE_P, as a test
unfoldable pub present : ℕ → Bool
present pte = pte % 2 == 1

-- ROUNDDOWN(a, n)
unfoldable pub rounddown : ℕ → ℕ → ℕ
rounddown a n = u32 a - u32 a % n

-- ROUNDUP(a, n): the sum wraps
unfoldable pub roundup : ℕ → ℕ → ℕ
unfolding rounddown
roundup a n = rounddown (u32 (u32 a + u32 n + 2 ^ 32 - 1)) n

-- inc/error.h; a function that returns an `int` returns its 32-bit pattern, so -E_X is a wrap
abbrev pub e_bad_env : ℕ
e_bad_env = 2

abbrev pub e_inval : ℕ
e_inval = 3

abbrev pub e_no_mem : ℕ
e_no_mem = 4

abbrev pub e_no_free_env : ℕ
e_no_free_env = 5

abbrev pub e_fault : ℕ
e_fault = 6

abbrev pub neg : ℕ → ℕ
neg n = u32 (2 ^ 32 - n)

-- x < 0 for an `int`
abbrev pub is_negative : ℕ → Bool
is_negative x = leb (2 ^ 31) x
