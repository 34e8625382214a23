-- ===== src/Machine/Convert.antt =====
-- Between physical addresses, kernel virtual addresses and page records: kern/pmap.h.
use lab3a.Base.{ℕ, ◌+◌, ◌-◌, ◌*◌, ◌^◌, ◌≤◌, ◌<◌, ◌≡◌, arith, ltb, leb, if◌then◌else◌}
use lab3a.Mmu.{u32, kernbase, pgnum}
use lab3a.Machine.{Kernel, M, done, pure, panic, paddr_invalid, kaddr_invalid, pa2page_invalid}

-- PADDR(kva)
unfoldable pub paddr : ℕ → M ℕ
paddr kva = if ltb kva kernbase then panic paddr_invalid else pure (kva - kernbase)

-- KADDR(pa)
unfoldable pub kaddr : ℕ → M ℕ
kaddr pa k = if leb k.npages (pgnum pa) then panic kaddr_invalid k else pure (u32 (pa + kernbase)) k

-- page2pa(pp)
unfoldable pub page2pa : ℕ → ℕ
page2pa pp = u32 (pp * 2 ^ 12)

-- pa2page(pa)
unfoldable pub pa2page : ℕ → M ℕ
pa2page pa k = if leb k.npages (pgnum pa) then panic pa2page_invalid k else pure (pgnum pa) k

-- page2kva(pp)
unfoldable pub page2kva : ℕ → M ℕ
unfolding kaddr page2pa
page2kva pp = kaddr (page2pa pp)

-- The kernel virtual address of a page that physical memory has.
abbrev pub kva : ℕ → ℕ
kva pp = kernbase + pp * 4096

-- Physical memory that the window above KERNBASE can show: 256MB.
abbrev pub Fits : Kernel → Type 0
Fits k = k.npages ≤ 65536

pub page2pa-eq : (pp : ℕ) → pp < 65536 → page2pa pp ≡ pp * 4096
unfolding page2pa
page2pa-eq pp h = omega arith

module _ {k : Kernel} {pp : ℕ} (fits : Fits k) (h : pp < k.npages) where
  pub page2kva-ok : page2kva pp k ≡ done (kva pp) k
  unfolding page2kva pgnum
  page2kva-ok = ground arith

  pub pa2page-page2pa : pa2page (page2pa pp) k ≡ done pp k
  unfolding pa2page page2pa pgnum
  pa2page-page2pa = ground arith

pub pa2page-ok : (k : Kernel) (pa : ℕ) → pgnum pa < k.npages → pa2page pa k ≡ done (pgnum pa) k
unfolding pa2page
pa2page-ok k pa h = ground arith

pub paddr-kva : (k : Kernel) (p : ℕ) → paddr (kva p) k ≡ done (p * 4096) k
unfolding paddr
paddr-kva k p = ground arith
