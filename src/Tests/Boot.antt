-- ===== src/Tests/Boot.antt =====
-- Boot-time memory at a machine that has no free list yet.
use lab3a.Mmu.{pdx, present, ptx, pte_addr, pgoff}
use lab3a.Base.{
  ℕ, ◌+◌, ◌*◌, ◌/◌, ◌<◌, ◌≡◌, refl, none, arith, ◌==◌, if◌then◌else◌, leb, some, ◌-◌, ◌%◌, ◌^◌,
  false, ap, true, [], ◌∷◌,
}
use lab3a.Machine.{Kernel}
use lab3a.Machine.Runs.{Returns}
use lab3a.Machine.Convert.{kva}
use lab3a.Pmap.Boot.{boot_alloc, page_init, boot_map_region}
use lab3a.Pmap.Boot.Region.{missing, RegionMapped}
use lab3a.Pmap.Boot.Regions.{boot_map_region-RegionMapped}
use lab3a.Pmap.Walk.Grow.{Ready}
use lab3a.Pmap.Boot.Alloc.{boot_alloc_lem, boot_outcome}
use lab3a.Pmap.Boot.Sweep.{Swept, page_init-Swept, first_page}
use lab3a.Pmap.EntryTables.{Loaded, leaf-early, early, entry_pgtable, entry_pgdir}
use lab3a.Pmap.Walk.Translate.{leaf, word}
use lab3a.Tests.State.{small, small-Fits, small-Directory, small-FreeList, small-Fresh}

abbrev booting : Kernel
booting = record small { page_free_list = none }

abbrev booting_256mb : Kernel
booting_256mb = record booting { npages = 65536 }

-- The CMOS of a machine with 640KB and 66MB.
abbrev cmos : ℕ → ℕ
cmos r = if r == 0x15 then 128 else if r == 0x16 then 2 else if r == 0x35 then 3 else 32

cmos_bytes : (r : ℕ) → cmos r < 256
cmos_bytes r = ground arith

boot_alloc_lem_example : boot_alloc 0 8192 booting ≡ boot_outcome (kva 299) 8192 booting
boot_alloc_lem_example = boot_alloc_lem 0 8192 booting (omega arith) (omega arith) (omega arith)

page_init-Swept_example :
    Returns (λ _ k'. Swept booting (first_page booting) 600 k') (page_init 0 booting)
page_init-Swept_example =
    page_init-Swept 0 booting (λ e. absurd (omega (arith, e))) (omega arith) refl

small-Ready : Ready small 400 (300 ∷ 301 ∷ 302 ∷ [])
small-Ready = record {
  fits = small-Fits;
  dir = small-Directory;
  free = small-FreeList;
  fresh = (
    small-Fresh 300 (omega arith),
    (small-Fresh 301 (omega arith), (small-Fresh 302 (omega arith), tt)),
  );
}

-- Two pages in different slots, which both have no table yet; the second is used in part.
two_tables : missing small.mem 400 0xF03FF000 2 ≡ 2
unfolding missing pdx present
two_tables = refl

boot_map_region-RegionMapped_example :
    Returns
      (λ _ k'. RegionMapped small 400 0xF03FF000 0x100000 2 2 k')
      (boot_map_region (kva 400) 0xF03FF000 5000 0x100000 2 small)
boot_map_region-RegionMapped_example =
    boot_map_region-RegionMapped 2 small 400 0xF03FF000 5000 0x100000 2 (300 ∷ 301 ∷ 302 ∷ [])
      (omega arith) (omega arith) (omega arith) (omega arith) (λ j h. unfold pdx in omega arith)
      small-Ready (rw two_tables (omega arith))

-- The early tables in the pages 2 and 3.
abbrev early_mem : ℕ → ℕ
early_mem q =
    if leb (word 3 0) q
    then entry_pgtable ((q - word 3 0) / 4)
    else entry_pgdir (3 * 4096) ((q - word 2 0) / 4)

early_mem-Loaded : Loaded early_mem 2 3
early_mem-Loaded = record {
  directory = λ i h.
      let below : leb (word 3 0) (word 2 i) ≡ false = ground arith in
      let index : (word 2 i - word 2 0) / 4 ≡ i = omega arith in
      rw below (ap (λ (j : ℕ). entry_pgdir (3 * 4096) j) index);
  table = λ i h.
      let above : leb (word 3 0) (word 3 i) ≡ true = ground arith in
      let index : (word 3 i - word 3 0) / 4 ≡ i = omega arith in
      rw above (ap (λ (j : ℕ). entry_pgtable j) index);
}

leaf-early_example :
    (leaf early_mem (kva 2) 0xF0012345
      ≡ (if early 0xF0012345 then some (entry_pgtable (ptx 0xF0012345)) else none))
    × (pte_addr (entry_pgtable (ptx 0xF0012345)) + pgoff 0xF0012345 ≡ 0xF0012345 % 2 ^ 22)
leaf-early_example = leaf-early early_mem 2 3 0xF0012345 early_mem-Loaded (omega arith)
