-- ===== src/Pmap/Boot.antt =====
-- Memory while the kernel starts: i386_detect_memory, boot_alloc, page_init and boot_map_region of
-- kern/pmap.c. The CMOS bytes that kern/kclock.c reads and the linker's symbol `end` are
-- parameters.
pub mod Detect
pub mod Alloc
pub mod Sweep
pub mod Region
pub mod Mapping
pub mod Regions
use lab3a.Base.{
  ℕ, zero, suc, ◌+◌, ◌-◌, ◌*◌, ◌/◌, ◌^◌, ◌≡◌, bit_or, Option, none, some, Bool, true, false, ◌&&◌,
  ltb, leb, ◌==◌, if◌then◌else◌, not,
}
use lab3a.Mmu.{u32, pgsize, kernbase, iophysmem, extphysmem, roundup, pte_p}
use lab3a.Machine.{
  Kernel, PageInfo, M, panic, out_of_memory, mapping_failed, out_of_fuel, pure, gets, modify, ◌>>=◌,
  ◌>>◌, store, set_page,
}
use lab3a.Pmap.Walk.{pgdir_walk}

-- What i386_detect_memory sets.
pub record MemorySize : Type 0 where
  pub npages : ℕ
  pub npages_basemem : ℕ

module _ (mc146818_read : ℕ → ℕ) where
  pub nvram_read : ℕ → ℕ
  nvram_read r = bit_or (mc146818_read r) (mc146818_read (r + 1) * 2 ^ 8)

  unfoldable pub i386_detect_memory : MemorySize
  i386_detect_memory =
      let basemem = nvram_read 0x15 in
      let extmem = nvram_read 0x17 in
      let ext16mem = u32 (nvram_read 0x34 * 64) in
      let totalmem =
        if not (ext16mem == 0)
        then u32 (16 * 1024 + ext16mem)
        else if not (extmem == 0)
        then u32 (1 * 1024 + extmem)
        else basemem in
      record { npages = totalmem / (pgsize / 1024); npages_basemem = basemem / (pgsize / 1024) }

module _ (end : ℕ) where
  -- The static variable is set on the first call.
  abbrev pub start_nextfree : ℕ → ℕ
  start_nextfree nextfree = if nextfree == 0 then roundup end pgsize else nextfree

  unfoldable pub boot_alloc : ℕ → M ℕ
  boot_alloc n = do
    modify (λ k. record k { nextfree = start_nextfree k.nextfree })
    result ← gets (λ k. k.nextfree)
    if n == 0 then pure result else do
      modify (λ k. record k { nextfree = roundup (u32 (result + n)) pgsize })
      over ← gets (λ k. ltb (u32 (kernbase + u32 (k.npages * pgsize))) k.nextfree)
      if over then panic out_of_memory else pure result

  mark_used : ℕ → M (Unit {0})
  mark_used i = modify (set_page i (record { pp_link = none; pp_ref = 1 }))

  mark_free : ℕ → M (Unit {0})
  mark_free i = do
    head ← gets (λ k. k.page_free_list)
    modify (set_page i (record { pp_link = head; pp_ref = 0 }))
    modify (λ k. record k { page_free_list = some i })

  -- The body of page_init's loop.
  pub page_init_at : ℕ → M (Unit {0})
  unfolding mark_used mark_free
  page_init_at i =
      if leb (iophysmem / pgsize) i && ltb i (extphysmem / pgsize)
      then mark_used i
      else if leb (extphysmem / pgsize) i
      then (do
        first ← boot_alloc 0
        if ltb i (u32 (first + 2 ^ 32 - kernbase) / pgsize) then mark_used i else mark_free i)
      else mark_free i

  -- `rounds` pages from `i` on.
  pub page_init_from : ℕ → ℕ → M (Unit {0})
  page_init_from zero i = pure tt
  page_init_from (suc rounds) i = page_init_at i >> page_init_from rounds (i + 1)

  unfoldable pub page_init : M (Unit {0})
  unfolding page_init_from page_init_at
  page_init = do
    modify (set_page 0 (record { pp_link = none; pp_ref = 1 }))
    npages ← gets (λ k. k.npages)
    page_init_from (npages - 1) 1

-- The entry that boot_map_region writes at offset `i`.
pub map_entry : ℕ → ℕ → ℕ → Option ℕ → M (Unit {0})
map_entry pa perm i none = panic mapping_failed
map_entry pa perm i (some p) = store p (bit_or (bit_or (u32 (pa + i)) perm) pte_p)

-- The loop of boot_map_region from `i` on; a round maps a page, and runs out of fuel at none.
pub map_from : (pgdir va size pa perm : ℕ) → ℕ → ℕ → M (Unit {0})
map_from pgdir va size pa perm zero i = λ k. out_of_fuel
map_from pgdir va size pa perm (suc fuel) i =
    let rest = map_from pgdir va size pa perm fuel (u32 (i + pgsize)) in
    if ltb i size
    then (do p ← pgdir_walk pgdir (u32 (va + i)) true; map_entry pa perm i p; rest)
    else pure tt

-- boot_map_region: 2 ^ 20 pages make the address space
unfoldable pub boot_map_region : (pgdir va size pa perm : ℕ) → M (Unit {0})
boot_map_region pgdir va size pa perm = map_from pgdir va size pa perm (2 ^ 20) 0
