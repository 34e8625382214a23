-- ===== src/Loader/Segment.antt =====
-- readseg of boot/main.c loads what it should, and ends.
use lab3a.Base.{
  ℕ, zero, suc, ◌+◌, ◌-◌, ◌*◌, ◌/◌, ◌%◌, ◌^◌, ◌<◌, ◌≤◌, ◌≡◌, ◌⊎◌, inl, inr, refl, sym, ◌∙◌, ap,
  some, ltb, leb, ◌&&◌, if◌then◌else◌, arith, true, false, lt→ltb,
}
use lab3a.Mmu.{u32}
use lab3a.Strings.{Bytes}
use lab3a.Strings.Moves.{place, inside, outside}
use lab3a.Loader.{sectsize, readsect, read_sectors, readseg}

module _ (disk : Bytes) where
  -- The sectors from `offset` on stand at n places from pa on.
  abbrev pub loaded : Bytes → ℕ → ℕ → ℕ → Bytes
  loaded mem pa n offset q =
      if leb pa q && ltb q (pa + n) then disk (offset * sectsize + (q - pa)) else mem q

  loaded_in :
      (mem : Bytes) (pa n offset q p : ℕ)
      → pa ≤ q
      → q < pa + n
      → p ≡ offset * sectsize + (q - pa)
      → loaded mem pa n offset q ≡ disk p
  loaded_in mem pa n offset q p low high e =
      let here : (leb pa q && ltb q (pa + n)) ≡ true = ground arith in rw (here, e) refl

  loaded_out :
      (mem : Bytes) (pa n offset q : ℕ) → (q < pa) ⊎ (pa + n ≤ q) → loaded mem pa n offset q ≡ mem q
  loaded_out mem pa n offset q o =
      let away : (leb pa q && ltb q (pa + n)) ≡ false = ground arith in rw away refl

  -- One sector is read in front of the others.
  loaded-readsect :
      (mem : Bytes) (pa n offset q : ℕ)
      → loaded (readsect disk mem pa offset) (pa + sectsize) n (offset + 1) q
        ≡ loaded mem pa (sectsize + n) offset q
  loaded-readsect mem pa n offset q = elim (place (pa + sectsize) n q) [
    | inside low high ↦
        loaded_in (readsect disk mem pa offset) (pa + sectsize) n (offset + 1) q
          (offset * sectsize + (q - pa)) low high (omega arith)
        ∙ sym (
            loaded_in mem pa (sectsize + n) offset q (offset * sectsize + (q - pa)) (omega arith)
              (omega arith) refl)
    | outside o ↦
        loaded_out (readsect disk mem pa offset) (pa + sectsize) n (offset + 1) q o
        ∙ elim (place pa sectsize q) [
          | inside low high ↦
              loaded_in mem pa sectsize offset q (offset * sectsize + (q - pa)) low high refl
              ∙ sym (
                  loaded_in mem pa (sectsize + n) offset q (offset * sectsize + (q - pa)) low
                    (omega arith) refl)
          | outside out ↦
              loaded_out mem pa sectsize offset q out
              ∙ sym (loaded_out mem pa (sectsize + n) offset q (beyond o out))
        ]
  ]
    where
      beyond :
          (q < pa + sectsize) ⊎ (pa + sectsize + n ≤ q)
          → (q < pa) ⊎ (pa + sectsize ≤ q)
          → (q < pa) ⊎ (pa + (sectsize + n) ≤ q)
      beyond o out = ground arith

  read_sectors_more :
      (fuel : ℕ) (mem mem' : Bytes) (pa end_pa offset : ℕ)
      → pa < end_pa
      → pa + sectsize < 2 ^ 32
      → offset + 1 < 2 ^ 32
      → read_sectors disk fuel (readsect disk mem pa offset) (pa + sectsize) end_pa (offset + 1)
        ≡ some mem'
      → read_sectors disk (suc fuel) mem pa end_pa offset ≡ some mem'
  unfolding read_sectors
  read_sectors_more fuel mem mem' pa end_pa offset less fits small e =
      let next : u32 (pa + sectsize) ≡ pa + sectsize = omega arith in
      let sector : u32 (offset + 1) ≡ offset + 1 = omega arith in
      rw (lt→ltb pa end_pa less, next, sector) e

  readseg_start :
      (mem mem' : Bytes) (pa count offset : ℕ)
      → pa + count < 2 ^ 32
      → offset / sectsize + 1 < 2 ^ 32
      → read_sectors disk
          (suc (2 ^ 23))
          mem
          (pa - pa % sectsize)
          (pa + count)
          (offset / sectsize + 1)
        ≡ some mem'
      → readseg disk mem pa count offset ≡ some mem'
  unfolding readseg
  readseg_start mem mem' pa count offset fits small e =
      let end : u32 (pa + count) ≡ pa + count = omega arith in
      let sector : u32 (offset / sectsize + 1) ≡ offset / sectsize + 1 = omega arith in
      go (suc (2 ^ 23)) end sector e
    where
      go :
          (fuel : ℕ)
          → u32 (pa + count) ≡ pa + count
          → u32 (offset / sectsize + 1) ≡ offset / sectsize + 1
          → read_sectors disk fuel mem (pa - pa % sectsize) (pa + count) (offset / sectsize + 1)
            ≡ some mem'
          → read_sectors disk fuel mem
              (pa - pa % sectsize)
              (u32 (pa + count))
              (u32 (offset / sectsize + 1))
            ≡ some mem'
      go fuel end sector e = rw (end, sector) e

  -- With the end in the n-th sector, n sectors are read.
  read_sectors-loaded :
      (n fuel : ℕ) (mem : Bytes) (pa end_pa offset : ℕ)
      → n < fuel
      → end_pa ≤ pa + sectsize * n
      → pa + sectsize * n < end_pa + sectsize
      → pa + sectsize * n < 2 ^ 32
      → offset + n < 2 ^ 32
      → (mem' : Bytes) × (read_sectors disk fuel mem pa end_pa offset ≡ some mem')
        × ((q : ℕ) → mem' q ≡ loaded mem pa (sectsize * n) offset q)
  unfolding read_sectors
  read_sectors-loaded n zero mem pa end_pa offset h low high fits small = absurd (omega arith)
  read_sectors-loaded zero (suc fuel) mem pa end_pa offset h low high fits small =
      let over : ltb pa end_pa ≡ false = ground arith in
      (mem, rw over refl, λ q. sym (loaded_out mem pa 0 offset q (ground arith)))
  read_sectors-loaded (suc n) (suc fuel) mem pa end_pa offset h low high fits small =
      let size : sectsize + sectsize * n ≡ sectsize * suc n = omega arith in
      let ih =
        read_sectors-loaded n fuel (readsect disk mem pa offset) (pa + sectsize) end_pa (offset + 1)
          (omega arith) (omega arith) (omega arith) (omega arith) (omega arith) in
      (
        ih.0,
        read_sectors_more fuel mem ih.0 pa end_pa offset (omega arith) (omega arith) (omega arith)
            ih.1,
        λ q.
            ih.2 q
            ∙ loaded-readsect mem pa (sectsize * n) offset q
            ∙ ap (λ (m : ℕ). loaded mem pa m offset q) size,
      )

  -- For a segment whose end, rounded up to a sector, is below 2 ^ 32, and whose place on the disk and in memory
  -- lie alike in their sectors: readseg ends, puts the count bytes of the kernel's image from the offset on,
  -- which starts at the disk's second sector, to pa, and writes nothing outside the sectors that these bytes
  -- touch.
  pub readseg_lem :
      (mem : Bytes) (pa count offset : ℕ)
      → pa + count + sectsize ≤ 2 ^ 32
      → 0 < count
      → offset < 2 ^ 32
      → offset % sectsize ≡ pa % sectsize
      → (mem' : Bytes) × (readseg disk mem pa count offset ≡ some mem')
        × ((i : ℕ) → i < count → mem' (pa + i) ≡ disk (sectsize + (offset + i)))
        × ((q : ℕ) → (q + sectsize ≤ pa) ⊎ (pa + count + sectsize ≤ q) → mem' q ≡ mem q)
  readseg_lem mem pa count offset fits some_bytes small alike =
      let start = pa - pa % sectsize in
      let n = (pa + count + 511) / sectsize - pa / sectsize in
      let r =
        read_sectors-loaded n (suc (2 ^ 23)) mem start (pa + count) (offset / sectsize + 1)
          (omega arith) (omega arith) (omega arith) (omega arith) (omega arith) in
      (
        r.0,
        readseg_start mem r.0 pa count offset (omega arith) (omega arith) r.1,
        λ i h.
            r.2 (pa + i)
            ∙ loaded_in mem start (sectsize * n) (offset / sectsize + 1) (pa + i)
                (sectsize + (offset + i)) (omega arith) (omega arith) (omega arith),
        λ q o. r.2 q ∙ loaded_out mem start (sectsize * n) (offset / sectsize + 1) q (away q o),
      )
    where
      away :
          (q : ℕ)
          → (q + sectsize ≤ pa) ⊎ (pa + count + sectsize ≤ q)
          → (q < pa - pa % sectsize)
            ⊎ (pa - pa % sectsize + sectsize * ((pa + count + 511) / sectsize - pa / sectsize) ≤ q)
      away q o = elim o [ inl l ↦ inl (omega arith) | inr l ↦ inr (omega arith) ]
