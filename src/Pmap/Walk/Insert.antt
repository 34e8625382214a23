-- ===== src/Pmap/Walk/Insert.antt =====
-- page_insert maps one page and leaves the other translations.
use lab3a.Base.{
  ℕ, ◌+◌, ◌%◌, ◌≡◌, ◌≢◌, inl, inr, some, true, bit_or, Bool-cases, update, update-update, arith,
  if◌then◌else◌, ◌<◌, update_ne, ◌∙◌, update_keep, sym, ap,
}
use lab3a.Mmu.{pgnum, pdx, pte_addr, present, pte_p}
use lab3a.Mmu.Entry.{bit_and-pte_p, pgnum-pte_addr, present-or, pte_addr-or}
use lab3a.Machine.{Kernel, done, set_page}
use lab3a.Machine.Convert.{kva, Fits, page2pa}
use lab3a.Pmap.Page.Release.{mem-dropped}
use lab3a.Pmap.Walk.{pde_ptr, insert_at, page_remove}
use lab3a.Pmap.Walk.Translate.{
  pte_at, leaf, Directory, leaf_in_frame, Directory-frame, word, pdx-lt, Apart,
}
use lab3a.Pmap.Walk.Runs.{pde_of, InMemory}
use lab3a.Pmap.Walk.Remove.{
  removed, page_remove-some, word_outside, entry_outside, leaf-write_ne, leaf-write_self,
}

-- One reference more, on 16 bits.
abbrev pub bumped : ℕ → Kernel → Kernel
bumped pp k = set_page pp (record (k.pages pp) { pp_ref = ((k.pages pp).pp_ref + 1) % 65536 }) k

-- The old mapping of `va`, whose entry stands at `ptr`, removed.
abbrev pub evicted : ℕ → ℕ → Kernel → Kernel
evicted va ptr k =
    if present (k.mem ptr) then removed va (pgnum (pte_addr (k.mem ptr))) ptr k else k

-- The entry written, and the permissions added to the directory entry.
abbrev pub mapped_mem : ℕ → ℕ → ℕ → ℕ → (ℕ → ℕ) → ℕ → ℕ
mapped_mem ptr pte pde perm mem =
    let mem' = update mem ptr pte in update mem' pde (bit_or (mem' pde) perm)

abbrev pub leaf_entry : ℕ → ℕ → ℕ
leaf_entry pp perm = bit_or (bit_or (page2pa pp) perm) pte_p

abbrev pub inserted : ℕ → ℕ → ℕ → ℕ → ℕ → Kernel → Kernel
inserted ptr pp va perm pde k =
    let k' = evicted va ptr (bumped pp k) in
    record k' { mem = mapped_mem ptr (leaf_entry pp perm) pde perm k'.mem }

module _ (k : Kernel) (d va : ℕ) (fits : Fits k) (dir : Directory k.npages k.mem d)
    (user : pdx va ≢ 957) (table : present (pde_of k (kva d) va) ≡ true) where
  abbrev pub ptr_of : ℕ
  ptr_of = pte_at (pde_of k (kva d) va) va

  evict-ok :
      (pp : ℕ)
      → ((pte : ℕ) → leaf k.mem (kva d) va ≡ some pte → InMemory k pte)
      → (if present (k.mem ptr_of) then page_remove (kva d) va else (λ k'. done tt k'))
          (bumped pp k)
        ≡ done tt (evicted va ptr_of (bumped pp k))
  evict-ok pp mapped = elim (Bool-cases (present (k.mem ptr_of))) [
    | inl h ↦ rw h (
        page_remove-some (bumped pp k) d va fits dir user (k.mem ptr_of) (ground arith)
          (mapped (k.mem ptr_of) (ground arith)))
    | inr h ↦ rw h
  ]

  pub insert_at-ok :
      (pp perm : ℕ)
      → ((pte : ℕ) → leaf k.mem (kva d) va ≡ some pte → InMemory k pte)
      → insert_at (kva d) pp va perm (some ptr_of) k
        ≡ done 0 (inserted ptr_of pp va perm (pde_ptr (kva d) va) k)
  unfolding insert_at
  insert_at-ok pp perm mapped = rw (bit_and-pte_p (k.mem ptr_of), evict-ok pp mapped)

  pub mem-evicted :
      (pp pte : ℕ)
      → update (evicted va ptr_of (bumped pp k)).mem ptr_of pte ≡ update k.mem ptr_of pte
  mem-evicted pp pte = elim (Bool-cases (present (k.mem ptr_of))) [
    | inl h ↦ rw (h, mem-dropped) (update-update k.mem ptr_of 0 pte)
    | inr h ↦ rw h
  ]

-- Permission bits added to a directory entry change no translation.
module _ (npages : ℕ) (mem : ℕ → ℕ) (d va perm : ℕ) (dir : Directory npages mem d)
    (user : pdx va ≢ 957) (table : present (mem (pde_ptr (kva d) va)) ≡ true)
    (small : perm < 4096) where
  abbrev widened : ℕ → ℕ
  widened = update mem (pde_ptr (kva d) va) (bit_or (mem (pde_ptr (kva d) va)) perm)

  widened-present : (q : ℕ) → present (widened q) ≡ present (mem q)
  widened-present q =
      update_keep present mem (pde_ptr (kva d) va) q _
        (present-or (mem (pde_ptr (kva d) va)) perm table ∙ sym table)

  widened-addr : (q : ℕ) → pte_addr (widened q) ≡ pte_addr (mem q)
  widened-addr q =
      update_keep pte_addr mem (pde_ptr (kva d) va) q _
        (pte_addr-or (mem (pde_ptr (kva d) va)) perm small)

  widened-Directory : Directory npages widened d
  widened-Directory =
      Directory-frame npages mem widened d (λ i h. widened-present (word d i))
        (λ i h.
          sym (pgnum-pte_addr (widened (word d i)))
          ∙ ap pgnum (widened-addr (word d i))
          ∙ pgnum-pte_addr (mem (word d i)))
        dir

  leaf-widened : (va' : ℕ) → pdx va' ≢ 957 → leaf widened (kva d) va' ≡ leaf mem (kva d) va'
  leaf-widened va' user' =
      leaf_in_frame mem widened (mem (pde_ptr (kva d) va')) (widened (pde_ptr (kva d) va')) va'
        (widened-present (pde_ptr (kva d) va')) (widened-addr (pde_ptr (kva d) va'))
        (λ h.
          update_ne mem (pde_ptr (kva d) va) (pte_at (mem (pde_ptr (kva d) va')) va') _
            (λ e. entry_outside npages mem d va' 0 dir user' h va (sym e)))

-- What page_insert leaves when a table is there: the new entry at `va`, every other translation
-- as it was, and a directory of the same shape.
module _ (npages : ℕ) (mem : ℕ → ℕ) (d va pte perm : ℕ) (dir : Directory npages mem d)
    (user : pdx va ≢ 957) (table : present (mem (pde_ptr (kva d) va)) ≡ true)
    (small : perm < 4096) where
  abbrev ptr_in : ℕ
  ptr_in = pte_at (mem (pde_ptr (kva d) va)) va

  written_word : (i : ℕ) → i < 1024 → update mem ptr_in pte (word d i) ≡ mem (word d i)
  written_word i h =
      update_ne mem ptr_in (word d i) pte (word_outside npages mem d va pte dir user table i h)

  written-Directory : Directory npages (update mem ptr_in pte) d
  written-Directory =
      Directory-frame npages mem _ d (λ i h. ap present (written_word i h))
        (λ i h. ap pgnum (written_word i h)) dir

  written_table : present (update mem ptr_in pte (pde_ptr (kva d) va)) ≡ true
  written_table = rw (written_word (pdx va) (pdx-lt va)) table

  pub mapped_mem-Directory :
      Directory npages (mapped_mem ptr_in pte (pde_ptr (kva d) va) perm mem) d
  mapped_mem-Directory =
      widened-Directory npages (update mem ptr_in pte) d va perm written-Directory user
        written_table small

  pub leaf-mapped_self :
      present pte ≡ true
      → leaf (mapped_mem ptr_in pte (pde_ptr (kva d) va) perm mem) (kva d) va ≡ some pte
  leaf-mapped_self h =
      leaf-widened npages (update mem ptr_in pte) d va perm written-Directory user written_table
        small va user
      ∙ leaf-write_self npages mem d va pte dir user table
      ∙ (rw h)

  pub leaf-mapped_ne :
      (va' : ℕ)
      → pdx va' ≢ 957
      → Apart va va'
      → leaf (mapped_mem ptr_in pte (pde_ptr (kva d) va) perm mem) (kva d) va'
        ≡ leaf mem (kva d) va'
  leaf-mapped_ne va' user' other =
      leaf-widened npages (update mem ptr_in pte) d va perm written-Directory user written_table
        small va' user'
      ∙ leaf-write_ne npages mem d va pte dir user table va' user' other
