-- ===== src/Loader/Kernel.antt =====
-- bootmain of boot/main.c loads the segments of the kernel and enters it.
use lab3a.Base.{
  ℕ, suc, ◌+◌, ◌-◌, ◌*◌, ◌≤◌, ◌≡◌, refl, ◌∙◌, ap, some, arith, ◌==◌, subst, not, if◌then◌else◌,
}
use lab3a.Mmu.{u32}
use lab3a.Strings.{Bytes}
use lab3a.Loader.Segment.{readseg_lem}
use lab3a.Loader.{
  sectsize, readseg, elfhdr, proghdr_size, load_segments, load_all, e_magic, e_entry, e_phoff,
  e_phnum, elf_magic, bootmain, entered, bad, jump, after_header, Booted,
}
use lab3a.Loader.Headers.{image, HoldsHeader, AllLoaded, Segments, word-header, load_segments_lem}

module _ (disk : Bytes) where
  header_read :
      (mem : Bytes)
      → (mem' : Bytes) × (readseg disk mem elfhdr (sectsize * 8) 0 ≡ some mem')
        × HoldsHeader disk mem'
  header_read mem =
      let r =
        readseg_lem disk mem elfhdr (sectsize * 8) 0 (omega arith) (omega arith) (omega arith)
          refl in
      (
        r.0,
        r.1,
        λ q low high.
            subst (λ (p : ℕ). r.0 p ≡ image disk q) (back q low)
              (r.2 (q - elfhdr) (omega arith) ∙ ap (λ (p : ℕ). disk (sectsize + p)) (origin q)),
      )
    where
      back : (q : ℕ) → elfhdr ≤ q → elfhdr + (q - elfhdr) ≡ q
      back q low = omega arith

      origin : (q : ℕ) → 0 + (q - elfhdr) ≡ q - elfhdr
      origin q = omega arith

  after_header_found :
      (mem : Bytes)
      → e_magic mem elfhdr ≡ elf_magic
      → after_header disk (some mem)
        ≡ jump (load_all disk mem (u32 (elfhdr + e_phoff mem elfhdr)) (e_phnum mem elfhdr))
  after_header_found mem magic = go (e_magic mem elfhdr) _ magic
    where
      go : (w : ℕ) (b : Booted) → w ≡ elf_magic → (if not (w == elf_magic) then bad mem else b) ≡ b
      go w b e = rw e refl

  -- The program headers are found in memory where the file has them.
  load_all_found :
      (mem mem' : Bytes) (n phoff : ℕ)
      → HoldsHeader disk mem
      → e_phnum (image disk) elfhdr ≡ n
      → e_phoff (image disk) elfhdr ≡ phoff
      → phoff + proghdr_size * n ≤ 4096
      → load_segments disk (suc n) mem (elfhdr + phoff) (elfhdr + phoff + proghdr_size * n)
        ≡ some mem'
      → load_all disk mem (u32 (elfhdr + e_phoff mem elfhdr)) (e_phnum mem elfhdr) ≡ some mem'
  load_all_found mem mem' n phoff h count first room loop =
      ap (λ (w : ℕ). load_all disk mem w (e_phnum mem elfhdr)) (start _ table)
      ∙ ap (λ (m : ℕ). load_all disk mem (elfhdr + phoff) m) (number ∙ count)
      ∙ ap (λ (w : ℕ). load_segments disk (suc n) mem (elfhdr + phoff) w) end
      ∙ loop
    where
      table : e_phoff mem elfhdr ≡ phoff
      table = word-header disk mem (elfhdr + 28) h (omega arith) (omega arith) ∙ first

      number : e_phnum mem elfhdr ≡ e_phnum (image disk) elfhdr
      number =
          rw
            (
              h (elfhdr + 44) (omega arith) (omega arith),
              h (elfhdr + 44 + 1) (omega arith) (omega arith),
            )
            refl

      start : (w : ℕ) → w ≡ phoff → u32 (elfhdr + w) ≡ elfhdr + phoff
      start w e = omega arith

      end : u32 (elfhdr + phoff + proghdr_size * n) ≡ elfhdr + phoff + proghdr_size * n
      end = omega arith

  -- For a file on the disk with the magic number of ELF and n program headers in its first 4096 bytes, whose
  -- segments readseg can load and keep the distance of a sector from these 4096 bytes at ELFHDR and from the
  -- bytes of the segments before them: bootmain ends, has each segment's bytes at its address, and enters
  -- the address that the file's header gives.
  pub bootmain_lem :
      (mem : Bytes) (n phoff : ℕ)
      → e_magic (image disk) elfhdr ≡ elf_magic
      → e_phnum (image disk) elfhdr ≡ n
      → e_phoff (image disk) elfhdr ≡ phoff
      → phoff + proghdr_size * n ≤ 4096
      → Segments disk n (elfhdr + phoff)
      → (mem' : Bytes) × (bootmain disk mem ≡ entered (e_entry (image disk) elfhdr) mem')
        × AllLoaded disk n (elfhdr + phoff) mem'
  unfolding bootmain
  bootmain_lem mem n phoff magic count first room segments =
      let r = header_read mem in
      let l =
        load_segments_lem disk n (suc n) r.0 (elfhdr + phoff) (omega arith) r.2 (omega arith)
          (omega arith) segments in
      (
        l.0,
        ap (after_header disk) r.1
            ∙ after_header_found r.0
                (word-header disk r.0 elfhdr r.2 (omega arith) (omega arith) ∙ magic)
            ∙ ap jump (load_all_found r.0 l.0 n phoff r.2 count first room l.1)
            ∙ ap (λ (w : ℕ). entered w l.0)
                (word-header disk l.0 (elfhdr + 24) l.2 (omega arith) (omega arith)),
        l.3,
      )
