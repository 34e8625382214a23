-- ===== src/Loader.antt =====
-- The boot loader of boot/main.c: readseg, and bootmain over the ELF header that it reads. The disk's
-- content is a parameter; what readsect does through the ports is to copy one of its sectors. Memory is
-- physical, by bytes. Both loops have fuel.
pub mod Segment
pub mod Headers
pub mod Kernel
use lab3a.Base.{
  ℕ, zero, suc, ◌+◌, ◌-◌, ◌*◌, ◌/◌, ◌%◌, ◌^◌, Option, none, some, Bool, ltb, leb, ◌==◌, ◌&&◌, not,
  if◌then◌else◌,
}
use lab3a.Mmu.{u32}
use lab3a.Strings.{Bytes}
use lab3a.Debug.Lookup.{half_at, word_at}

abbrev pub sectsize : ℕ
sectsize = 512

-- struct Elf and struct Proghdr, in memory, as far as bootmain reads them
abbrev pub elf_magic : ℕ
elf_magic = 0x464C457F

abbrev pub e_magic : Bytes → ℕ → ℕ
e_magic mem elf = word_at mem elf

abbrev pub e_entry : Bytes → ℕ → ℕ
e_entry mem elf = word_at mem (elf + 24)

abbrev pub e_phoff : Bytes → ℕ → ℕ
e_phoff mem elf = word_at mem (elf + 28)

abbrev pub e_phnum : Bytes → ℕ → ℕ
e_phnum mem elf = half_at mem (elf + 44)

abbrev pub p_offset : Bytes → ℕ → ℕ
p_offset mem ph = word_at mem (ph + 4)

abbrev pub p_pa : Bytes → ℕ → ℕ
p_pa mem ph = word_at mem (ph + 12)

abbrev pub p_memsz : Bytes → ℕ → ℕ
p_memsz mem ph = word_at mem (ph + 20)

abbrev pub proghdr_size : ℕ
proghdr_size = 32

-- How bootmain ends: in the kernel's entry, or in its last loop; or a loop ran out of fuel.
pub data Booted : Type 0 where
  entered : ℕ → Bytes → Booted
  bad : Bytes → Booted
  unfinished : Booted

-- ELFHDR
abbrev pub elfhdr : ℕ
elfhdr = 0x10000

-- 2 ^ 23 sectors make the address space.
abbrev pub readseg_fuel : ℕ
readseg_fuel = 2 ^ 23

abbrev pub and_load : Option Bytes → (Bytes → Option Bytes) → Option Bytes
and_load none rest = none
and_load (some mem) rest = rest mem

abbrev pub jump : Option Bytes → Booted
jump none = unfinished
jump (some mem) = entered (e_entry mem elfhdr) mem

module _ (disk : Bytes) where
  -- readsect(dst, offset)
  abbrev pub readsect : Bytes → ℕ → ℕ → Bytes
  readsect mem dst offset q =
      if leb dst q && ltb q (dst + sectsize) then disk (offset * sectsize + (q - dst)) else mem q

  -- The loop of readseg.
  pub read_sectors : ℕ → Bytes → ℕ → ℕ → ℕ → Option Bytes
  read_sectors zero mem pa end_pa offset = none
  read_sectors (suc fuel) mem pa end_pa offset =
      let rest =
        read_sectors fuel (readsect mem pa offset) (u32 (pa + sectsize)) end_pa
          (u32 (offset + 1)) in
      if ltb pa end_pa then rest else some mem

  unfoldable pub readseg : Bytes → ℕ → ℕ → ℕ → Option Bytes
  unfolding read_sectors
  readseg mem pa count offset =
      read_sectors (suc readseg_fuel) mem (pa - pa % sectsize) (u32 (pa + count))
        (u32 (offset / sectsize + 1))

  -- The loop over the program headers from `ph` to `eph`.
  unfoldable pub load_segments : ℕ → Bytes → ℕ → ℕ → Option Bytes
  load_segments zero mem ph eph = none
  load_segments (suc fuel) mem ph eph =
      if ltb ph eph
      then and_load (readseg mem (p_pa mem ph) (p_memsz mem ph) (p_offset mem ph))
          (λ mem'. load_segments fuel mem' (u32 (ph + proghdr_size)) eph)
      else some mem

  -- A round passes one header, and one round more finds the end.
  abbrev pub load_all : Bytes → ℕ → ℕ → Option Bytes
  load_all mem ph phnum = load_segments (suc phnum) mem ph (u32 (ph + proghdr_size * phnum))

  abbrev pub after_header : Option Bytes → Booted
  after_header none = unfinished
  after_header (some mem) =
      if not (e_magic mem elfhdr == elf_magic)
      then bad mem
      else jump (load_all mem (u32 (elfhdr + e_phoff mem elfhdr)) (e_phnum mem elfhdr))

  unfoldable pub bootmain : Bytes → Booted
  bootmain mem = after_header (readseg mem elfhdr (sectsize * 8) 0)
