-- ===== src/Loader/Headers.antt =====
-- The loop of bootmain (boot/main.c) over the program headers.
use lab3a.Base.{
  ℕ, zero, suc, ◌+◌, ◌-◌, ◌*◌, ◌%◌, ◌^◌, ◌<◌, ◌≤◌, ◌≡◌, ◌⊎◌, refl, sym, ◌∙◌, ap, some, ltb, arith,
  lt→ltb, false,
}
use lab3a.Mmu.{u32}
use lab3a.Strings.{Bytes}
use lab3a.Debug.Lookup.{word_at}
use lab3a.Loader.Segment.{readseg_lem}
use lab3a.Loader.{sectsize, readseg, elfhdr, p_pa, p_memsz, p_offset, proghdr_size, load_segments}

module _ (disk : Bytes) where
  -- The kernel's file, as from its start at elfhdr.
  abbrev pub image : Bytes
  image q = disk (sectsize + (q - elfhdr))

  -- The memory holds the file's first 4096 bytes at elfhdr.
  abbrev pub HoldsHeader : Bytes → Type 0
  HoldsHeader mem = (q : ℕ) → elfhdr ≤ q → q < elfhdr + 4096 → mem q ≡ image q

  -- A segment that readseg can load.
  pub record Fits (ph : ℕ) : Type 0 where
    pub fits : p_pa image ph + p_memsz image ph + sectsize ≤ 2 ^ 32
    pub some_bytes : 0 < p_memsz image ph
    pub small : p_offset image ph < 2 ^ 32
    pub alike : p_offset image ph % sectsize ≡ p_pa image ph % sectsize

  -- No sector of the segment reaches the place q.
  abbrev pub Away : ℕ → ℕ → Type 0
  Away ph q = (q + sectsize ≤ p_pa image ph) ⊎ (p_pa image ph + p_memsz image ph + sectsize ≤ q)

  -- None of the n segments from ph on does.
  unfoldable pub AllAway : ℕ → ℕ → ℕ → Type 0
  AllAway zero ph q = Unit
  AllAway (suc n) ph q = Away ph q × AllAway n (ph + proghdr_size) q

  -- Segments that fit, leave the header alone, and do not reach those before them.
  unfoldable pub Segments : ℕ → ℕ → Type 0
  Segments zero ph = Unit
  Segments (suc n) ph =
      Fits ph
      × ((q : ℕ) → elfhdr ≤ q → q < elfhdr + 4096 → Away ph q)
      × ((i : ℕ) → i < p_memsz image ph → AllAway n (ph + proghdr_size) (p_pa image ph + i))
      × Segments n (ph + proghdr_size)

  -- Each segment's bytes stand at its address.
  pub AllLoaded : ℕ → ℕ → Bytes → Type 0
  AllLoaded zero ph mem = Unit
  AllLoaded (suc n) ph mem =
      ((i : ℕ)
        → i < p_memsz image ph
        → mem (p_pa image ph + i) ≡ disk (sectsize + (p_offset image ph + i)))
      × AllLoaded n (ph + proghdr_size) mem

  pub word-header :
      (mem : Bytes) (p : ℕ)
      → HoldsHeader mem
      → elfhdr ≤ p
      → p + 4 ≤ elfhdr + 4096
      → word_at mem p ≡ word_at image p
  word-header mem p h low high =
      rw
        (
          h p low (omega arith),
          h (p + 1) (omega arith) (omega arith),
          h (p + 2) (omega arith) (omega arith),
          h (p + 2 + 1) (omega arith) (omega arith),
        )
        refl

  -- What readseg does for the program header at ph.
  load_one :
      (mem : Bytes) (ph : ℕ)
      → HoldsHeader mem
      → elfhdr ≤ ph
      → ph + proghdr_size ≤ elfhdr + 4096
      → Fits ph
      → (mem' : Bytes) × (readseg disk mem (p_pa mem ph) (p_memsz mem ph) (p_offset mem ph)
          ≡ some mem')
        × ((i : ℕ)
            → i < p_memsz image ph
            → mem' (p_pa image ph + i) ≡ disk (sectsize + (p_offset image ph + i)))
        × ((q : ℕ) → Away ph q → mem' q ≡ mem q)
  load_one mem ph h low high f =
      let r =
        readseg_lem disk mem (p_pa image ph) (p_memsz image ph) (p_offset image ph) f.fits
          f.some_bytes f.small f.alike in
      (r.0, same r.0 r.1, r.2, r.3)
    where
      same :
          (m : Bytes)
          → readseg disk mem (p_pa image ph) (p_memsz image ph) (p_offset image ph) ≡ some m
          → readseg disk mem (p_pa mem ph) (p_memsz mem ph) (p_offset mem ph) ≡ some m
      same m e =
          ap (λ (w : ℕ). readseg disk mem w (p_memsz mem ph) (p_offset mem ph))
            (word-header mem (ph + 12) h (omega arith) (omega arith))
          ∙ ap (λ (w : ℕ). readseg disk mem (p_pa image ph) w (p_offset mem ph))
              (word-header mem (ph + 20) h (omega arith) (omega arith))
          ∙ ap (λ (w : ℕ). readseg disk mem (p_pa image ph) (p_memsz image ph) w)
              (word-header mem (ph + 4) h (omega arith) (omega arith))
          ∙ e

  load_segments_more :
      (fuel : ℕ) (mem mem1 mem' : Bytes) (ph eph : ℕ)
      → ph < eph
      → ph + proghdr_size < 2 ^ 32
      → readseg disk mem (p_pa mem ph) (p_memsz mem ph) (p_offset mem ph) ≡ some mem1
      → load_segments disk fuel mem1 (ph + proghdr_size) eph ≡ some mem'
      → load_segments disk (suc fuel) mem ph eph ≡ some mem'
  unfolding load_segments
  load_segments_more fuel mem mem1 mem' ph eph less small e f =
      let next : u32 (ph + proghdr_size) ≡ ph + proghdr_size = omega arith in
      rw (lt→ltb ph eph less, e, next) f

  pub load_segments_lem :
      (n fuel : ℕ) (mem : Bytes) (ph : ℕ)
      → n < fuel
      → HoldsHeader mem
      → elfhdr ≤ ph
      → ph + proghdr_size * n ≤ elfhdr + 4096
      → Segments n ph
      → (mem' : Bytes) × (load_segments disk fuel mem ph (ph + proghdr_size * n) ≡ some mem')
        × HoldsHeader mem'
        × AllLoaded n ph mem'
        × ((q : ℕ) → AllAway n ph q → mem' q ≡ mem q)
  unfolding load_segments AllLoaded Segments AllAway
  load_segments_lem n zero mem ph lt h low high segments = absurd (omega arith)
  load_segments_lem zero (suc fuel) mem ph lt h low high segments =
      let over : ltb ph (ph + proghdr_size * 0) ≡ false = ground arith in
      (mem, rw over refl, h, tt, λ q _. refl)
  load_segments_lem (suc n) (suc fuel) mem ph lt h low high (f, clear, kept, segments) =
      let one = load_one mem ph h low (omega arith) f in
      let end : ph + proghdr_size + proghdr_size * n ≡ ph + proghdr_size * suc n = omega arith in
      let more =
        load_segments_lem n fuel one.0 (ph + proghdr_size) (omega arith)
          (λ q l u. one.3 q (clear q l u) ∙ h q l u) (omega arith) (omega arith) segments in
      (
        more.0,
        load_segments_more fuel mem one.0 more.0 ph (ph + proghdr_size * suc n) (omega arith)
            (omega arith) one.1
            (ap (λ (e : ℕ). load_segments disk fuel one.0 (ph + proghdr_size) e) (sym end)
              ∙ more.1),
        more.2,
        (λ i l. more.4 (p_pa image ph + i) (kept i l) ∙ one.2 i l, more.3),
        λ q away. more.4 q away.1 ∙ one.3 q away.0,
      )
