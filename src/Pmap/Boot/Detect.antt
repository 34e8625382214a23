-- ===== src/Pmap/Boot/Detect.antt =====
-- i386_detect_memory of kern/pmap.c: the sizes that the CMOS bytes give.
use lab3a.Base.{
  ℕ, ◌+◌, ◌*◌, ◌/◌, ◌^◌, ◌≤◌, ◌<◌, ◌≡◌, arith, ◌==◌, if◌then◌else◌, bit_or_apart, bit_or_comm, ◌∙◌,
}
use lab3a.Pmap.Boot.{nvram_read, i386_detect_memory}

module _ (mc146818_read : ℕ → ℕ) (is_byte : (r : ℕ) → mc146818_read r < 256) where
  -- Two bytes make a number below 2 ^ 16, the byte at `r` the low one.
  pub nvram_read_pair :
      (r : ℕ) → nvram_read mc146818_read r ≡ mc146818_read (r + 1) * 256 + mc146818_read r
  unfolding nvram_read
  nvram_read_pair r =
      bit_or_comm (mc146818_read r) (mc146818_read (r + 1) * 2 ^ 8)
      ∙ bit_or_apart 8 (mc146818_read (r + 1)) (mc146818_read r) (is_byte r)

  nvram_read_small : (r : ℕ) → nvram_read mc146818_read r < 65536
  nvram_read_small r = omega (arith, nvram_read_pair r, is_byte r, is_byte (r + 1))

  -- For CMOS registers that hold bytes, no sum of i386_detect_memory wraps: npages counts the 16MB
  -- and the 64KB units above them where there are any, else the 1MB and the extended memory where
  -- there is any, else the base memory, in pages, and is at most 1052656; npages_basemem is the base
  -- memory in pages.
  pub i386_detect_memory_lem :
      let base = nvram_read mc146818_read 0x15 in
      let ext = nvram_read mc146818_read 0x17 in
      let ext16 = nvram_read mc146818_read 0x34 in
      let found = i386_detect_memory mc146818_read in
      (found.npages ≡ (
        if ext16 == 0 then (if ext == 0 then base / 4 else 256 + ext / 4) else 4096 + ext16 * 16))
      × (found.npages ≤ 1052656)
      × (found.npages_basemem ≡ base / 4)
  unfolding i386_detect_memory
  i386_detect_memory_lem =
      ground (arith, nvram_read_small 0x15, nvram_read_small 0x17, nvram_read_small 0x34)
