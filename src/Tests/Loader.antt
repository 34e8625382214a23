-- ===== src/Tests/Loader.antt =====
-- bootmain of the boot loader on a disk with a kernel of two segments.
use lab3a.Base.{◌+◌, ◌-◌, ◌≡◌, inl, refl, arith, ◌%◌, ◌==◌, if◌then◌else◌, ltb}
use lab3a.Strings.{Bytes}
use lab3a.Loader.{bootmain, entered, elfhdr}
use lab3a.Loader.Headers.{Segments, AllAway, AllLoaded}
use lab3a.Loader.Kernel.{bootmain_lem}

-- The kernel's file: its header, two program headers at 52 and 84, and its bytes from 4096 on. The first segment
-- has 100 bytes for 0x100000, the second 50 bytes for 0x101000.
abbrev file : Bytes
file q =
    if q == 0
    then 0x7F
    else if q == 1
    then 0x45
    else if q == 2
    then 0x4C
    else if q == 3
    then 0x46
    else if q == 24
    then 0x0C
    else if q == 26
    then 0x10
    else if q == 28
    then 52
    else if q == 44
    then 2
    else if q == 57
    then 0x10
    else if q == 66
    then 0x10
    else if q == 72
    then 100
    else if q == 89
    then 0x20
    else if q == 97
    then 0x10
    else if q == 98
    then 0x10
    else if q == 104
    then 50
    else if ltb q 4096
    then 0
    else q % 256

abbrev drive : Bytes
drive q = file (q - 512)

segments : Segments drive 2 (elfhdr + 52)
unfolding Segments AllAway
segments = (
  record { fits = omega arith; some_bytes = omega arith; small = omega arith; alike = refl },
  λ q low high. inl (omega arith),
  λ i h. (inl (omega arith), tt),
  (
    record { fits = omega arith; some_bytes = omega arith; small = omega arith; alike = refl },
    λ q low high. inl (omega arith),
    λ i h. tt,
    tt,
  ),
)

bootmain_lem_example :
    (mem' : Bytes) × (bootmain drive (λ q. 0) ≡ entered 0x10000C mem')
    × AllLoaded drive 2 (elfhdr + 52) mem'
bootmain_lem_example = bootmain_lem drive (λ q. 0) 2 52 refl refl refl (omega arith) segments
