-- ===== src/Strings/Memory.antt =====
-- memset, memmove and memcpy of lib/string.c, in their versions with string instructions: `rep stos` and
-- `rep movs` by bytes and by words, upwards and downwards. The areas do not wrap around the address
-- space.
use lab3a.Base.{
  ℕ, zero, suc, ◌+◌, ◌*◌, ◌/◌, ◌%◌, ◌^◌, ltb, ◌==◌, ◌&&◌, if◌then◌else◌, bit_or, update,
}
use lab3a.Strings.{Bytes}

-- cld; rep stosb
abbrev pub stosb : Bytes → ℕ → ℕ → ℕ → Bytes
stosb mem d c zero = mem
stosb mem d c (suc n) = stosb (update mem d (c % 256)) (d + 1) c n

-- A 32-bit word is written, the low byte first.
abbrev pub put_word : Bytes → ℕ → ℕ → Bytes
put_word mem d w q =
    if q == d
    then w % 256
    else if q == d + 1
    then w / 2 ^ 8 % 256
    else if q == d + 2
    then w / 2 ^ 16 % 256
    else if q == d + 3
    then w / 2 ^ 24 % 256
    else mem q

-- cld; rep stosl
abbrev pub stosl : Bytes → ℕ → ℕ → ℕ → Bytes
stosl mem d w zero = mem
stosl mem d w (suc n) = stosl (put_word mem d w) (d + 4) w n

-- (c<<24)|(c<<16)|(c<<8)|c, for a byte
abbrev pub four_times : ℕ → ℕ
four_times c = bit_or (bit_or (bit_or (c * 2 ^ 24) (c * 2 ^ 16)) (c * 2 ^ 8)) c

unfoldable pub memset : Bytes → ℕ → ℕ → ℕ → Bytes
memset mem v c n =
    if (v % 4 == 0) && (n % 4 == 0)
    then stosl mem v (four_times (c % 256)) (n / 4)
    else stosb mem v c n

-- One word is moved: it is read as a whole before it is written.
abbrev pub move_word : Bytes → ℕ → ℕ → Bytes
move_word mem d s q =
    if q == d
    then mem s
    else if q == d + 1
    then mem (s + 1)
    else if q == d + 2
    then mem (s + 2)
    else if q == d + 3
    then mem (s + 3)
    else mem q

-- cld; rep movsb, and movsl
abbrev pub movsb_up : Bytes → ℕ → ℕ → ℕ → Bytes
movsb_up mem d s zero = mem
movsb_up mem d s (suc n) = movsb_up (update mem d (mem s)) (d + 1) (s + 1) n

abbrev pub movsl_up : Bytes → ℕ → ℕ → ℕ → Bytes
movsl_up mem d s zero = mem
movsl_up mem d s (suc n) = movsl_up (move_word mem d s) (d + 4) (s + 4) n

-- std; rep movsb, and movsl, from the last of n places at d and s
abbrev pub movsb_down : Bytes → ℕ → ℕ → ℕ → Bytes
movsb_down mem d s zero = mem
movsb_down mem d s (suc n) = movsb_down (update mem (d + n) (mem (s + n))) d s n

abbrev pub movsl_down : Bytes → ℕ → ℕ → ℕ → Bytes
movsl_down mem d s zero = mem
movsl_down mem d s (suc n) = movsl_down (move_word mem (d + 4 * n) (s + 4 * n)) d s n

unfoldable pub memmove : Bytes → ℕ → ℕ → ℕ → Bytes
memmove mem dst src n =
    if ltb src dst && ltb dst (src + n)
    then (if ((src + n) % 4 == 0) && (((dst + n) % 4 == 0) && (n % 4 == 0))
        then movsl_down mem dst src (n / 4)
        else movsb_down mem dst src n)
    else if (src % 4 == 0) && ((dst % 4 == 0) && (n % 4 == 0))
    then movsl_up mem dst src (n / 4)
    else movsb_up mem dst src n

abbrev pub memcpy : Bytes → ℕ → ℕ → ℕ → Bytes
memcpy = memmove
