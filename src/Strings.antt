-- ===== src/Strings.antt =====
-- The string functions of lib/string.c over memory by bytes. A loop that ends at a NUL byte has
-- fuel, and gives `none` when it runs out.
pub mod Copy
pub mod Unended
pub mod Compare
pub mod Bounded
pub mod Blocks
pub mod Strtol
pub mod Memory
pub mod Moves
pub mod Fill
use lab3a.Base.{
  ℕ, zero, suc, ◌+◌, ◌-◌, ◌^◌, ◌%◌, ◌≡◌, Option, none, some, Bool, true, false, not, ◌&&◌, List, [],
  ◌∷◌, ◌==◌, if◌then◌else◌, update, ltb,
}
use lab3a.Mmu.{u32}

abbrev pub Bytes : Type 0
Bytes = ℕ → ℕ

abbrev add_one : Option ℕ → Option ℕ
add_one none = none
add_one (some n) = some (suc n)

pub strlen : ℕ → Bytes → ℕ → Option ℕ
strlen zero mem s = none
strlen (suc fuel) mem s =
    let rest = strlen fuel mem (s + 1) in if mem s == 0 then some 0 else add_one rest

pub strnlen : Bytes → ℕ → ℕ → ℕ
strnlen mem s zero = 0
strnlen mem s (suc size) = let rest = strnlen mem (s + 1) size in if mem s == 0 then 0 else suc rest

-- What strcpy leaves; it returns `dst`.
pub strcpy : ℕ → Bytes → ℕ → ℕ → Option Bytes
strcpy zero mem dst src = none
strcpy (suc fuel) mem dst src =
    let mem' = update mem dst (mem src) in
    let rest = strcpy fuel mem' (dst + 1) (src + 1) in if mem src == 0 then some mem' else rest

abbrev strcpy_at : ℕ → Bytes → ℕ → ℕ → Option ℕ → Option Bytes
strcpy_at fuel mem dst src none = none
strcpy_at fuel mem dst src (some len) = strcpy fuel mem (dst + len) src

unfoldable pub strcat : ℕ → Bytes → ℕ → ℕ → Option Bytes
strcat fuel mem dst src = strcpy_at fuel mem dst src (strlen fuel mem dst)

pub strncpy : Bytes → ℕ → ℕ → ℕ → Bytes
strncpy mem dst src zero = mem
strncpy mem dst src (suc size) =
    let mem' = update mem dst (mem src) in
    let stay = strncpy mem' (dst + 1) src size in
    let move = strncpy mem' (dst + 1) (src + 1) size in if mem src == 0 then stay else move

-- strlcpy's loop with `size` places left, the one of the NUL not counted: the memory, and how many
-- bytes were copied.
pub strlcpy_loop : Bytes → ℕ → ℕ → ℕ → Bytes × ℕ
strlcpy_loop mem dst src zero = (update mem dst 0, 0)
strlcpy_loop mem dst src (suc size) =
    let rest = strlcpy_loop (update mem dst (mem src)) (dst + 1) (src + 1) size in
    if mem src == 0 then (update mem dst 0, 0) else (rest.0, suc rest.1)

pub strlcpy : Bytes → ℕ → ℕ → ℕ → Bytes × ℕ
strlcpy mem dst src zero = (mem, 0)
strlcpy mem dst src (suc size) = strlcpy_loop mem dst src size

-- The difference of two bytes, an `int`
abbrev pub byte_diff : ℕ → ℕ → ℕ
byte_diff a b = u32 (a + 2 ^ 32 - b)

pub strcmp : ℕ → Bytes → ℕ → ℕ → Option ℕ
strcmp zero mem p q = none
strcmp (suc fuel) mem p q =
    let rest = strcmp fuel mem (p + 1) (q + 1) in
    if not (mem p == 0) && (mem p == mem q) then rest else some (byte_diff (mem p) (mem q))

pub strncmp : Bytes → ℕ → ℕ → ℕ → ℕ
strncmp mem p q zero = 0
strncmp mem p q (suc n) =
    let rest = strncmp mem (p + 1) (q + 1) n in
    if not (mem p == 0) && (mem p == mem q) then rest else byte_diff (mem p) (mem q)

-- strchr: the place of the byte, NULL as `some none`
pub strchr : ℕ → Bytes → ℕ → ℕ → Option (Option ℕ)
strchr zero mem s c = none
strchr (suc fuel) mem s c =
    let rest = strchr fuel mem (s + 1) c in
    if mem s == 0 then some none else if mem s == c then some (some s) else rest

-- strfind: the place of the byte, or of the NUL
unfoldable pub strfind : ℕ → Bytes → ℕ → ℕ → Option ℕ
strfind zero mem s c = none
strfind (suc fuel) mem s c =
    let rest = strfind fuel mem (s + 1) c in
    if mem s == 0 then some s else if mem s == c then some s else rest

pub memcmp : Bytes → ℕ → ℕ → ℕ → ℕ
memcmp mem s1 s2 zero = 0
memcmp mem s1 s2 (suc n) =
    let rest = memcmp mem (s1 + 1) (s2 + 1) n in
    if not (mem s1 == mem s2) then byte_diff (mem s1) (mem s2) else rest

-- memfind: `n` bytes from `s` on, the end where none is `c`
pub memfind : Bytes → ℕ → ℕ → ℕ → ℕ
memfind mem s c zero = s
memfind mem s c (suc n) = let rest = memfind mem (s + 1) c n in if mem s == c % 256 then s else rest

-- The NUL-terminated string `cs` stands at `s`.
abbrev pub StringAt : Bytes → ℕ → List ℕ → Type 0
StringAt mem s [] = mem s ≡ 0
StringAt mem s (c ∷ cs) = (mem s ≡ c) × ((c == 0) ≡ false) × StringAt mem (s + 1) cs
