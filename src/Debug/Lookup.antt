-- ===== src/Debug/Lookup.antt =====
-- Symbol lookup of kern/kdebug.c, the rest of debuginfo_eip once the tables are chosen: `struct Stab`
-- as it lies in memory, the three searches, the file name, and the number of arguments. `none` is a
-- string without an end within the fuel, or a read of the stab in front of the table, which the code
-- makes where a search leaves -1 on both ends.
use lab3a.Base.{
  ℕ, zero, suc, ◌+◌, ◌-◌, ◌*◌, ◌/◌, ◌^◌, Option, none, some, Bool, ltb, leb, ◌==◌, not, ◌&&◌, ◌||◌,
  if◌then◌else◌,
}
use lab3a.Mmu.{u32, neg}
use lab3a.Strings.{Bytes, strfind}
use lab3a.Debug.{Stab, Region, stab_binsearch, n_fun, n_sline, n_so, n_sol, n_psym}

-- A little-endian half word and word.
abbrev pub half_at : Bytes → ℕ → ℕ
half_at mem p = mem p + 256 * mem (p + 1)

abbrev pub word_at : Bytes → ℕ → ℕ
word_at mem p = half_at mem p + 2 ^ 16 * half_at mem (p + 2)

abbrev pub stab_size : ℕ
stab_size = 12

-- stabs[i], for an array of stabs at `base`
abbrev pub stab_at : Bytes → ℕ → ℕ → Stab
stab_at mem base i =
    let p = base + stab_size * i in
    record {
      n_strx = word_at mem p;
      n_type = mem (p + 4);
      n_other = mem (p + 5);
      n_desc = half_at mem (p + 6);
      n_value = word_at mem (p + 8);
    }

-- struct UserStabData, and the four symbols that the kernel's linker script defines
pub record UserStabData : Type 0 where
  pub stabs : ℕ
  pub stab_end : ℕ
  pub stabstr : ℕ
  pub stabstr_end : ℕ

-- stab_end - stabs, a signed difference; a negative one leaves no stabs to search
abbrev pub stab_count : UserStabData → ℕ
stab_count t =
    let bytes = u32 (t.stab_end + 2 ^ 32 - t.stabs) in
    if ltb bytes (2 ^ 31) then bytes / stab_size else 0

abbrev pub stabstr_size : UserStabData → ℕ
stabstr_size t = u32 (t.stabstr_end + 2 ^ 32 - t.stabstr)

-- A `const char *`: the literal "<unknown>", or an address
pub data Name : Type 0 where
  unknown : Name
  text : ℕ → Name

pub record Eipdebuginfo : Type 0 where
  pub eip_file : Name
  pub eip_line : ℕ
  pub eip_fn_name : Name
  pub eip_fn_namelen : ℕ
  pub eip_fn_addr : ℕ
  pub eip_fn_narg : ℕ

abbrev pub unknown_len : ℕ
unknown_len = 9

abbrev pub initial : ℕ → Eipdebuginfo
initial addr = record {
  eip_file = unknown;
  eip_line = 0;
  eip_fn_name = unknown;
  eip_fn_namelen = unknown_len;
  eip_fn_addr = addr;
  eip_fn_narg = 0;
}

-- What debuginfo_eip returns, and the structure that it fills.
abbrev pub Answer : Type 0
Answer = Option (ℕ × Eipdebuginfo)

module _ {A B : Type 0} where
  infixl 5 ◌>>=◌
  abbrev pub ◌>>=◌ : Option A → (A → Option B) → Option B
  none >>= f = none
  some a >>= f = f a

-- The name of a string table's entry, where the offset is in the table.
abbrev pub name_at : UserStabData → ℕ → Name → Name
name_at t strx old = if ltb strx (stabstr_size t) then text (u32 (t.stabstr + strx)) else old

-- strfind(name, ':') - name
abbrev pub name_len : ℕ → Bytes → Name → Option ℕ
name_len fuel mem unknown = some unknown_len
name_len fuel mem (text s) = strfind fuel mem s 0x3a >>= λ e. some (e - s)

-- stab_binsearch from what an earlier search left
abbrev pub search_in : (ℕ → Stab) → Region → ℕ → ℕ → Option Region
search_in stabs r type addr =
    if r.left_next == 0 then none else stab_binsearch stabs (r.left_next - 1) r.right_next type addr

abbrev pub found : Region → Bool
found r = leb r.left_next r.right_next

-- The stab at a region's left end
abbrev pub left_stab : (ℕ → Stab) → Region → Option Stab
left_stab stabs r = if r.left_next == 0 then none else some (stabs (r.left_next - 1))

-- The loop back to the stab that names a file, in [lfile, lfile + n).
unfoldable pub file_down : (ℕ → Stab) → ℕ → ℕ → Option ℕ
file_down stabs lfile zero = none
file_down stabs lfile (suc n) =
    let rest = file_down stabs lfile n in
    let s = stabs (lfile + n) in
    if not (s.n_type == n_sol) && (not (s.n_type == n_so) || (s.n_value == 0))
    then rest
    else some (lfile + n)

abbrev pub file_name : UserStabData → (ℕ → Stab) → Option ℕ → Name
file_name t stabs none = unknown
file_name t stabs (some l) = name_at t (stabs l).n_strx unknown

-- The loop over the parameters behind the function's stab, with n places to go.
unfoldable pub count_args : (ℕ → Stab) → ℕ → ℕ → ℕ
count_args stabs i zero = 0
count_args stabs i (suc n) =
    let rest = count_args stabs (i + 1) n in if (stabs i).n_type == n_psym then suc rest else 0

-- The end, from the line's region on.
abbrev pub with_line : UserStabData → (ℕ → Stab) → Region → Region → Eipdebuginfo → Region → Answer
with_line t stabs file fun info line =
    if found line
    then (left_stab stabs line >>= λ s. some (
      0,
      record info {
        eip_line = s.n_desc;
        eip_file =
            file_name t stabs
              (file_down stabs (file.left_next - 1) (suc line.left_next - file.left_next));
        eip_fn_narg =
            if ltb fun.left_next fun.right_next
            then count_args stabs fun.left_next (fun.right_next - fun.left_next - 1)
            else 0;
      },
    ))
    else some (neg 1, info)

-- The function's part of the structure, the region where its line is searched, and the address to
-- search there.
abbrev pub with_fun :
    UserStabData
    → (ℕ → Stab)
    → ℕ
    → Eipdebuginfo
    → Region
    → Region
    → Option (Eipdebuginfo × Region × ℕ)
with_fun t stabs addr info file fun =
    if found fun
    then (left_stab stabs fun >>= λ s. some (
      record info { eip_fn_name = name_at t s.n_strx info.eip_fn_name; eip_fn_addr = s.n_value },
      fun,
      u32 (addr + 2 ^ 32 - s.n_value),
    ))
    else some (record info { eip_fn_addr = addr }, file, addr)

abbrev pub in_file : ℕ → Bytes → UserStabData → (ℕ → Stab) → ℕ → Region → Answer
in_file fuel mem t stabs addr file = do
  fun ← search_in stabs file n_fun addr
  part ← with_fun t stabs addr (initial addr) file fun
  len ← name_len fuel mem part.0.eip_fn_name
  line ← search_in stabs part.1 n_sline part.2
  with_line t stabs file fun (record part.0 { eip_fn_namelen = len }) line

-- The test on lfile
abbrev pub after_file : ℕ → Bytes → UserStabData → (ℕ → Stab) → ℕ → Region → Answer
after_file fuel mem t stabs addr file =
    if file.left_next == 1 then some (neg 1, initial addr) else in_file fuel mem t stabs addr file

-- debuginfo_eip behind the choice of the tables
unfoldable pub lookup : ℕ → Bytes → UserStabData → ℕ → Answer
lookup fuel mem t addr =
    let stabs = stab_at mem t.stabs in
    if leb t.stabstr_end t.stabstr || not (mem (t.stabstr_end - 1) == 0)
    then some (neg 1, initial addr)
    else (stab_binsearch stabs 0 (stab_count t) n_so addr >>= λ file.
        after_file fuel mem t stabs addr file)
