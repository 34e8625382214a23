-- ===== src/Debug.antt =====
-- Symbol lookup of kern/kdebug.c, the search: `struct Stab` of inc/stab.h and stab_binsearch. The
-- right end of a region is stored one up, since the code's may be -1, and so are both bounds that the
-- search ends with. Each round of the main loop takes one unit of fuel.
pub mod Scan
pub mod Ends
pub mod Find
pub mod Result
pub mod Lookup
pub mod Eip
pub mod Access
use lab3a.Base.{
  ℕ, zero, suc, ◌+◌, ◌-◌, ◌*◌, ◌/◌, Option, none, some, Bool, true, false, ltb, ◌==◌, if◌then◌else◌,
}
use lab3a.Mmu.{u32}

-- struct Stab
pub record Stab : Type 0 where
  pub n_strx : ℕ
  pub n_type : ℕ
  pub n_other : ℕ
  pub n_desc : ℕ
  pub n_value : ℕ

abbrev pub n_fun : ℕ
n_fun = 0x24

abbrev pub n_sline : ℕ
n_sline = 0x44

abbrev pub n_so : ℕ
n_so = 0x64

abbrev pub n_sol : ℕ
n_sol = 0x84

abbrev pub n_psym : ℕ
n_psym = 0xa0

-- The locals of stab_binsearch: `end` is r + 1, `region_end` is *region_right + 1.
pub record Search : Type 0 where
  pub l : ℕ
  pub end : ℕ
  pub addr : ℕ
  pub any_matches : Bool
  pub region_left : ℕ
  pub region_end : ℕ

-- The loops that go down through the stabs for one of a type: the last such place in [l, l + n).
unfoldable pub scan_down : (ℕ → Stab) → ℕ → ℕ → ℕ → Option ℕ
scan_down stabs type l zero = none
scan_down stabs type l (suc n) =
    let rest = scan_down stabs type l n in
    if (stabs (l + n)).n_type == type then some (l + n) else rest

abbrev pub middle : Search → ℕ
middle s = (s.l + s.end - 1) / 2

-- The rest of a round, with the place that its inner loop found.
unfoldable pub round_at : (ℕ → Stab) → Search → Option ℕ → Search
round_at stabs s none = record s { l = middle s + 1 }
round_at stabs s (some m) =
    if ltb (stabs m).n_value s.addr
    then record s { any_matches = true; region_left = m; l = middle s + 1 }
    else if ltb s.addr (stabs m).n_value
    then record s { any_matches = true; region_end = m; end = m }
    else record s { any_matches = true; region_left = m; l = m; addr = u32 (s.addr + 1) }

abbrev pub round : (ℕ → Stab) → ℕ → Search → Search
round stabs type s = round_at stabs s (scan_down stabs type s.l (middle s + 1 - s.l))

unfoldable pub search_loop : (ℕ → Stab) → ℕ → ℕ → Search → Option Search
search_loop stabs type zero s = none
search_loop stabs type (suc fuel) s =
    let rest = search_loop stabs type fuel (round stabs type s) in
    if ltb s.l s.end then rest else some s

-- What the search leaves: *region_left + 1 and *region_right + 1.
pub record Region : Type 0 where
  pub left_next : ℕ
  pub right_next : ℕ

-- The loop that goes from *region_right down to *region_left, both given one up.
abbrev pub narrow : Option ℕ → ℕ → ℕ → ℕ
narrow (some m) left right_next = suc m
narrow none left right_next = if ltb right_next (suc left) then right_next else suc left

unfoldable pub finish : (ℕ → Stab) → ℕ → Search → Region
finish stabs type s =
    if s.any_matches
    then record {
      left_next =
          narrow (scan_down stabs type (suc s.region_left) (s.region_end - suc s.region_left))
            s.region_left s.region_end;
      right_next = s.region_end;
    }
    else record { left_next = suc s.region_left; right_next = s.region_left }

abbrev pub finish_of : (ℕ → Stab) → ℕ → Option Search → Option Region
finish_of stabs type none = none
finish_of stabs type (some s) = some (finish stabs type s)

-- Twice the places of the region, and one round more, and the round that ends the loop.
abbrev pub search_fuel : ℕ → ℕ → ℕ
search_fuel left right_next = 2 * (right_next - left) + 2

abbrev pub start : ℕ → ℕ → ℕ → Search
start left right_next addr = record {
  l = left;
  end = right_next;
  addr = addr;
  any_matches = false;
  region_left = left;
  region_end = right_next;
}

unfoldable pub stab_binsearch : (ℕ → Stab) → ℕ → ℕ → ℕ → ℕ → Option Region
stab_binsearch stabs left right_next type addr =
    finish_of stabs type
      (search_loop stabs type (search_fuel left right_next) (start left right_next addr))
