-- ===== src/Tests/Debug.antt =====
-- The search of the symbol table on a small table, and on a program's tables at the small machine.
use lab3a.Base.{ℕ, ◌+◌, ◌*◌, ◌≡◌, ◌⊎◌, refl, some, arith, ◌==◌, ◌||◌, if◌then◌else◌}
use lab3a.Machine.Runs.{Returns}
use lab3a.Debug.{
  search_loop, round_at, scan_down, finish, Stab, Region, stab_binsearch, n_so, n_fun,
}
use lab3a.Debug.Result.{Holds, stab_binsearch-Holds}
use lab3a.Debug.Ends.{stab_binsearch_ends}
use lab3a.Debug.Eip.{debuginfo_eip}
use lab3a.Debug.Lookup.{UserStabData}
use lab3a.Debug.Access.{Refused, Searched, debuginfo_eip-Access}
use lab3a.Tests.State.{small, small-Fits}
use lab3a.Tests.Access.{small-TablesInMemory}

-- Files start at the places 0, 2 and 3.
abbrev table : ℕ → Stab
table i = record {
  n_strx = 0;
  n_type = if (i == 0) || ((i == 2) || (i == 3)) then n_so else n_fun;
  n_other = 0;
  n_desc = 0;
  n_value = 100 + 10 * i;
}

stab_binsearch-Holds_example :
    (r : Region) × (stab_binsearch table 0 6 n_so 125 ≡ some r) × Holds table n_so 0 6 125 r
stab_binsearch-Holds_example =
    stab_binsearch-Holds table n_so 0 6 125 (λ i j low le high m n. omega arith)
      (λ (i, j, li, hi, lj, hj, mi, mj, e, f). omega arith) (omega arith) 2 (omega arith)
      (omega arith) refl (omega arith)

stab_binsearch_ends_example : (r : Region) × (stab_binsearch table 0 6 n_so 5 ≡ some r)
stab_binsearch_ends_example = stab_binsearch_ends table 0 6 n_so 5

-- Two stabs with neighbouring addresses: the search for the first one's ends at the second one.
abbrev neighbours : ℕ → Stab
neighbours i = record (table 0) { n_value = 5 + i }

skips_neighbour :
    stab_binsearch neighbours 0 2 n_so 5 ≡ some (record { left_next = 2; right_next = 2 })
unfolding stab_binsearch search_loop round_at scan_down finish
skips_neighbour = refl

-- An address in front of the first stab of the type gives a region that is not empty.
in_front_found : stab_binsearch table 0 6 n_so 5 ≡ some (record { left_next = 0; right_next = 0 })
unfolding stab_binsearch search_loop round_at scan_down finish
in_front_found = refl

abbrev no_tables : UserStabData
no_tables = record { stabs = 0; stab_end = 0; stabstr = 0; stabstr_end = 0 }

debuginfo_eip-Access_example :
    Returns
      (λ r k'. Refused small 0x800020 r k' ⊎ Searched small 0 10 (λ q. 0) 0x800020 r k')
      (debuginfo_eip 10 (λ q. 0) no_tables 0x800020 small)
debuginfo_eip-Access_example =
    debuginfo_eip-Access small 0 10 (λ q. 0) no_tables 0x800020 small-Fits small-TablesInMemory refl
      (omega arith) (omega arith) (omega arith)
