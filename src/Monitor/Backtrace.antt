-- ===== src/Monitor/Backtrace.antt =====
-- mon_backtrace of kern/monitor.c: the walk over the frames of the stack. A word of the stack is read by its
-- address; what debuginfo_eip stores for an address is a function. The walk has fuel.
use lab3a.Base.{
  ℕ, zero, suc, ◌+◌, ◌-◌, ◌*◌, ◌^◌, ◌<◌, ◌≡◌, refl, Option, none, some, false, ◌==◌, if◌then◌else◌,
  List, [], ◌∷◌, length, arith, map,
}
use lab3a.Mmu.{u32}
use lab3a.Debug.Lookup.{Eipdebuginfo, Name}

-- A line pair of the backtrace: the numbers, and the place in the source.
pub record Frame : Type 0 where
  pub ebp : ℕ
  pub eip : ℕ
  pub args : List ℕ
  pub file : Name
  pub line : ℕ
  pub fn_namelen : ℕ
  pub fn_name : Name
  pub offset : ℕ

-- ((uint32_t *) ebp)[i]
abbrev pub stack_word : (ℕ → ℕ) → ℕ → ℕ → ℕ
stack_word stack ebp i = stack (u32 (ebp + 4 * i))

-- What one round of the loop prints.
abbrev pub frame_at : (ℕ → Eipdebuginfo) → (ℕ → ℕ) → ℕ → Frame
frame_at info stack ebp =
    let eip = stack_word stack ebp 1 in
    let i = info eip in
    record {
      ebp = ebp;
      eip = eip;
      args =
          stack_word stack ebp 2
          ∷ stack_word stack ebp 3
          ∷ stack_word stack ebp 4
          ∷ stack_word stack ebp 5
          ∷ stack_word stack ebp 6
          ∷ [];
      file = i.eip_file;
      line = i.eip_line;
      fn_namelen = i.eip_fn_namelen;
      fn_name = i.eip_fn_name;
      offset = u32 (eip + 2 ^ 32 - i.eip_fn_addr);
    }

abbrev pub add_frame : Frame → Option (List Frame) → Option (List Frame)
add_frame f none = none
add_frame f (some fs) = some (f ∷ fs)

-- mon_backtrace, from the frame at ebp
unfoldable pub mon_backtrace : ℕ → (ℕ → Eipdebuginfo) → (ℕ → ℕ) → ℕ → Option (List Frame)
mon_backtrace zero info stack ebp = none
mon_backtrace (suc fuel) info stack ebp =
    let rest = mon_backtrace fuel info stack (stack_word stack ebp 0) in
    add_frame (frame_at info stack ebp) (if stack_word stack ebp 0 == 0 then some [] else rest)

-- The frames of a stack: each one's first word is the next one's address, the last one's is 0.
abbrev pub IsChain : (ℕ → ℕ) → ℕ → List ℕ → Type 0
IsChain stack ebp [] = stack_word stack ebp 0 ≡ 0
IsChain stack ebp (next ∷ rest) =
    (stack_word stack ebp 0 ≡ next) × ((next == 0) ≡ false) × IsChain stack next rest

-- For a stack whose frames are chained up to one with the saved ebp 0: mon_backtrace ends, and prints
-- every frame of the chain once, the innermost one first.
pub mon_backtrace-IsChain :
    (fuel : ℕ) (info : ℕ → Eipdebuginfo) (stack : ℕ → ℕ) (ebp : ℕ) (callers : List ℕ)
    → IsChain stack ebp callers
    → length callers < fuel
    → mon_backtrace fuel info stack ebp ≡ some (map (frame_at info stack) (ebp ∷ callers))
unfolding mon_backtrace
mon_backtrace-IsChain zero info stack ebp callers c h = absurd (omega arith)
mon_backtrace-IsChain (suc fuel) info stack ebp [] c h = rw c refl
mon_backtrace-IsChain (suc fuel) info stack ebp (next ∷ rest) (e, ne, c) h =
    rw (e, ne, mon_backtrace-IsChain fuel info stack next rest c (omega arith)) refl
