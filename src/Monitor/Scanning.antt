-- ===== src/Monitor/Scanning.antt =====
-- The two inner loops of runcmd, in kern/monitor.c, on a text.
use lab3a.Base.{
  ℕ, zero, suc, ◌+◌, ◌<◌, ◌≤◌, ◌≡◌, inl, inr, refl, Bool, true, false, if◌then◌else◌, Bool-cases,
  List, [], ◌∷◌, length, update, update_ne, arith, some,
}
use lab3a.Strings.{Bytes, StringAt}
use lab3a.Strings.Copy.{StringAt-frame}
use lab3a.Monitor.{gobble, scan, is_white}

-- The places where the words of a text start, and whether a word has begun before it.
abbrev pub starts : Bool → ℕ → List ℕ → List ℕ
starts inside p [] = []
starts inside p (c ∷ cs) =
    let in_word = starts true (p + 1) cs in
    if is_white c then starts false (p + 1) cs else if inside then in_word else p ∷ in_word

-- The memory with NULs in place of the text's whitespace.
abbrev pub blanked : Bytes → ℕ → List ℕ → Bytes
blanked mem p [] = mem
blanked mem p (c ∷ cs) = blanked (if is_white c then update mem p 0 else mem) (p + 1) cs

-- A text that is over, or goes on with whitespace, or with a word.
abbrev pub StopsAt : Bool → List ℕ → Type 0
StopsAt white [] = Unit
StopsAt white (c ∷ cs) = is_white c ≡ white

-- What a loop over the text leaves to do.
pub record Rest (inside : Bool) (mem : Bytes) (p : ℕ) (cs : List ℕ) (white : Bool) (mem' : Bytes)
    (p' : ℕ) : Type 0 where
  pub rest : List ℕ
  pub text : StringAt mem' p' rest
  pub shorter : length rest ≤ length cs
  pub stops : StopsAt white rest
  pub same_starts : starts inside p cs ≡ starts false p' rest
  pub same_memory : blanked mem p cs ≡ blanked mem' p' rest

pub gobble-Rest :
    (fuel : ℕ) (mem : Bytes) (p : ℕ) (cs : List ℕ)
    → length cs < fuel
    → StringAt mem p cs
    → (mem' : Bytes) × (p' : ℕ) × (gobble fuel mem p ≡ some (mem', p'))
      × Rest false mem p cs false mem' p'
unfolding gobble
gobble-Rest zero mem p cs h t = absurd (omega arith)
gobble-Rest (suc fuel) mem p [] h t = (
  mem,
  p,
  rw t refl,
  record {
    rest = [];
    text = t;
    shorter = omega arith;
    stops = tt;
    same_starts = refl;
    same_memory = refl;
  },
)
gobble-Rest (suc fuel) mem p (c ∷ cs) h t = elim (Bool-cases (is_white c)) [
  | inl white ↦
      let t' =
        StringAt-frame mem (update mem p 0) (p + 1) cs
          (λ q low high. update_ne mem p q 0 (omega arith)) t.2 in
      let r = gobble-Rest fuel (update mem p 0) (p + 1) cs (omega arith) t' in
      (
        r.0,
        r.1,
        rw (t.0, t.1, white) r.2,
        record {
          rest = r.3.rest;
          text = r.3.text;
          shorter = omega (arith, r.3.shorter);
          stops = r.3.stops;
          same_starts = rw white r.3.same_starts;
          same_memory = rw white r.3.same_memory;
        },
      )
  | inr word ↦ (
    mem,
    p,
    rw (t.0, t.1, word) refl,
    record {
      rest = c ∷ cs;
      text = t;
      shorter = omega arith;
      stops = word;
      same_starts = refl;
      same_memory = refl;
    },
  )
]

pub scan-Rest :
    (fuel : ℕ) (mem : Bytes) (p : ℕ) (cs : List ℕ)
    → length cs < fuel
    → StringAt mem p cs
    → (p' : ℕ) × (scan fuel mem p ≡ some p') × Rest true mem p cs true mem p'
unfolding scan
scan-Rest zero mem p cs h t = absurd (omega arith)
scan-Rest (suc fuel) mem p [] h t = (
  p,
  rw t refl,
  record {
    rest = [];
    text = t;
    shorter = omega arith;
    stops = tt;
    same_starts = refl;
    same_memory = refl;
  },
)
scan-Rest (suc fuel) mem p (c ∷ cs) h t = elim (Bool-cases (is_white c)) [
  | inl white ↦ (
    p,
    rw (t.0, t.1, white) refl,
    record {
      rest = c ∷ cs;
      text = t;
      shorter = omega arith;
      stops = white;
      same_starts = rw white refl;
      same_memory = refl;
    },
  )
  | inr word ↦
      let r = scan-Rest fuel mem (p + 1) cs (omega arith) t.2 in
      (
        r.0,
        rw (t.0, t.1, word) r.1,
        record {
          rest = r.2.rest;
          text = r.2.text;
          shorter = omega (arith, r.2.shorter);
          stops = r.2.stops;
          same_starts = rw word r.2.same_starts;
          same_memory = rw word r.2.same_memory;
        },
      )
]
