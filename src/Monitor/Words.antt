-- ===== src/Monitor/Words.antt =====
-- runcmd of kern/monitor.c splits a command line into its words, and always returns 0.
use lab3a.Base.{
  append_assoc, subst, none, ℕ, zero, suc, ◌+◌, ◌<◌, ◌≤◌, ◌≡◌, inl, inr, refl, true, false,
  Bool-cases, List, [], ◌∷◌, length, arith, some, Option, ◌++◌, sym, append-nil, length-append,
  ◌==◌,
}
use lab3a.Strings.{Bytes, StringAt}
use lab3a.Monitor.{
  scan, is_white, maxargs, Parsed, arguments, parse, next_argument, too_many, runcmd, Reaction,
  outcome, react,
}
use lab3a.Monitor.Scanning.{gobble-Rest, scan-Rest, starts, blanked, StopsAt}

-- What runcmd's loop ends with: all the words, with NULs behind them, or a complaint where there are more
-- than fit the array.
abbrev pub IsSplit : List ℕ → Bytes → Option Parsed → Type 0
IsSplit words mem none = ⊥
IsSplit words mem (some (arguments argv mem')) =
    (argv ≡ words) × (mem' ≡ mem) × (length words < maxargs)
IsSplit words mem (some (too_many mem')) = maxargs ≤ length words

starts-word :
    (p c : ℕ) (cs : List ℕ)
    → is_white c ≡ false
    → starts false p (c ∷ cs) ≡ p ∷ starts true (p + 1) cs
starts-word p c cs word = rw word refl

module _ (size : ℕ) where
  next-IsSplit :
      (fuel : ℕ) (mem : Bytes) (p : ℕ) (cs argv : List ℕ)
      → length cs < suc size
      → length argv < maxargs
      → StringAt mem p cs
      → StopsAt false cs
      → ((p' : ℕ) (cs' : List ℕ)
          → length cs' < length cs
          → StringAt mem p' cs'
          → length (argv ++ (p ∷ [])) < maxargs
          → IsSplit
              ((argv ++ (p ∷ [])) ++ starts false p' cs')
              (blanked mem p' cs')
              (parse (suc size) fuel mem p' (argv ++ (p ∷ []))))
      → IsSplit
          (argv ++ starts false p cs)
          (blanked mem p cs)
          (next_argument (parse (suc size) fuel) (suc size) argv (some (mem, p)))
  unfolding scan
  next-IsSplit fuel mem p [] argv h few t stops ih =
      rw t (sym (append-nil argv), refl, omega (arith, length-append argv []))
  next-IsSplit fuel mem p (c ∷ cs) argv h few t word ih = elim (Bool-cases (length argv == 15)) [
    | inl full ↦
        rw (t.0, t.1, full, word)
          (let more = length-append argv (p ∷ starts true (p + 1) cs) in ground (arith))
    | inr room ↦
        let r = scan-Rest size mem (p + 1) cs (omega arith) t.2 in
        let next =
          ih r.0 r.2.rest (omega (arith, r.2.shorter)) r.2.text
            (let one = length-append argv (p ∷ []) in ground arith) in
        rw (t.0, t.1, room, word, r.1, r.2.same_starts, r.2.same_memory)
          (subst
            (λ (w : List ℕ).
              IsSplit w (blanked mem r.0 r.2.rest)
                (parse (suc size) fuel mem r.0 (argv ++ (p ∷ []))))
            (append_assoc argv (p ∷ []) (starts false r.0 r.2.rest)) next)
  ]

  parse-IsSplit :
      (fuel : ℕ) (mem : Bytes) (p : ℕ) (cs argv : List ℕ)
      → length cs < fuel
      → length cs < suc size
      → length argv < maxargs
      → StringAt mem p cs
      → IsSplit (argv ++ starts false p cs) (blanked mem p cs) (parse (suc size) fuel mem p argv)
  unfolding parse
  parse-IsSplit zero mem p cs argv h enough few t = absurd (omega arith)
  parse-IsSplit (suc fuel) mem p cs argv h enough few t =
      let g = gobble-Rest (suc size) mem p cs enough t in
      rw (g.2, g.3.same_starts, g.3.same_memory)
        (next-IsSplit fuel g.0 g.1 g.3.rest argv (omega (arith, g.3.shorter)) few g.3.text g.3.stops
          (λ p' cs' less t' few'.
            parse-IsSplit fuel g.0 p' cs' (argv ++ (g.1 ∷ [])) (omega (arith, g.3.shorter))
              (omega (arith, g.3.shorter)) few' t'))

-- For a command line that is a NUL-terminated text cs: with fuel above its length, the loop of runcmd
-- ends; where the text has at most 15 words it leaves in argv the places where they start, in order, and
-- in memory a NUL in place of every whitespace character of the text and no other change; where there are more
-- words it complains.
pub parse_lem :
    (size : ℕ) (mem : Bytes) (buf : ℕ) (cs : List ℕ)
    → length cs < size
    → StringAt mem buf cs
    → IsSplit (starts false buf cs) (blanked mem buf cs) (parse size size mem buf [])
parse_lem zero mem buf cs h t = absurd (omega arith)
parse_lem (suc size) mem buf cs h t =
    parse-IsSplit size (suc size) mem buf cs [] h h (omega arith) t

-- runcmd ends on every command line and never returns a negative value, so that the loop of monitor, which
-- a negative value would end, never ends.
pub runcmd_returns :
    (size : ℕ) (mem : Bytes) (buf : ℕ) (cs : List ℕ)
    → length cs < size
    → StringAt mem buf cs
    → (r : Reaction) × (runcmd size mem buf ≡ some (r, 0))
unfolding runcmd
runcmd_returns size mem buf cs h t = go (parse size size mem buf []) (parse_lem size mem buf cs h t)
  where
    go :
        (p : Option Parsed)
        → IsSplit (starts false buf cs) (blanked mem buf cs) p
        → (r : Reaction) × (outcome p ≡ some (r, 0))
    go none s = absurd s
    go (some p) s = (react p, refl)
