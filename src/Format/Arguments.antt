-- ===== src/Format/Arguments.antt =====
-- What the directives of vprintfmt take from the arguments.
use lab3a.Base.{
  ℕ, ◌+◌, ◌*◌, ◌^◌, ◌<◌, ◌≤◌, inl, inr, Option, none, some, Bool-cases, leb, List, [], ◌∷◌, arith,
  length, All,
}
use lab3a.Format.{word}
use lab3a.Format.Printnum.{getint, getuint, one_word, two_words, sign_extend}

abbrev pub IsWord : ℕ → Type 0
IsWord w = w < 2 ^ 32

abbrev pub IsLong : ℕ → Type 0
IsLong n = n < 2 ^ 64

-- At most two words are gone.
abbrev pub Rest : List ℕ → List ℕ → Type 0
Rest args ap = (length args ≤ length ap + 2) × (All IsWord args → All IsWord ap)

pub untouched : (args : List ℕ) → Rest args args
untouched args = (omega arith, λ words. words)

-- A number was read, or there were not two words.
abbrev pub Read : List ℕ → (ℕ → Type 0) → Option (ℕ × List ℕ) → Type 0
Read args P none = length args < 2
Read args P (some (num, ap)) = Rest args ap × P num

one_word-Read :
    (args : List ℕ) (extend : ℕ → ℕ) (P : ℕ → Type 0)
    → All IsWord args
    → ((w : ℕ) → IsWord w → P (extend w))
    → Read args P (one_word extend args)
one_word-Read [] extend P words fits = omega arith
one_word-Read (w ∷ ap) extend P words fits = ((omega arith, λ ws. ws.1), fits w words.0)

two_words-Read : (args : List ℕ) → All IsWord args → Read args IsLong (two_words args)
two_words-Read [] words = omega arith
two_words-Read (low ∷ []) words = omega arith
two_words-Read (low ∷ high ∷ ap) words = ((omega arith, λ ws. ws.1.1), long words.0 words.1.0)
  where
    long : IsWord low → IsWord high → IsLong (low + 2 ^ 32 * high)
    long l h = omega arith

pub word-Read : (args : List ℕ) → All IsWord args → Read args IsWord (word args)
word-Read args words = one_word-Read args (λ w. w) IsWord words (λ w h. h)

pub getuint-Read :
    (args : List ℕ) (lflag : ℕ) → All IsWord args → Read args IsLong (getuint args lflag)
getuint-Read args lflag words = elim (Bool-cases (leb 2 lflag)) [
  | inl e ↦ rw e (two_words-Read args words)
  | inr e ↦ rw e (one_word-Read args (λ w. w) IsLong words (λ w h. omega arith))
]

pub getint-Read :
    (args : List ℕ) (lflag : ℕ) → All IsWord args → Read args IsLong (getint args lflag)
getint-Read args lflag words = elim (Bool-cases (leb 2 lflag)) [
  | inl e ↦ rw e (two_words-Read args words)
  | inr e ↦ rw e (one_word-Read args sign_extend IsLong words (λ w h. ground arith))
]
