-- ===== src/Tests/Strings.antt =====
-- The string functions on the strings "hi" at 100 and "ho" at 200.
use lab3a.Base.{ℕ, ◌<◌, ◌≡◌, refl, [], ◌∷◌, arith, ◌==◌, if◌then◌else◌, inl, length, take, List}
use lab3a.Strings.{Bytes, strlcpy}
use lab3a.Strings.Copy.{Copied}
use lab3a.Strings.Bounded.{strlcpy-Copied}

abbrev words : Bytes
words q =
    if q == 100
    then 104
    else if q == 101
    then 105
    else if q == 200
    then 104
    else if q == 201
    then 111
    else 0

words_bytes : (q : ℕ) → words q < 256
words_bytes q = ground arith

abbrev ho : List ℕ
ho = 104 ∷ 111 ∷ []

strlcpy-Copied_example :
    Copied words 300 (take 1 ho) (strlcpy words 300 200 2).0
    × ((strlcpy words 300 200 2).1 ≡ length (take 1 ho))
strlcpy-Copied_example =
    strlcpy-Copied 1 words 300 200 ho (refl, refl, (refl, refl, refl)) (inl (omega arith))
