-- ===== src/Strings/Bounded.antt =====
-- strlcpy and strnlen of lib/string.c: what the size bounds.
use lab3a.Base.{ℕ, zero, suc, ◌+◌, ◌≡◌, refl, ap, List, [], ◌∷◌, length, take, update}
use lab3a.Strings.{Bytes, strlcpy, strlcpy_loop, StringAt, strnlen}
use lab3a.Strings.Copy.{Copied, Copied-nil, Copied-cons, AreApart, AreApart-rest, StringAt-rest}

strlcpy_loop-Copied :
    (n : ℕ) (mem : Bytes) (dst src : ℕ) (cs : List ℕ)
    → StringAt mem src cs
    → AreApart dst src cs
    → Copied mem dst (take n cs) (strlcpy_loop mem dst src n).0
      × ((strlcpy_loop mem dst src n).1 ≡ length (take n cs))
unfolding strlcpy_loop
strlcpy_loop-Copied zero mem dst src cs t apart = (Copied-nil mem dst, refl)
strlcpy_loop-Copied (suc n) mem dst src [] t apart = rw t (Copied-nil mem dst, refl)
strlcpy_loop-Copied (suc n) mem dst src (c ∷ cs) t apart =
    let rest =
      strlcpy_loop-Copied n (update mem dst c) (dst + 1) (src + 1) cs
        (StringAt-rest mem dst src c cs apart t.2) (AreApart-rest mem dst src c cs apart) in
    rw (t.0, t.1) (Copied-cons mem _ dst c (take n cs) t.1 rest.0, ap (λ (m : ℕ). suc m) rest.1)

-- For a string cs at src, apart from its copy, and a size above 0, strlcpy leaves the first size - 1
-- bytes of cs, or all of it where it is shorter, as a NUL-terminated string at dst, writes no place behind
-- its NUL, and returns how many bytes it copied.
pub strlcpy-Copied :
    (size : ℕ) (mem : Bytes) (dst src : ℕ) (cs : List ℕ)
    → StringAt mem src cs
    → AreApart dst src cs
    → Copied mem dst (take size cs) (strlcpy mem dst src (suc size)).0
      × ((strlcpy mem dst src (suc size)).1 ≡ length (take size cs))
unfolding strlcpy
strlcpy-Copied size mem dst src cs t apart = strlcpy_loop-Copied size mem dst src cs t apart

-- strnlen of a string is its length, cut at the size.
pub strnlen-StringAt :
    (mem : Bytes) (s : ℕ) (cs : List ℕ) (size : ℕ)
    → StringAt mem s cs
    → strnlen mem s size ≡ length (take size cs)
unfolding strnlen
strnlen-StringAt mem s cs zero t = refl
strnlen-StringAt mem s [] (suc size) t = rw t refl
strnlen-StringAt mem s (c ∷ cs) (suc size) t =
    rw (t.0, t.1) (ap (λ (n : ℕ). suc n) (strnlen-StringAt mem (s + 1) cs size t.2))
