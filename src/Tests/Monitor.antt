-- ===== src/Tests/Monitor.antt =====
-- The monitor on concrete keys, command lines and stacks.
use lab3a.Base.{ℕ, ◌≡◌, refl, some, arith, List, [], ◌∷◌, map, ◌==◌, if◌then◌else◌, false}
use lab3a.Strings.{Bytes}
use lab3a.Debug.Lookup.{initial}
use lab3a.Monitor.{parse, readline}
use lab3a.Monitor.Editing.{Agrees, edited, readline-Agrees}
use lab3a.Monitor.Words.{IsSplit, parse_lem}
use lab3a.Monitor.Scanning.{starts, blanked}
use lab3a.Monitor.Backtrace.{mon_backtrace, frame_at, mon_backtrace-IsChain}

abbrev typing : List ℕ
typing = b'h' ∷ b'x' ∷ 8 ∷ b'i' ∷ b'\n' ∷ []

readline-Agrees_example : Agrees 1000 (λ q. 0) (edited [] typing) (readline 1000 (λ q. 0) typing)
readline-Agrees_example = readline-Agrees 1000 (λ q. 0) typing

abbrev command : Bytes
command q =
    if q == 100
    then 32
    else if q == 101
    then b'a'
    else if q == 102
    then 9
    else if q == 103
    then b'b'
    else 0

parse_lem_example :
    IsSplit
      (starts false 100 (32 ∷ b'a' ∷ 9 ∷ b'b' ∷ []))
      (blanked command 100 (32 ∷ b'a' ∷ 9 ∷ b'b' ∷ []))
      (parse 9 9 command 100 [])
parse_lem_example =
    parse_lem 9 command 100 (32 ∷ b'a' ∷ 9 ∷ b'b' ∷ []) (omega arith)
      (refl, refl, (refl, refl, (refl, refl, (refl, refl, refl))))

abbrev stack : ℕ → ℕ
stack q = if q == 400 then 440 else if q == 404 then 77 else 0

mon_backtrace-IsChain_example :
    mon_backtrace 5 initial stack 400 ≡ some (map (frame_at initial stack) (400 ∷ 440 ∷ []))
mon_backtrace-IsChain_example =
    mon_backtrace-IsChain 5 initial stack 400 (440 ∷ []) (refl, refl, refl) (omega arith)
