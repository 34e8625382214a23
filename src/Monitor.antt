-- ===== src/Monitor.antt =====
-- The kernel monitor of kern/monitor.c, its command interpreter, and readline of lib/readline.c. What
-- getchar returns is a list of `int`s, as 32-bit patterns. The loops over the command line have fuel.
pub mod Scanning
pub mod Words
pub mod Editing
pub mod Backtrace
use lab3a.Base.{
  ℕ, zero, suc, ◌+◌, ◌-◌, ◌%◌, Option, none, some, Bool, true, false, ltb, leb, ◌==◌, not, ◌&&◌,
  ◌||◌, if◌then◌else◌, List, [], ◌∷◌, ◌++◌, update, length,
}
use lab3a.Mmu.{is_negative}
use lab3a.Strings.{Bytes}
use lab3a.Format.Printnum.{chars}

-- strchr(WHITESPACE, c), for a `c` that is not NUL
abbrev pub is_white : ℕ → Bool
is_white c = (c == b'\t') || ((c == b'\r') || ((c == b'\n') || (c == b' ')))

-- The loop that gobbles whitespace, and writes NULs in its place.
pub gobble : ℕ → Bytes → ℕ → Option (Bytes × ℕ)
gobble zero mem buf = none
gobble (suc fuel) mem buf =
    let rest = gobble fuel (update mem buf 0) (buf + 1) in
    if not (mem buf == 0) && is_white (mem buf) then rest else some (mem, buf)

-- The loop that scans past an argument.
pub scan : ℕ → Bytes → ℕ → Option ℕ
scan zero mem buf = none
scan (suc fuel) mem buf =
    let rest = scan fuel mem (buf + 1) in
    if not (mem buf == 0) && not (is_white (mem buf)) then rest else some buf

abbrev pub maxargs : ℕ
maxargs = 16

-- What runcmd makes of the command line: the arguments' places and the memory, or a complaint.
pub data Parsed : Type 0 where
  arguments : List ℕ → Bytes → Parsed
  too_many : Bytes → Parsed

-- The test of the next argument, with the rest of the loop.
abbrev pub next_argument :
    (Bytes → ℕ → List ℕ → Option Parsed) → ℕ → List ℕ → Option (Bytes × ℕ) → Option Parsed
next_argument rest fuel argv none = none
next_argument rest fuel argv (some (mem, buf)) =
    if mem buf == 0
    then some (arguments argv mem)
    else if length argv == maxargs - 1
    then some (too_many mem)
    else behind (scan fuel mem buf)
  where
    behind : Option ℕ → Option Parsed
    behind none = none
    behind (some end) = rest mem end (argv ++ (buf ∷ []))

-- The loop of runcmd, with `size` fuel for its inner loops.
pub parse : ℕ → ℕ → Bytes → ℕ → List ℕ → Option Parsed
parse size zero mem buf argv = none
parse size (suc fuel) mem buf argv = next_argument (parse size fuel) size argv (gobble size mem buf)

-- strcmp(p, name) == 0, for the name of a command
abbrev pub is_name : Bytes → ℕ → List ℕ → Bool
is_name mem p [] = mem p == 0
is_name mem p (c ∷ cs) = (mem p == c) && is_name mem (p + 1) cs

-- What a command line leads to: the functions of the table, with their arguments, or a message.
pub data Reaction : Type 0 where
  nothing : Reaction
  mon_help : List ℕ → Reaction
  mon_kerninfo : List ℕ → Reaction
  unknown_command : ℕ → Reaction
  too_many_arguments : Reaction

-- The table of commands
abbrev pub invoke : Bytes → ℕ → List ℕ → Reaction
invoke mem first argv =
    if is_name mem first (chars "help")
    then mon_help argv
    else if is_name mem first (chars "kerninfo")
    then mon_kerninfo argv
    else unknown_command first

abbrev pub react : Parsed → Reaction
react (too_many mem) = too_many_arguments
react (arguments [] mem) = nothing
react (arguments (first ∷ argv) mem) = invoke mem first (first ∷ argv)

-- The value that runcmd returns: the functions of the table all return 0.
abbrev pub returned : Reaction → ℕ
returned r = 0

abbrev pub outcome : Option Parsed → Option (Reaction × ℕ)
outcome none = none
outcome (some p) = some (react p, returned (react p))

-- runcmd
unfoldable pub runcmd : ℕ → Bytes → ℕ → Option (Reaction × ℕ)
runcmd size mem buf = outcome (parse size size mem buf [])

abbrev pub buflen : ℕ
buflen = 1024

-- What readline echoes and leaves: a line, with the memory, or a read error; or it waits for more.
pub data Line : Type 0 where
  line : Bytes → List ℕ → Line
  read_error : ℕ → Line
  waiting : Line

abbrev pub is_erase : ℕ → Bool
is_erase c = (c == 8) || (c == 0x7f)

-- The static buffer, the number of characters in it, and what was echoed.
pub record Editor : Type 0 where
  pub mem : Bytes
  pub i : ℕ
  pub echo : List ℕ

pub data Key : Type 0 where
  again : Editor → Key
  enter : Editor → Key
  failed : ℕ → Key

-- The body of readline's loop, with the buffer at `buf` and echoing on.
unfoldable pub read_key : ℕ → ℕ → Editor → Key
read_key buf c e =
    if is_negative c
    then failed c
    else if is_erase c && ltb 0 e.i
    then again (record e { i = e.i - 1; echo = e.echo ++ (8 ∷ []) })
    else if leb b' ' c && ltb e.i (buflen - 1)
    then again (record {
      mem = update e.mem (buf + e.i) (c % 256);
      i = e.i + 1;
      echo = e.echo ++ (c ∷ []);
    })
    else if (c == b'\n') || (c == b'\r')
    then enter (record e { mem = update e.mem (buf + e.i) 0; echo = e.echo ++ (b'\n' ∷ []) })
    else again e

abbrev pub after_key : (Editor → Line) → Key → Line
after_key rest (again e) = rest e
after_key rest (enter e) = line e.mem e.echo
after_key rest (failed c) = read_error c

unfoldable pub read_loop : ℕ → List ℕ → Editor → Line
read_loop buf [] e = waiting
read_loop buf (c ∷ cs) e = after_key (read_loop buf cs) (read_key buf c e)

-- readline, behind its prompt
unfoldable pub readline : ℕ → Bytes → List ℕ → Line
readline buf mem cs = read_loop buf cs (record { mem = mem; i = 0; echo = [] })
