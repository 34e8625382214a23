-- ===== src/Format/Run.antt =====
-- vprintfmt of lib/printfmt.c as a whole, and what its callers make of it: printfmt, vsnprintf and
-- snprintf, and kern/printf.c's vcprintf and cprintf. `limit` bounds the strings of %s.
use lab3a.Base.{
  ℕ, zero, suc, ◌+◌, ◌-◌, ltb, ◌==◌, ◌||◌, if◌then◌else◌, List, [], ◌∷◌, ◌++◌, update, ◌%◌,
}
use lab3a.Mmu.{u32, neg, e_inval, is_negative}
use lab3a.Strings.{Bytes}
use lab3a.Format.Conversions.{Stop}
use lab3a.Format.{Mode, in_text, Next, finished, go_on, stuck, step}

-- What a run passes to putch; or that it stopped at a conversion; or that it took more steps than its fuel.
pub data Output : Type 0 where
  printed : List ℕ → Output
  stopped : Stop → Output
  unfinished : Output

abbrev pub prefix : List ℕ → Output → Output
prefix out (printed cs) = printed (out ++ cs)
prefix out (stopped s) = stopped s
prefix out unfinished = unfinished

abbrev pub follow : (Mode → ℕ → List ℕ → Output) → Next → Output
follow rest finished = printed []
follow rest (go_on out m fmt ap) = prefix out (rest m fmt ap)
follow rest (stuck s) = stopped s

unfoldable pub run : ℕ → ℕ → Bytes → Mode → ℕ → List ℕ → Output
run zero limit mem m fmt ap = unfinished
run (suc fuel) limit mem m fmt ap = follow (run fuel limit mem) (step limit mem m fmt ap)

unfoldable pub vprintfmt : ℕ → ℕ → Bytes → ℕ → List ℕ → Output
vprintfmt fuel limit mem fmt ap = run fuel limit mem in_text fmt ap

-- struct sprintbuf, with the memory that it points into
pub record Sprintbuf : Type 0 where
  pub mem : Bytes
  pub buf : ℕ
  pub ebuf : ℕ
  pub cnt : ℕ

unfoldable pub sprintputch : ℕ → Sprintbuf → Sprintbuf
sprintputch ch b =
    if ltb b.buf b.ebuf
    then record b { mem = update b.mem b.buf (ch % 256); buf = b.buf + 1; cnt = u32 (b.cnt + 1) }
    else record b { cnt = u32 (b.cnt + 1) }

abbrev pub put_all : List ℕ → Sprintbuf → Sprintbuf
put_all [] b = b
put_all (c ∷ cs) b = put_all cs (sprintputch c b)

-- The NUL at the end, and the count.
abbrev pub terminated : Sprintbuf → Bytes × ℕ
terminated b = (update b.mem b.buf 0, b.cnt)

-- vsnprintf(buf, n, fmt, ap), behind what vprintfmt prints: the memory, and what is returned
unfoldable pub vsnprintf : Bytes → ℕ → ℕ → List ℕ → Bytes × ℕ
vsnprintf mem buf n out =
    if buf == 0 || (is_negative n || (n == 0))
    then (mem, neg e_inval)
    else terminated (put_all out (record { mem = mem; buf = buf; ebuf = buf + n - 1; cnt = 0 }))

-- putch of kern/printf.c: `*cnt++` moves the pointer, so the count stays.
abbrev pub putch : ℕ → List ℕ × ℕ → List ℕ × ℕ
putch ch (console, cnt) = (console ++ (ch ∷ []), cnt)

abbrev pub put_console : List ℕ → List ℕ × ℕ → List ℕ × ℕ
put_console [] s = s
put_console (c ∷ cs) s = put_console cs (putch c s)

-- vcprintf, behind what vprintfmt prints: what reached the console, and what is returned
unfoldable pub vcprintf : List ℕ → List ℕ → List ℕ × ℕ
vcprintf console out = put_console out (console, 0)
