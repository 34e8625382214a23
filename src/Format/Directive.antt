-- ===== src/Format/Directive.antt =====
-- A step inside a directive of vprintfmt brings its end nearer.
use lab3a.Format.Printnum.{getint, getuint, chars}
use lab3a.Mmu.{is_negative}
use lab3a.Base.{
  ap, ℕ, suc, ◌+◌, ◌-◌, ◌*◌, ◌<◌, ◌≤◌, ◌≡◌, ◌≢◌, Option, none, some, true, false, ◌==◌,
  if◌then◌else◌, List, [], ◌∷◌, Bool-cases, inl, inr, arith, ==_iff, subst, sym, ◌∙◌, All,
}
use lab3a.Strings.{Bytes}
use lab3a.Format.Measure.{steps, steps_mono, back_to_percent_lem, In, Falls, either, with_num-Falls}
use lab3a.Format.Halts.{ShowsOrHalts, string-Proper, number-Proper, signed-Proper, error-Proper}
use lab3a.Format.Arguments.{
  Rest, untouched, Read, IsWord, IsLong, word-Read, getuint-Read, getint-Read,
}
use lab3a.Format.Conversions.{
  shows, string_or_stop, digits_or_stop, put_string, put_signed, put_number, put_error, Text, Spec,
  is_digit, process_precision, add_digit,
}
use lab3a.Format.{
  in_text, in_spec, in_digits, go_on, step_spec, with_num, with_precision, back_to_percent, word,
  is_negative, getint, getuint, chars, Next,
}

module _ (mem : Bytes) (end : ℕ) (nul : mem end ≡ 0) (limit : ℕ) (args : List ℕ)
    (words : All IsWord args) where
  module _ (st fmt c : ℕ) (here : In mem end nul st fmt)
      (enough : steps (end - suc st) + (2 * (end - fmt) + 3) ≤ c) where
    -- A character that is not NUL stands before the end.
    before_end : mem fmt ≢ 0 → fmt < end
    before_end ne = elim (Bool-cases (fmt == end)) [
      | inl same ↦ absurd (ne (ap mem ((==_iff fmt end).0 same) ∙ nul))
      | inr other ↦ ground (arith, here.before)
    ]

    In-next : fmt < end → (mem fmt == b'%') ≡ false → In mem end nul st (fmt + 1)
    In-next h e = record {
      percent = here.percent;
      behind = omega (arith, here.behind);
      before = omega arith;
      clear = λ i low high. elim (Bool-cases (i == fmt)) [
        | inl same ↦ subst (λ (j : ℕ). (mem j == b'%') ≡ false) (sym ((==_iff i fmt).0 same)) e
        | inr other ↦ here.clear i low (ground arith)
      ];
    }

    -- A flag is read.
    flag :
        (s : Spec) (ap : List ℕ)
        → Rest args ap
        → mem fmt ≢ 0
        → (mem fmt == b'%') ≡ false
        → Falls mem end nul limit args c (go_on [] (in_spec s) (fmt + 1) ap)
    flag s ap rest ne np =
        let h = before_end ne in
        (
          steps (end - suc st) + (2 * (end - (fmt + 1)) + 3),
          omega arith,
          (st, In-next h np, omega arith),
          rest,
        )

    pub digits :
        (s : Spec) (ap : List ℕ)
        → Rest args ap
        → mem fmt ≢ 0
        → (mem fmt == b'%') ≡ false
        → Falls mem end nul limit args c (go_on [] (in_digits s) (fmt + 1) ap)
    digits s ap rest ne np =
        let h = before_end ne in
        (
          steps (end - suc st) + (2 * (end - (fmt + 1)) + 4),
          omega arith,
          (st, In-next h np, omega arith),
          rest,
        )

    width_argument :
        (s : Spec) (o : Option (ℕ × List ℕ))
        → Read args IsWord o
        → mem fmt ≢ 0
        → (mem fmt == b'%') ≡ false
        → Falls mem end nul limit args c (with_precision s (fmt + 1) o)
    width_argument s none read ne np = read
    width_argument s (some (w, ap)) (rest, _) ne np =
        flag (process_precision (record s { precision = w })) ap rest ne np

    -- A conversion ends the directive.
    next_less : mem fmt ≢ 0 → steps (end - (fmt + 1)) < c
    next_less ne =
        let h = before_end ne in
        let m = steps_mono (end - (fmt + 1)) (end - suc st) (omega (arith, here.behind)) in
        omega arith

    conversion :
        (print : ℕ → Text) (P : ℕ → Type 0) (o : Option (ℕ × List ℕ))
        → Read args P o
        → ((num : ℕ) → P num → ShowsOrHalts mem limit args (print num))
        → mem fmt ≢ 0
        → Falls mem end nul limit args c (with_num print (fmt + 1) o)
    conversion print P o read proper ne =
        with_num-Falls mem end nul limit args c (fmt + 1) print P o
          (let h = before_end ne in omega arith) (next_less ne) read proper

    literal :
        (out : List ℕ)
        → mem fmt ≢ 0
        → Falls mem end nul limit args c (go_on out in_text (fmt + 1) args)
    literal out ne = (
      steps (end - (fmt + 1)),
      next_less ne,
      (let h = before_end ne in omega arith, omega arith),
      untouched args,
    )

    unrecognized :
        (mem fmt == b'%') ≡ false
        → Falls mem end nul limit args c
            (go_on (b'%' ∷ []) in_text (back_to_percent mem (fmt + 1 - 1)) args)
    unrecognized np =
        let same : fmt + 1 - 1 ≡ fmt = omega arith in
        rw (same, back_to_percent_lem mem st fmt here.percent here.behind here.clear)
          (
            steps (end - suc st),
            omega arith,
            (omega (arith, here.behind, here.before), omega arith),
            untouched args,
          )

    pub step_spec-Falls :
        (s : Spec) → Falls mem end nul limit args c (step_spec limit mem s (mem fmt) (fmt + 1) args)
    unfolding step_spec
    step_spec-Falls s =
        test b'-' _ _ (λ e. flag (record s { padc = b'-' }) args kept (ground arith) (ground arith))
          λ _.
            test b'0' _ _
              (λ e. flag (record s { padc = b'0' }) args kept (ground arith) (ground arith))
              λ _.
                either mem end nul limit args c (is_digit ch) _ _
                  (λ e.
                    digits (add_digit (record s { precision = 0 }) ch) args kept (ground arith)
                      (ground arith))
                  λ _.
                    test b'*' _ _
                      (λ e. width_argument s (word args) read_word (ground arith) (ground arith))
                      λ _.
                        test b'.' _ _
                          (λ e.
                            flag (if is_negative s.width then record s { width = 0 } else s) args
                              kept (ground arith) (ground arith))
                          λ _.
                            test b'#' _ _
                              (λ e.
                                flag (record s { altflag = true }) args kept (ground arith)
                                  (ground arith))
                              λ _.
                                test b'l' _ _
                                  (λ e.
                                    flag (record s { lflag = s.lflag + 1 }) args kept (ground arith)
                                      (ground arith))
                                  λ _.
                                    test b'c' _ _
                                      (λ e.
                                        conversion (λ w. shows (w ∷ [])) IsWord (word args)
                                          read_word (λ w h. tt) (ground arith))
                                      λ _.
                                        test b'e' _ _
                                          (λ e.
                                            conversion put_error IsWord (word args) read_word
                                              (error-Proper mem limit args) (ground arith))
                                          λ _.
                                            test b's' _ _
                                              (λ e.
                                                conversion
                                                  (λ p. string_or_stop p (put_string limit mem s p))
                                                  IsWord (word args) read_word
                                                  (λ p h. string-Proper mem limit args s p)
                                                  (ground arith))
                                              λ _.
                                                test b'd' _ _
                                                  (λ e.
                                                    conversion
                                                      (λ n. digits_or_stop (put_signed s n)) IsLong
                                                      (getint args s.lflag)
                                                      (getint-Read args s.lflag words)
                                                      (signed-Proper mem limit args s)
                                                      (ground arith))
                                                  λ _.
                                                    test b'u' _ _
                                                      (λ e.
                                                        conversion
                                                          (λ n.
                                                            digits_or_stop (put_number s 10 [] n))
                                                          IsLong (getuint args s.lflag)
                                                          (getuint-Read args s.lflag words)
                                                          (λ n h.
                                                            number-Proper mem limit args s 10 [] n
                                                            (omega arith) (omega arith) h)
                                                          (ground arith))
                                                      λ _.
                                                        test b'o' _ _
                                                          (λ e.
                                                            literal (chars "XXX") (ground arith))
                                                          λ _.
                                                            test b'p' _ _
                                                            (λ e.
                                                            conversion
                                                            (λ n.
                                                            digits_or_stop
                                                            (put_number s 16 (chars "0x") n))
                                                            IsWord (word args) read_word
                                                            (λ n h.
                                                            number-Proper mem limit args s 16
                                                            (chars "0x") n (omega arith)
                                                            (omega arith) (omega arith))
                                                            (ground arith))
                                                            λ _.
                                                            test b'x' _ _
                                                            (λ e.
                                                            conversion
                                                            (λ n.
                                                            digits_or_stop (put_number s 16 [] n))
                                                            IsLong (getuint args s.lflag)
                                                            (getuint-Read args s.lflag words)
                                                            (λ n h.
                                                            number-Proper mem limit args s 16 [] n
                                                            (omega arith) (omega arith) h)
                                                            (ground arith))
                                                            λ _.
                                                            test b'%' _ _
                                                            (λ e. literal (ch ∷ []) (ground arith))
                                                            unrecognized
      where
        ch : ℕ
        ch = mem fmt

        kept : Rest args args
        kept = untouched args

        read_word : Read args IsWord (word args)
        read_word = word-Read args words

        test :
            (k : ℕ) (x y : Next)
            → ((mem fmt == k) ≡ true → Falls mem end nul limit args c x)
            → ((mem fmt == k) ≡ false → Falls mem end nul limit args c y)
            → Falls mem end nul limit args c (if mem fmt == k then x else y)
        test k x y f g = either mem end nul limit args c (mem fmt == k) _ _ f g
