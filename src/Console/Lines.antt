-- ===== src/Console/Lines.antt =====
-- Printing with line ends made into two characters, against the conversion of a list.
use guestvm_guk.Base.{
  ℕ, zero, suc, ◌+◌, ◌-◌, ◌≤◌, ◌≡◌, sym, ap, ◌∙◌, subst, Bool, true, false, arith, some, List, [],
  ◌∷◌, ◌++◌, append_assoc, append-nil, ltb, ◌==◌, if-true, if-false, Bool-cases, inl, inr, length,
  get_or, take, drop, length-append,
}
use guestvm_guk.Xenbus.Ring.{Wire}
use guestvm_guk.Console.{
  Interface, Console, Printing, printed, crashed, endless, then_print, print_bytes, print_rest,
  with_line_end, restored, print_lines, console_print, stops,
}
use guestvm_guk.Console.Output.{IsOutput, passed, Drains, Prints, checked_print-Prints}
use guestvm_guk.Console.Crlf.{
  crlf, IsPlain, crlf-plain, IsPlain-append, get_or-behind, take-behind, at_end, crlf-line,
  line_end-taken, line_end-dropped,
}

module _ (w : Wire) (initialised : Bool) (daemon : Interface → Interface) where
  then_print-Prints :
      (first second : List ℕ) (s : Interface) (result : Printing Interface)
      → (next : Interface → Printing Interface) → Prints w first s result
      → ((s1 : Interface) → IsOutput w s1 → Prints w second s1 (next s1))
      → Prints w (first ++ second) s (then_print result next)
  then_print-Prints first second s crashed next h more = h
  then_print-Prints first second s endless next h more = h
  then_print-Prints first second s (printed s1) next (v, e) more = add (next s1) (more s1 v)
    where
      add :
          (result : Printing Interface)
          → Prints w second s1 result
          → Prints w (first ++ second) s result
      add crashed h = h
      add endless h = h
      add (printed s2) (v2, f) =
          (v2, f ∙ ap (λ l. l ++ second) e ∙ append_assoc (passed w s) first second)

  module _ (drains : Drains w daemon) where
    print_bytes-Prints :
        (bytes : List ℕ) (s : Interface)
        → IsOutput w s
        → Prints w bytes s (print_bytes w initialised daemon bytes s)
    unfolding print_bytes
    print_bytes-Prints bytes s v =
        checked_print-Prints w initialised daemon drains (length bytes) bytes s (omega arith) v

    print_rest-Prints :
        (pre : List ℕ) (c : ℕ) (s : Interface)
        → IsPlain pre
        → IsOutput w s
        → Prints w (crlf (pre ++ (c ∷ []))) s (print_rest w initialised daemon (pre ++ (c ∷ [])) s)
    unfolding print_rest crlf
    print_rest-Prints pre c s p v = elim (Bool-cases (c == 10)) [
      | inl ends ↦
          subst (λ l. Prints w l s (print_rest w initialised daemon (pre ++ (c ∷ [])) s))
            (sym (crlf-plain pre (c ∷ []) p ∙ ap (λ l. pre ++ l) (if-true _ _ _ ends)))
            (subst (Prints w (pre ++ (13 ∷ 10 ∷ [])) s)
              (sym (
                if-true (get_or (pre ++ (c ∷ [])) (length (pre ++ (c ∷ [])) - 1) 0 == 10) _ _
                  (ap (λ x. x == 10) at_last ∙ ends)))
              (then_print-Prints pre (13 ∷ 10 ∷ []) s _
                (print_bytes w initialised daemon (13 ∷ 10 ∷ []))
                (subst (λ l. Prints w pre s (print_bytes w initialised daemon l s)) (sym before)
                  (print_bytes-Prints pre s v))
                (λ s1 v1. print_bytes-Prints (13 ∷ 10 ∷ []) s1 v1)))
      | inr plain ↦
          subst (λ l. Prints w l s (print_rest w initialised daemon (pre ++ (c ∷ [])) s))
            (sym (crlf-plain pre (c ∷ []) p ∙ ap (λ l. pre ++ l) (if-false _ _ _ plain)))
            (subst (Prints w (pre ++ (c ∷ [])) s)
              (sym (
                if-false (get_or (pre ++ (c ∷ [])) (length (pre ++ (c ∷ [])) - 1) 0 == 10) _ _
                  (ap (λ x. x == 10) at_last ∙ plain)))
              (print_bytes-Prints (pre ++ (c ∷ [])) s v))
    ]
      where
        last_index : length (pre ++ (c ∷ [])) - 1 ≡ length pre + 0
        last_index = omega (arith, length-append pre (c ∷ []))

        at_last : get_or (pre ++ (c ∷ [])) (length (pre ++ (c ∷ [])) - 1) 0 ≡ c
        at_last = ap (λ i. get_or (pre ++ (c ∷ [])) i 0) last_index ∙ get_or-behind pre (c ∷ []) 0

        before : take (length (pre ++ (c ∷ [])) - 1) (pre ++ (c ∷ [])) ≡ pre
        before =
            ap (λ i. take i (pre ++ (c ∷ []))) last_index
            ∙ take-behind pre (c ∷ []) 0
            ∙ append-nil pre

    -- A line end in the middle: what follows is printed by `after`.
    line-Prints :
        (pre post : List ℕ) (c d : ℕ) (s : Interface)
        (after : List ℕ → Interface → Printing Interface)
        → IsPlain pre
        → (c == 10) ≡ true
        → IsOutput w s
        → ((s1 : Interface) → IsOutput w s1 → Prints w (crlf (d ∷ post)) s1 (after (d ∷ post) s1))
        → Prints w (crlf (pre ++ (c ∷ d ∷ post))) s (
            then_print
              (print_bytes w initialised daemon
                (take (length pre + 2) (with_line_end (pre ++ (c ∷ d ∷ post)) (length pre)))
                s)
              (after (
                drop (length pre + 1) (
                  restored
                    (pre ++ (c ∷ d ∷ post))
                    (length pre)
                    (get_or (pre ++ (c ∷ d ∷ post)) (length pre + 1) 0)))))
    line-Prints pre post c d s after p ends v more =
        subst (λ l. Prints w l s (then_print first (after rest)))
          (sym (crlf-line pre post c d p ends))
          (then_print-Prints (pre ++ (13 ∷ 10 ∷ [])) (crlf (d ∷ post)) s first (after rest)
            (subst (λ l. Prints w (pre ++ (13 ∷ 10 ∷ [])) s (print_bytes w initialised daemon l s))
              (sym (line_end-taken pre post c d)) (print_bytes-Prints (pre ++ (13 ∷ 10 ∷ [])) s v))
            (λ s1 v1.
              subst (λ l. Prints w (crlf (d ∷ post)) s1 (after l s1))
                (sym (line_end-dropped pre post c d)) (more s1 v1)))
      where
        first : Printing Interface
        first =
            print_bytes w initialised daemon
              (take (length pre + 2) (with_line_end (pre ++ (c ∷ d ∷ post)) (length pre))) s

        rest : List ℕ
        rest = drop (length pre + 1) (
            restored (pre ++ (c ∷ d ∷ post)) (length pre)
              (get_or (pre ++ (c ∷ d ∷ post)) (length pre + 1) 0))

    print_lines-Prints :
        (fuel : ℕ) (pre : List ℕ) (c : ℕ) (post : List ℕ) (s : Interface)
        → IsPlain pre
        → suc (length post) ≤ fuel
        → IsOutput w s
        → Prints w
            (crlf (pre ++ (c ∷ post)))
            s
            (print_lines w initialised daemon fuel (pre ++ (c ∷ post)) (length pre) s)
    unfolding print_lines crlf
    print_lines-Prints zero pre c post s p enough v = absurd (omega arith)
    print_lines-Prints (suc fuel) pre c [] s p enough v =
        subst (Prints w (crlf (pre ++ (c ∷ []))) s)
          (sym (
            if-false (ltb (length pre + 1) (length (pre ++ (c ∷ [])))) _ _
              (ground (arith, length-append pre (c ∷ [])))))
          (print_rest-Prints pre c s p v)
    print_lines-Prints (suc fuel) pre c (d ∷ post) s p enough v =
        subst (Prints w (crlf (pre ++ (c ∷ d ∷ post))) s)
          (sym (
            if-true (ltb (length pre + 1) (length (pre ++ (c ∷ d ∷ post)))) _ _
              (ground (arith, length-append pre (c ∷ d ∷ post)))))
          (elim (Bool-cases (c == 10)) [
            | inl ends ↦
                subst (Prints w (crlf (pre ++ (c ∷ d ∷ post))) s)
                  (sym (
                    if-true (get_or (pre ++ (c ∷ d ∷ post)) (length pre) 0 == 10) _ _
                      (ap (λ x. x == 10) here ∙ ends)))
                  (line-Prints pre post c d s (λ l s1. print_lines w initialised daemon fuel l 0 s1)
                    p ends v (λ s1 v1. print_lines-Prints fuel [] d post s1 tt (omega arith) v1))
            | inr plain ↦
                subst (Prints w (crlf (pre ++ (c ∷ d ∷ post))) s)
                  (sym (
                    if-false (get_or (pre ++ (c ∷ d ∷ post)) (length pre) 0 == 10) _ _
                      (ap (λ x. x == 10) here ∙ plain)))
                  (subst
                    (λ l.
                      Prints w (crlf l) s
                        (print_lines w initialised daemon fuel l (length pre + 1) s))
                    (append_assoc pre (c ∷ []) (d ∷ post))
                    (subst
                      (λ i. Prints w (crlf ((pre ++ (c ∷ [])) ++ (d ∷ post))) s (
                        print_lines w initialised daemon fuel ((pre ++ (c ∷ [])) ++ (d ∷ post)) i
                          s))
                      (omega (arith, length-append pre (c ∷ [])))
                      (print_lines-Prints fuel (pre ++ (c ∷ [])) d post s
                        (IsPlain-append pre c p plain) (omega arith) v)))
          ])
      where
        here : get_or (pre ++ (c ∷ d ∷ post)) (length pre) 0 ≡ c
        here =
            ap (λ i. get_or (pre ++ (c ∷ d ∷ post)) i 0) (at_end pre)
            ∙ get_or-behind pre (c ∷ d ∷ post) 0

-- Where the ring of output is in order, the console is not dying and does not stop for its check,
-- and the daemon takes bytes off the front of the ring and leaves room each time, `console_print`
-- of some bytes ends, and the bytes that the daemon has taken by then, followed by those still in
-- the ring, are what they were before, followed by the given bytes with each line end made into a
-- carriage return and a line end.
pub console_print-crlf :
    (win w : Wire) (daemon : Interface → Interface) (b : ℕ) (bytes : List ℕ) (c : Console)
    → Drains w daemon
    → IsOutput w c.rings
    → c.console_dying ≡ false
    → stops win (length (b ∷ bytes)) c ≡ false
    → (s' : Interface) × (console_print win w daemon (b ∷ bytes) c ≡ some (printed s'))
      × (passed w s' ≡ passed w c.rings ++ crlf (b ∷ bytes))
unfolding console_print
console_print-crlf win w daemon b bytes c drains v alive sound =
    found (print_lines w c.console_initialised daemon (length (b ∷ bytes)) (b ∷ bytes) 0 c.rings)
      (if-false c.console_dying _ _ alive ∙ if-false (stops win (length (b ∷ bytes)) c) _ _ sound)
      (print_lines-Prints w c.console_initialised daemon drains (length (b ∷ bytes)) [] b bytes
        c.rings tt (omega arith) v)
  where
    found :
        (result : Printing Interface)
        → console_print win w daemon (b ∷ bytes) c ≡ some result
        → Prints w (crlf (b ∷ bytes)) c.rings result
        → (s' : Interface) × (console_print win w daemon (b ∷ bytes) c ≡ some (printed s'))
          × (passed w s' ≡ passed w c.rings ++ crlf (b ∷ bytes))
    found crashed e h = absurd h
    found endless e h = absurd h
    found (printed s') e (v', q) = (s', e, q)
