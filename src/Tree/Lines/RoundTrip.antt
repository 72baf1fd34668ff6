-- ===== src/Tree/Lines/RoundTrip.antt =====
-- `line_get_args` of cli-tree.c against a line laid out from its words.
use mathlib.Core.List.{map}
use chaconne.Prelude.{
  ℕ, zero, suc, ◌+◌, ◌≤◌, ◌<◌, ◌≡◌, refl, ap, Bool, true, false, List, [], ◌∷◌, ◌++◌, none, some,
  arith, ltb, ◌==◌, if◌then◌else◌, length, length-append, Bool-cases, inl, inr,
}
use chaconne.Tree.Lines.{split, in_word, key_at, next_key, words_of, line_get_args}

abbrev pub Every : (ℕ → Bool) → List ℕ → Type 0
Every test [] = Unit
Every test (c ∷ cs) = (test c ≡ true) × Every test cs

-- A list that does not start with a byte that the test takes.
abbrev pub Stops : (ℕ → Bool) → List ℕ → Type 0
Stops test [] = Unit
Stops test (c ∷ cs) = test c ≡ false

pub split-append :
    (test : ℕ → Bool) (cs rest : List ℕ)
    → Every test cs
    → Stops test rest
    → split test (cs ++ rest) ≡ (cs, rest)
unfolding split
split-append test [] [] e s = refl
split-append test [] (c ∷ cs) e s = rw (split, s)
split-append test (c ∷ cs) rest e s = rw (split, e.0, split-append test cs rest e.1 s)

module _ (isspace : ℕ → Bool) where
  -- A word: not empty, and of bytes that are neither blank nor a bar.
  abbrev pub IsWord : List ℕ → Type 0
  IsWord w = (1 ≤ length w) × Every (in_word isspace) w

  -- Words behind blanks; between two words there is a blank.
  abbrev pub Laid : ℕ → List (List ℕ × List ℕ) → Type 0
  Laid least [] = Unit
  Laid least ((gap, w) ∷ ps) = (least ≤ length gap) × Every isspace gap × IsWord w × Laid 1 ps

  -- A line: the words behind their blanks, blanks, and what stands behind them.
  abbrev pub line_of : List (List ℕ × List ℕ) → List ℕ → List ℕ
  line_of [] rest = rest
  line_of ((gap, w) ∷ ps) rest = gap ++ (w ++ line_of ps rest)

  -- A pipe is nothing, or a bar with all that follows.
  abbrev pub IsPipe : List ℕ → Type 0
  IsPipe [] = Unit
  IsPipe (c ∷ cs) = c ≡ b'|'

  abbrev pub pipe_words : List ℕ → List (List ℕ)
  pipe_words [] = []
  pipe_words (c ∷ cs) = (c ∷ cs) ∷ []

  module _ (newline : isspace b'\n' ≡ true) (bar : isspace b'|' ≡ false) where
    blank_stops : (c : ℕ) → isspace c ≡ true → in_word isspace c ≡ false
    unfolding in_word
    blank_stops c h = rw h (ground arith)

    word_not_blank : (c : ℕ) → in_word isspace c ≡ true → isspace c ≡ false
    unfolding in_word
    word_not_blank c h = elim (Bool-cases (isspace c)) [
      | inl yes_blank ↦ cc (blank_stops c yes_blank)
      | inr not_blank ↦ not_blank
    ]

    other_byte : (c k : ℕ) → in_word isspace c ≡ true → in_word isspace k ≡ false → (c == k) ≡ false
    other_byte c k h e = elim (Bool-cases (c == k)) [
      | inl same ↦ (let eq : c ≡ k = ground (arith, same) in cc (ap (in_word isspace) eq))
      | inr differ ↦ differ
    ]

    key_at-word :
        (w rest : List ℕ)
        → IsWord w
        → Stops (in_word isspace) rest
        → key_at isspace (w ++ rest) ≡ some (w, rest)
    unfolding key_at
    key_at-word [] rest h s = absurd (omega (arith, h.0))
    key_at-word (c ∷ cs) rest h s =
        rw
          (
            key_at,
            other_byte c b'\n' h.1.0 (blank_stops b'\n' newline),
            other_byte c b'|' h.1.0 bar_stops,
          )
          (ap some (split-append (in_word isspace) (c ∷ cs) rest h.1 s))
      where
        bar_stops : in_word isspace b'|' ≡ false
        bar_stops = unfold in_word in refl

    word_starts : (w rest : List ℕ) → IsWord w → Stops isspace (w ++ rest)
    word_starts [] rest h = absurd (omega (arith, h.0))
    word_starts (c ∷ cs) rest h = word_not_blank c h.1.0

    -- Behind a word stands a blank, a bar or nothing.
    gap-Stops :
        (gap rest : List ℕ)
        → Every isspace gap
        → Stops (in_word isspace) rest
        → Stops (in_word isspace) (gap ++ rest)
    gap-Stops [] rest e s = s
    gap-Stops (c ∷ gap) rest e s = blank_stops c e.0

    pipe-Stops : (pipe : List ℕ) → IsPipe pipe → Stops (in_word isspace) pipe
    unfolding in_word
    pipe-Stops [] h = tt
    pipe-Stops (c ∷ cs) h = rw h refl

    rest-Stops :
        (ps : List (List ℕ × List ℕ)) (gap pipe : List ℕ)
        → Laid 1 ps
        → Every isspace gap
        → IsPipe pipe
        → Stops (in_word isspace) (line_of ps (gap ++ pipe))
    rest-Stops [] gap pipe l e p = gap-Stops gap pipe e (pipe-Stops pipe p)
    rest-Stops (([], w) ∷ ps) gap pipe l e p = absurd (omega (arith, l.0))
    rest-Stops ((c ∷ g, w) ∷ ps) gap pipe l e p = blank_stops c l.1.0

    pipe_blank-Stops : (pipe : List ℕ) → IsPipe pipe → Stops isspace pipe
    pipe_blank-Stops [] h = tt
    pipe_blank-Stops (c ∷ cs) h = rw h bar

    words_of-line :
        (n least : ℕ) (ps : List (List ℕ × List ℕ)) (gap pipe : List ℕ)
        → Laid least ps
        → Every isspace gap
        → IsPipe pipe
        → length ps + length pipe < n
        → words_of isspace n (line_of ps (gap ++ pipe))
          ≡ some (map (λ p. p.1) ps ++ pipe_words pipe)
    unfolding words_of next_key key_at
    words_of-line zero least ps gap pipe l e p h = absurd (omega arith)
    words_of-line (suc n) least [] gap [] l e p h =
        rw (words_of, next_key, split-append isspace gap [] e tt)
    words_of-line (suc zero) least [] gap (c ∷ cs) l e p h = absurd (omega arith)
    words_of-line (suc (suc n)) least [] gap (c ∷ cs) l e p h =
        rw
          (words_of, next_key, split-append isspace gap (c ∷ cs) e (pipe_blank-Stops (c ∷ cs) p), p)
    words_of-line (suc n) least ((g, w) ∷ ps) gap pipe l e p h = rw (
      words_of,
      next_key,
      split-append isspace g (w ++ line_of ps (gap ++ pipe)) l.1
          (word_starts w (line_of ps (gap ++ pipe)) l.2),
      key_at-word w (line_of ps (gap ++ pipe)) l.2 (rest-Stops ps gap pipe l.3 e p),
      words_of-line n 1 ps gap pipe l.3 e p (omega arith),
    )

    line_of-length :
        (least : ℕ) (ps : List (List ℕ × List ℕ)) (gap pipe : List ℕ)
        → Laid least ps
        → length ps + length pipe ≤ length (line_of ps (gap ++ pipe))
    line_of-length least [] gap pipe l = omega (arith, length-append gap pipe)
    line_of-length least ((g, w) ∷ ps) gap pipe l = omega (
      arith,
      length-append g (w ++ line_of ps (gap ++ pipe)),
      length-append w (line_of ps (gap ++ pipe)),
      line_of-length 1 ps gap pipe l.3,
      l.2.0,
    )

    -- A line laid out from words behind blanks, with blanks and a pipe or nothing at its end: with
    -- enough memory `line_get_args` gives the words, and the pipe as one more, and without, -ENOMEM.
    pub line_get_args-line :
        (memory : ℕ) (ps : List (List ℕ × List ℕ)) (gap pipe : List ℕ)
        → Laid 0 ps
        → Every isspace gap
        → IsPipe pipe
        → 1 ≤ length ps
        → line_get_args isspace memory (line_of ps (gap ++ pipe)) ≡ (
            if ltb memory (length (map (λ p. p.1) ps ++ pipe_words pipe) + 1)
            then none
            else some (map (λ p. p.1) ps ++ pipe_words pipe))
    unfolding line_get_args
    line_get_args-line memory [] gap pipe l e p h = absurd (omega arith)
    line_get_args-line memory ((g, w) ∷ ps) gap pipe l e p h = rw (
      line_get_args,
      words_of-line (length (line_of ((g, w) ∷ ps) (gap ++ pipe)) + 1) 0 ((g, w) ∷ ps) gap pipe l e
          p (omega (arith, line_of-length 0 ((g, w) ∷ ps) gap pipe l)),
    )
