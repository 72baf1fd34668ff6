-- ===== src/Tree/Complete/Covers.antt =====
-- The words that `line_get_args` of cli-tree.c gives, against the last word of the line.
use mathlib.Core.Path.{subst}
use chaconne.Prelude.{
  ℕ, zero, suc, ◌<◌, ◌≡◌, ◌⊎◌, refl, sym, ap, ◌∙◌, Bool, true, false, List, [], ◌∷◌, ◌++◌, Option,
  none, some, arith, ◌==◌, length, length-append, append-nil, append_assoc, Bool-cases, List-cases,
  inl, inr,
}
use chaconne.Term.Session.Ready.{last_word}
use chaconne.Tree.Lines.{split, in_word, key_at, next_key, words_of}
use chaconne.Tree.Lines.RoundTrip.{Every}
use chaconne.Tree.Complete.{ends_blank, is_pipe, any_pipe}
use chaconne.Tree.Complete.LastWord.{
  Visible, Visible-left, Visible-right, blanks, Covers, Covers-more, Ending, split-Ending,
  split-parts, split-Every, ends_blank-append, blanks-ends_blank, last_word-gap,
}

-- The words of a rest, behind a word.
abbrev with_word : List ℕ → Option (List (List ℕ)) → Option (List (List ℕ))
with_word w o = elim o [ none ↦ none | some words ↦ some (w ∷ words) ]

with_word-some :
    (w : List ℕ) (o : Option (List (List ℕ))) (words : List (List ℕ))
    → with_word w o ≡ some words
    → (us : List (List ℕ)) × (o ≡ some us) × (words ≡ w ∷ us)
with_word-some w none words e = cc
with_word-some w (some us) words e = (us, refl, cc)

any_pipe-behind : (w : List ℕ) (us : List (List ℕ)) → any_pipe us ≡ true → any_pipe (w ∷ us) ≡ true
unfolding any_pipe
any_pipe-behind w us h = ground (arith, h)

-- The first word of a line: behind blanks, with the words of what follows it.
record First (isspace : ℕ → Bool) (m : ℕ) (line : List ℕ) (words : List (List ℕ)) : Type 0 where
  gap : List ℕ
  word : List ℕ
  rest : List ℕ
  more : List (List ℕ)
  laid : line ≡ gap ++ (word ++ rest)
  blank_gap : Every (λ b. b == 32) gap
  ending : Ending rest
  seen : Visible rest
  read : words ≡ word ∷ more
  next : words_of isspace m rest ≡ some more

module _ (isspace : ℕ → Bool) (only_space : (c : ℕ) → 31 < c → isspace c ≡ (c == 32)) where
  -- A line has a blank for every byte and no word, or a bar, or a first word.
  abbrev Parts : ℕ → List ℕ → List (List ℕ) → Type 0
  Parts m line words =
      ((words ≡ []) × Every (λ b. b == 32) line)
      ⊎ ((any_pipe words ≡ true) ⊎ First isspace m line words)

  key-Parts :
      (m : ℕ) (gap body line : List ℕ) (words : List (List ℕ))
      → Every (λ b. b == 32) gap
      → Visible body
      → line ≡ gap ++ body
      → elim (key_at isspace body) [
        | none ↦ some []
        | some (w, rest) ↦ with_word w (words_of isspace m rest)
      ]
        ≡ some words
      → Parts m line words
  unfolding key_at
  key-Parts m gap [] line words b v l e =
      inl (cc, subst (Every (λ c. c == 32)) (sym (l ∙ append-nil gap)) b)
  key-Parts m gap (c ∷ cs) line words b v l e =
      let visible : (c == b'\n') ≡ false = ground (arith, v.0) in
      elim (Bool-cases (c == b'|')) [
        | inl bar ↦
            let (us, _, read) =
              with_word-some (c ∷ cs) (words_of isspace m []) words (rw (visible, bar) at e) in
            inr (inl (ap any_pipe read ∙ bar_first c cs us bar))
        | inr other ↦
            let parts = split (in_word isspace) (c ∷ cs) in
            let (us, next, read) =
              with_word-some parts.0 (words_of isspace m parts.1) words
                (rw (visible, other) at e) in
            let whole = split-parts (in_word isspace) (c ∷ cs) in
            inr (
              inr (record {
                gap = gap;
                word = parts.0;
                rest = parts.1;
                more = us;
                laid = l ∙ ap (λ x. gap ++ x) (sym whole);
                blank_gap = b;
                ending = split-Ending isspace only_space (c ∷ cs) v;
                seen = Visible-right parts.0 parts.1 (subst Visible (sym whole) v);
                read = read;
                next = next;
              }))
      ]
    where
      bar_first :
          (c : ℕ) (cs : List ℕ) (us : List (List ℕ))
          → (c == b'|') ≡ true
          → any_pipe ((c ∷ cs) ∷ us) ≡ true
      bar_first c cs us bar = unfold any_pipe in unfold is_pipe in ground (arith, bar)

  words_of-Parts :
      (m : ℕ) (line : List ℕ) (words : List (List ℕ))
      → Visible line
      → words_of isspace (suc m) line ≡ some words
      → Parts m line words
  unfolding words_of next_key
  words_of-Parts m line words v e =
      let parts = split isspace line in
      let whole = split-parts isspace line in
      let seen = subst Visible (sym whole) v in
      key-Parts m parts.0 parts.1 line words
        (blanks isspace only_space parts.0 (Visible-left parts.0 parts.1 seen)
          (split-Every isspace line))
        (Visible-right parts.0 parts.1 seen) (sym whole) e

  no_words : (m : ℕ) (us : List (List ℕ)) → words_of isspace m [] ≡ some us → us ≡ []
  unfolding words_of next_key key_at split
  no_words zero us e = cc
  no_words (suc m) us e = cc

  bar_words :
      (m : ℕ) (r : List ℕ) (us : List (List ℕ))
      → words_of isspace m (b'|' ∷ r) ≡ some us
      → any_pipe us ≡ true
  unfolding words_of next_key key_at split any_pipe is_pipe
  bar_words zero r us e = cc
  bar_words (suc m) r us e =
      let plain : isspace b'|' ≡ false = only_space b'|' (omega arith) in
      let (vs, _, read) =
        with_word-some (b'|' ∷ r) (words_of isspace m []) us
          (rw (words_of, next_key, split, plain) at e) in
      ap any_pipe read

  blank_words :
      (m : ℕ) (r : List ℕ)
      → Visible r
      → words_of isspace m (32 ∷ r) ≡ some []
      → ends_blank (32 ∷ r) ≡ true
  unfolding words_of any_pipe
  blank_words zero r v e = cc
  blank_words (suc m) r v e = elim (words_of-Parts m (32 ∷ r) [] (omega arith, v) e) [
    | inl (_, all_blank) ↦ blanks-ends_blank 32 r all_blank
    | inr (inl bar) ↦ cc
    | inr (inr f) ↦ cc f.read
  ]

  pub words-Covers :
      (n : ℕ) (line : List ℕ) (words : List (List ℕ))
      → Visible line
      → ends_blank line ≡ false
      → words_of isspace n line ≡ some words
      → any_pipe words ≡ false
      → 0 < length words
      → Covers line words
  unfolding words_of
  words-Covers zero line words v open_end e no_bar some_word = cc
  words-Covers (suc m) line words v open_end e no_bar some_word =
      elim (words_of-Parts m line words v e) [
        | inl (no_word, _) ↦ absurd (omega (arith, ap length no_word, some_word))
        | inr (inl bar) ↦ cc
        | inr (inr f) ↦ elim f.ending [
          | inl at_end ↦
              last f at_end
                (no_words m f.more (subst (λ x. words_of isspace m x ≡ some f.more) at_end f.next))
          | inr (inl (r, blank)) ↦
              blank_behind f r blank (subst (λ x. words_of isspace m x ≡ some f.more) blank f.next)
                (subst Visible blank f.seen)
                (λ open_rest clear_more some_more.
                  words-Covers m (32 ∷ r) f.more (subst Visible blank f.seen) open_rest
                    (subst (λ x. words_of isspace m x ≡ some f.more) blank f.next) clear_more
                    some_more)
                (List-cases f.more)
          | inr (inr (r, bar)) ↦
              let more_bar =
                bar_words m r f.more (subst (λ x. words_of isspace m x ≡ some f.more) bar f.next) in
              cc (ap any_pipe f.read ∙ any_pipe-behind f.word f.more more_bar)
        ]
      ]
    where
      last : (f : First isspace m line words) → f.rest ≡ [] → f.more ≡ [] → Covers line words
      last f at_end no_more = subst (Covers line) (sym (f.read ∙ ap (λ x. f.word ∷ x) no_more)) (
        f.word,
        refl,
        omega (
          arith,
          ap last_word (f.laid ∙ ap (λ x. f.gap ++ (f.word ++ x)) at_end),
          last_word-gap f.gap (f.word ++ []) f.blank_gap,
          length-append f.word [],
        ),
      )

      clear : (f : First isspace m line words) → any_pipe f.more ≡ false
      clear f = elim (Bool-cases (any_pipe f.more)) [
        | inl bar ↦ cc (ap any_pipe f.read ∙ any_pipe-behind f.word f.more bar)
        | inr no_more ↦ no_more
      ]

      blank_behind :
          (f : First isspace m line words) (r : List ℕ)
          → f.rest ≡ 32 ∷ r
          → words_of isspace m (32 ∷ r) ≡ some f.more
          → Visible (32 ∷ r)
          → (ends_blank (32 ∷ r) ≡ false
              → any_pipe f.more ≡ false
              → 0 < length f.more
              → Covers (32 ∷ r) f.more)
          → (f.more ≡ []) ⊎ ((u : List ℕ) × (us : List (List ℕ)) × (f.more ≡ u ∷ us))
          → Covers line words
      blank_behind f r blank next seen again more =
          let whole : line ≡ f.gap ++ (f.word ++ 32 ∷ r) =
            f.laid ∙ ap (λ x. f.gap ++ (f.word ++ x)) blank in
          let still_open : ends_blank (32 ∷ r) ≡ false =
            sym (
              ap ends_blank (whole ∙ sym (append_assoc f.gap f.word (32 ∷ r)))
              ∙ ends_blank-append (f.gap ++ f.word) 32 r)
            ∙ open_end in
          elim more [
            | inl no_more ↦ cc (blank_words m r seen.1 (next ∙ ap some no_more))
            | inr (u, us, e) ↦
                let covers = again still_open (clear f) (omega (arith, ap length e)) in
                subst (λ x. Covers x words) (sym whole)
                  (subst (Covers (f.gap ++ (f.word ++ 32 ∷ r))) (sym f.read)
                    (Covers-more f.gap f.word r f.more covers))
          ]
