-- ===== src/Tree/Plain/Adds.antt =====
-- The loop of `cmd_add_elem` of cli-tree.c over the words of a plain line.
use mathlib.Core.Path.{subst}
use mathlib.Core.List.{map}
use chaconne.Prelude.{
  ℕ, zero, suc, ◌+◌, ◌≤◌, ◌<◌, ◌≡◌, refl, sym, ap, ◌∙◌, Bool, true, false, List, [], ◌∷◌, ◌++◌,
  Option, some, arith, ◌==◌, length, length-append, append-nil, append_assoc, Bool-cases,
  Option-cases, inl, inr,
}
use chaconne.Tree.{Token, Tree, node}
use chaconne.Tree.Lines.{split, next_help}
use chaconne.Tree.Lines.RoundTrip.{Every, Stops, split-append, line_of}
use chaconne.Tree.Parser.{
  find_one, Parser, Elem, token_type, word_byte, read_token, parser_read_word, parse_byte,
  parse_loop, cmd_add_elem,
}
use chaconne.Tree.Parser.Nodes.{IsTree}
use chaconne.Tree.Plain.{walk, NoKeywords}
use chaconne.Tree.Plain.Parse.{Along, Placed, AddsAs, read_token-Along, parser_end-AddsAs}

module _ (isspace : ℕ → Bool) where
  -- A word that the parser reads as one token.
  abbrev pub IsPlain : List ℕ → Type 0
  IsPlain w = (1 ≤ length w) × Every (word_byte isspace) w

  -- Plain words behind spaces; between two words there is a space.
  abbrev pub PlainLine : ℕ → List (List ℕ × List ℕ) → Type 0
  PlainLine least [] = Unit
  PlainLine least ((gap, w) ∷ ps) =
      (least ≤ length gap) × Every (λ c. c == b' ') gap × IsPlain w × PlainLine 1 ps

  -- A description of at least `n` help lines.
  abbrev pub Helps : ℕ → List ℕ → Type 0
  Helps zero desc = Unit
  Helps (suc n) desc =
      (help : List ℕ) × (rest : List ℕ) × (next_help isspace desc ≡ some (help, rest))
      × Helps n rest

  module _ (space : isspace b' ' ≡ true) where
    space_ends : word_byte isspace b' ' ≡ false
    unfolding word_byte
    space_ends = rw space refl

    blank_ends : (c : ℕ) → (c == b' ') ≡ true → word_byte isspace c ≡ false
    blank_ends c h =
        let e : b' ' ≡ c = ground (arith, h) in
        subst (λ k. word_byte isspace k ≡ false) e space_ends

    not_blank : (c : ℕ) → word_byte isspace c ≡ true → (c == b' ') ≡ false
    not_blank c h = elim (Bool-cases (c == b' ')) [
      | inl blank ↦ cc (blank_ends c blank)
      | inr other ↦ other
    ]

    word_Stops : (w rest : List ℕ) → IsPlain w → Stops (λ c. c == b' ') (w ++ rest)
    word_Stops [] rest h = absurd (omega (arith, h.0))
    word_Stops (c ∷ cs) rest h = not_blank c h.1.0

    line_Stops :
        (ps : List (List ℕ × List ℕ)) (gap : List ℕ)
        → PlainLine 1 ps
        → Every (λ c. c == b' ') gap
        → Stops (word_byte isspace) (line_of isspace ps gap)
    line_Stops [] [] l e = tt
    line_Stops [] (c ∷ gap) l e = blank_ends c e.0
    line_Stops (([], w) ∷ ps) gap l e = absurd (omega (arith, l.0))
    line_Stops ((c ∷ g, w) ∷ ps) gap l e = blank_ends c l.1.0

    byte_reads :
        (c : ℕ) (q : Parser)
        → word_byte isspace c ≡ true
        → parse_byte isspace c q ≡ parser_read_word isspace q
    unfolding parse_byte word_byte
    byte_reads c q h = ground (arith, h)

    -- The parser outside parentheses and braces.
    abbrev plainly : List ℕ → List ℕ → ℕ → ℕ → Tree → Parser
    plainly cp desc p save tree = record {
      cp = cp;
      desc = desc;
      in_multiple = false;
      in_keyword = 0;
      collected = [];
      parent = p;
      save_parent = save;
      tree = tree;
    }

    -- The word read, and the help line.
    read_plain :
        (w rest help desc desc' : List ℕ) (p save : ℕ) (tree : Tree)
        → IsPlain w
        → Stops (word_byte isspace) rest
        → next_help isspace desc ≡ some (help, desc')
        → parser_read_word isspace (plainly (w ++ rest) desc p save tree)
          ≡ some (
              read_token
                (plainly rest desc' p save tree)
                (record { key = w; desc = help; type = token_type w }))
    unfolding parser_read_word
    read_plain w rest help desc desc' p save tree h s e =
        rw (parser_read_word, e, split-append (word_byte isspace) w rest h.1 s) refl

    read_token-plainly :
        (cp desc : List ℕ) (p save : ℕ) (tree : Tree) (t : Token)
        → read_token (plainly cp desc p save tree) t
          ≡ plainly cp desc
              (read_token (plainly cp desc p save tree) t).parent
              save
              (read_token (plainly cp desc p save tree) t).tree
    unfolding read_token
    read_token-plainly cp desc p save tree t =
        elim (Option-cases (find_one tree (node tree p).children t.key)) [
          | inl absent ↦ rw (read_token, absent) refl
          | inr (id, found) ↦ rw (read_token, found) refl
        ]

    parse_loop-AddsAs :
        (n least : ℕ) (elem : Elem) (ps : List (List ℕ × List ℕ)) (gap desc : List ℕ) (p save : ℕ)
        (tree : Tree) (done : List (List ℕ))
        → PlainLine least ps
        → Every (λ c. c == b' ') gap
        → Helps (length ps) desc
        → length ps < n
        → Along tree p done
        → 1 ≤ length done + length ps
        → AddsAs elem
            (done ++ map (λ x. x.1) ps)
            (parse_loop isspace n elem (plainly (line_of isspace ps gap) desc p save tree))
    unfolding parse_loop
    parse_loop-AddsAs zero least elem ps gap desc p save tree done l g helps fuel a named =
        absurd (omega arith)
    parse_loop-AddsAs (suc n) least elem [] gap desc p save tree done l g helps fuel a named =
        let trimmed : split (λ c. c == b' ') gap ≡ (gap, []) =
          ap (split (λ c. c == b' ')) (sym (append-nil gap))
          ∙ split-append (λ c. c == b' ') gap [] g tt in
        let pos : 0 < p = elim a.moved [
          | inl fresh ↦ absurd (omega (arith, ap length fresh))
          | inr h ↦ h
        ] in
        rw (parse_loop, trimmed, append-nil done)
          (parser_end-AddsAs elem (plainly [] desc p save tree) done refl refl pos a)
    parse_loop-AddsAs (suc n) least elem ((g, []) ∷ ps) gap desc p save tree done l g' helps fuel a
          named =
        absurd (omega (arith, l.2.0))
    parse_loop-AddsAs (suc n) least elem ((g, c ∷ cs) ∷ ps) gap desc p save tree done l g' helps
          fuel a named =
        let w = c ∷ cs in
        let rest = line_of isspace ps gap in
        let t : Token = record { key = w; desc = helps.0; type = token_type w } in
        let q = plainly rest helps.1 p save tree in
        let trimmed = split-append (λ b. b == b' ') g (w ++ rest) l.1 (word_Stops w rest l.2) in
        let read =
          byte_reads c (plainly (w ++ rest) desc p save tree) l.2.1.0
          ∙ read_plain w rest helps.0 desc helps.1 p save tree l.2 (line_Stops ps gap l.3 g')
              helps.2
          ∙ ap some (read_token-plainly rest helps.1 p save tree t) in
        let next = read_token-Along q t done refl refl a in
        let (final, e, placed) =
          parse_loop-AddsAs n 1 elem ps gap helps.1 (read_token q t).parent save
            (read_token q t).tree (done ++ w ∷ []) l.3 g' helps.3 (omega arith) next.0
            (omega (arith, length-append done (w ∷ []))) in
        rw (parse_loop, trimmed, read)
          (
            final,
            e,
            subst (λ ws. Placed elem ws final) (append_assoc done (w ∷ []) (map (λ x. x.1) ps))
                placed,
          )

    -- Where a space is blank: a line of plain words with a help line for each is added to every tree in
    -- order without keywords. The new tree is such a tree, and the words lead in it to a node that
    -- has the function of the element.
    pub cmd_add_elem-AddsAs :
        (tree : Tree) (ps : List (List ℕ × List ℕ)) (gap desc : List ℕ) (func optattr : Option ℕ)
        → IsTree tree
        → NoKeywords tree
        → PlainLine 0 ps
        → Every (λ c. c == b' ') gap
        → 1 ≤ length ps
        → Helps (length ps) desc
        → AddsAs
            (record { line = line_of isspace ps gap; desc = desc; func = func; optattr = optattr })
            (map (λ x. x.1) ps)
            (cmd_add_elem isspace tree (record {
              line = line_of isspace ps gap;
              desc = desc;
              func = func;
              optattr = optattr;
            }))
    unfolding cmd_add_elem walk
    cmd_add_elem-AddsAs tree ps gap desc func optattr t bare l g some_word helps =
        parse_loop-AddsAs (length (line_of isspace ps gap) + length desc + 1) 0
          (record { line = line_of isspace ps gap; desc = desc; func = func; optattr = optattr }) ps
          gap desc 0 0 tree [] l g helps (omega (arith, line-length 0 ps l))
          (record { tree_ok = t; inside = t.rooted; path = refl; bare = bare; moved = inl refl })
          (omega (arith, some_word))
      where
        line-length :
            (least : ℕ) (qs : List (List ℕ × List ℕ))
            → PlainLine least qs
            → length qs ≤ length (line_of isspace qs gap)
        line-length least [] k = omega arith
        line-length least ((g', w) ∷ qs) k = omega (
          arith,
          k.2.0,
          line-length 1 qs k.3,
          length-append g' (w ++ line_of isspace qs gap),
          length-append w (line_of isspace qs gap),
        )
