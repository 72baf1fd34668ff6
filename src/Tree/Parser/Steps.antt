-- ===== src/Tree/Parser/Steps.antt =====
-- The parser of cli-tree.c step by step: each step uses up input and keeps the tree in order.
use mathlib.Core.Option.{some-injective}
use chaconne.Prelude.{
  List-cases, ℕ, ◌+◌, ◌≤◌, ◌<◌, ◌≡◌, refl, sym, ap, ◌∙◌, Bool, true, false, not, ◌||◌, List, [],
  ◌∷◌, ◌++◌, Option, some, arith, ◌==◌, if◌then◌else◌, length, length-drop, drop, Bool-cases,
  Option-cases, inl, inr,
}
use chaconne.Tree.{Token, node}
use chaconne.Tree.Lines.{split, next_help}
use chaconne.Tree.Parser.{
  Parser, token_type, find_one, cmd_node_find, word_byte, read_token, parser_read_word,
  parser_begin_multiple, parser_end_multiple, parser_begin_keyword, parser_end_keyword,
  parser_handle_pipe, parse_byte,
}
use chaconne.Tree.Parser.Nodes.{cmd_node_insert-IsTree, length-cmd_node_insert}
use chaconne.Tree.Parser.State.{
  weight, IsState, Ensures, if-Ensures, Typed-snoc, find_one-lt, cmd_node_find-lt, split-length,
}

module _ (p : Parser) (s : IsState p.tree p.parent p.save_parent p.collected)
    (byte : 1 ≤ length p.cp) where
  advance : length (drop 1 p.cp) + length p.desc < weight p
  advance = omega (arith, length-drop 1 p.cp)

  pub parser_begin_multiple-Ensures : Ensures (weight p) (parser_begin_multiple p)
  unfolding parser_begin_multiple
  parser_begin_multiple-Ensures =
      if-Ensures ((p.in_keyword == 1) || p.in_multiple) (weight p) _ _ (λ h. tt) (λ h. (advance, s))

  pub parser_begin_keyword-Ensures : Ensures (weight p) (parser_begin_keyword p)
  unfolding parser_begin_keyword
  parser_begin_keyword-Ensures =
      if-Ensures (not (p.in_keyword == 0) || p.in_multiple) (weight p) _ _ (λ h. tt)
        (λ h. (
          advance,
          record {
            tree_ok = s.tree_ok;
            parent_in = s.parent_in;
            save_in = s.parent_in;
            typed = s.typed;
          },
        ))

  back : IsState p.tree p.save_parent p.save_parent p.collected
  back = record { tree_ok = s.tree_ok; parent_in = s.save_in; save_in = s.save_in; typed = s.typed }

  pub parser_end_keyword-Ensures : Ensures (weight p) (parser_end_keyword p)
  unfolding parser_end_keyword
  parser_end_keyword-Ensures =
      if-Ensures (p.in_multiple || (p.in_keyword == 0) || (p.in_keyword == 1)) (weight p) _ _
        (λ h. tt) (λ h. (advance, back))

  pub parser_handle_pipe-Ensures : Ensures (weight p) (parser_handle_pipe p)
  unfolding parser_handle_pipe
  parser_handle_pipe-Ensures =
      if-Ensures p.in_multiple (weight p) _ _ (λ h. (advance, s))
        (λ h. if-Ensures (p.in_keyword == 0) (weight p) _ _ (λ h'. tt) (λ h'. (advance, back)))

  pub parser_end_multiple-Ensures : Ensures (weight p) (parser_end_multiple p)
  unfolding parser_end_multiple
  parser_end_multiple-Ensures =
      if-Ensures (not p.in_multiple || (length p.collected == 0)) (weight p) _ _ (λ h. tt)
        (λ h. elim (Option-cases (cmd_node_find p.tree p.parent p.collected)) [
          | inl e ↦ rw e (
            advance,
            record {
              tree_ok =
                  cmd_node_insert-IsTree p.tree p.parent p.collected false s.tree_ok s.parent_in
                    s.typed (ground (arith, h));
              parent_in = omega (arith, length-cmd_node_insert p.tree p.parent p.collected false);
              save_in =
                  omega
                    (arith, length-cmd_node_insert p.tree p.parent p.collected false, s.save_in);
              typed = tt;
            },
          )
          | inr ((id, found), e) ↦ rw e (
              if-Ensures (found == length p.collected) (weight p) _ _
                (λ h'. (
                  advance,
                  record {
                    tree_ok = s.tree_ok;
                    parent_in =
                        cmd_node_find-lt p.tree p.parent p.collected id found s.tree_ok s.parent_in
                          e;
                    save_in = s.save_in;
                    typed = tt;
                  },
                ))
                (λ h'. tt))
        ])

read_token-IsState :
    (p : Parser) (t : Token)
    → IsState p.tree p.parent p.save_parent p.collected
    → t.type ≡ token_type t.key
    → IsState
        (read_token p t).tree
        (read_token p t).parent
        (read_token p t).save_parent
        (read_token p t).collected
unfolding read_token
read_token-IsState p t s e =
    elim (Option-cases (find_one p.tree (node p.tree p.parent).children t.key)) [
      | inl absent ↦
          rw (read_token, absent)
            (record {
              tree_ok =
                  cmd_node_insert-IsTree p.tree p.parent (t ∷ []) (p.in_keyword == 1) s.tree_ok
                    s.parent_in (e, tt) (omega arith);
              parent_in =
                  omega
                    (arith, length-cmd_node_insert p.tree p.parent (t ∷ []) (p.in_keyword == 1));
              save_in = omega (
                arith,
                length-cmd_node_insert p.tree p.parent (t ∷ []) (p.in_keyword == 1),
                s.save_in,
              );
              typed = s.typed;
            })
      | inr (id, found) ↦
          rw (read_token, found)
            (record {
              tree_ok = s.tree_ok;
              parent_in =
                  find_one-lt p.tree p.parent (length p.tree) (node p.tree p.parent).children t.key
                    id (s.tree_ok.nodes p.parent s.parent_in).children found;
              save_in = s.save_in;
              typed = s.typed;
            })
    ]

read_token-weight : (p : Parser) (t : Token) → weight (read_token p t) ≡ weight p
unfolding read_token
read_token-weight p t =
    elim (Option-cases (find_one p.tree (node p.tree p.parent).children t.key)) [
      | inl absent ↦ rw (read_token, absent) refl
      | inr (id, found) ↦ rw (read_token, found) refl
    ]

if-Next :
    (b : Bool) (w : ℕ) (x y : Parser)
    → Ensures w (some x)
    → Ensures w (some y)
    → Ensures w (some (if b then x else y))
if-Next true w x y hx hy = hx
if-Next false w x y hx hy = hy

split-stops :
    (test : ℕ → Bool) (cs : List ℕ) (c : ℕ) (rest : List ℕ)
    → (split test cs).1 ≡ c ∷ rest
    → test c ≡ false
unfolding split
split-stops test [] c rest e = cc
split-stops test (x ∷ cs) c rest e = elim (Bool-cases (test x)) [
  | inl took ↦ split-stops test cs c rest (rw (split, took) at e)
  | inr left_it ↦
      let e' : x ∷ cs ≡ c ∷ rest = rw (split, left_it) at e in
      let same : x ≡ c = cc in sym (ap test same) ∙ left_it
]

some_snd :
    {a b c d : List ℕ} → ◌≡◌ {A = Option (List ℕ × List ℕ)} (some (a, b)) (some (c, d)) → b ≡ d
some_snd {a} {b} {c} {d} h = ap (λ r. r.1) (some-injective (a, b) (c, d) h)

module _ (isspace : ℕ → Bool) (newline : isspace b'\n' ≡ true) where
  next_help-shorter :
      (desc help rest : List ℕ)
      → next_help isspace desc ≡ some (help, rest)
      → length rest < length desc
  unfolding next_help
  next_help-shorter desc help rest e = elim (List-cases (split isspace desc).1) [
    | inl none_left ↦ cc (rw (none_left, next_help) at e)
    | inr (c, cs, e') ↦
        let not_space = split-stops isspace desc c cs e' in
        let e'' = some_snd (rw (e', next_help) at e) in
        let line : (c == b'\n') ≡ false = elim (Bool-cases (c == b'\n')) [
          | inl same ↦ (let eq : c ≡ b'\n' = ground (arith, same) in cc (ap isspace eq))
          | inr differ ↦ differ
        ] in
        let first : length (split (λ b. not (b == b'\n')) (c ∷ cs)).1 ≤ length cs =
          rw (split, line) (omega (arith, split-length (λ b. not (b == b'\n')) cs)) in
        omega (arith, first, ap length e'', split-length isspace desc, ap length e')
  ]

  parser_read_word-Ensures :
      (p : Parser)
      → IsState p.tree p.parent p.save_parent p.collected
      → Ensures (weight p) (parser_read_word isspace p)
  unfolding parser_read_word
  parser_read_word-Ensures p s = elim (Option-cases (next_help isspace p.desc)) [
    | inl no_help ↦ rw (parser_read_word, no_help) tt
    | inr ((help, desc), e) ↦
        let word = (split (word_byte isspace) p.cp).0 in
        let cp = (split (word_byte isspace) p.cp).1 in
        let t : Token = record { key = word; desc = help; type = token_type word } in
        let q : Parser = record p { cp = cp; desc = desc } in
        let less : length cp + length desc < weight p =
          omega
            (arith, split-length (word_byte isspace) p.cp, next_help-shorter p.desc help desc e) in
        rw (parser_read_word, e)
          (if-Next p.in_multiple (weight p) (record q { collected = p.collected ++ t ∷ [] })
            (read_token q t)
            (
              less,
              record {
                tree_ok = s.tree_ok;
                parent_in = s.parent_in;
                save_in = s.save_in;
                typed = Typed-snoc p.collected t s.typed refl;
              },
            )
            (omega (arith, less, read_token-weight q t), read_token-IsState q t s refl))
  ]

  pub parse_byte-Ensures :
      (c : ℕ) (p : Parser)
      → IsState p.tree p.parent p.save_parent p.collected
      → 1 ≤ length p.cp
      → Ensures (weight p) (parse_byte isspace c p)
  unfolding parse_byte
  parse_byte-Ensures c p s byte =
      if-Ensures (c == b'{') (weight p) _ _ (λ h. parser_begin_keyword-Ensures p s byte)
        (λ h.
          if-Ensures (c == b'(') (weight p) _ _ (λ h. parser_begin_multiple-Ensures p s byte)
            (λ h.
              if-Ensures (c == b'}') (weight p) _ _ (λ h. parser_end_keyword-Ensures p s byte)
                (λ h.
                  if-Ensures (c == b')') (weight p) _ _ (λ h. parser_end_multiple-Ensures p s byte)
                    (λ h.
                      if-Ensures (c == b'|') (weight p) _ _
                        (λ h. parser_handle_pipe-Ensures p s byte)
                        (λ h. parser_read_word-Ensures p s)))))
