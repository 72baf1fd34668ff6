-- ===== src/Tree/Parser/Build.antt =====
-- `cmd_add_elem` and `cmd_tree_build` of cli-tree.c: they end, and the tree stays in order.
use mathlib.Core.Path.{subst}
use chaconne.Prelude.{
  List-cases, ℕ, zero, suc, ◌+◌, ◌≤◌, ◌<◌, ◌≡◌, ◌⊎◌, refl, ap, Bool, true, false, not, ◌||◌, List,
  [], ◌∷◌, ◌++◌, Option, none, some, arith, ◌==◌, length, Bool-cases, Option-cases, inl, inr,
}
use chaconne.Tree.{Token, Tree, node, blank_node, TokenType, literal, option, variable, vararg}
use chaconne.Tree.Lines.{split}
use chaconne.Tree.Parser.{
  Parser, Elem, Added, added, rejected, fault, out_of_rounds, assign, parse_byte, parser_end,
  parse_loop, cmd_add_elem, add_elems, cmd_tree_build,
}
use chaconne.Tree.Parser.Nodes.{blank-IsTree, IsTree, assign-IsTree, length-assign}
use chaconne.Tree.Parser.State.{weight, IsState, Ensures, split-length}
use chaconne.Tree.Parser.Steps.{parse_byte-Ensures}

module _ (isspace : ℕ → Bool) (newline : isspace b'\n' ≡ true) where
  -- An element is added or refused, and the tree is in order; or the parser reads the first token of
  -- a node of a tree in order that has none.
  abbrev pub Adds : Added → Type 0
  Adds (added tree) = IsTree tree
  Adds (rejected tree) = IsTree tree
  Adds (fault tree id) = IsTree tree × (id < length tree) × ((node tree id).tokens ≡ [])
  Adds out_of_rounds = ⊥

  parser_end-Adds :
      (elem : Elem) (p : Parser)
      → IsState p.tree p.parent p.save_parent p.collected
      → Adds (parser_end elem p)
  unfolding parser_end
  parser_end-Adds elem p s = elim (Bool-cases (p.in_multiple || not (p.in_keyword == 0))) [
    | inl inside ↦ rw (parser_end, inside) s.tree_ok
    | inr outside ↦ rw (parser_end, outside) (ends (node p.tree p.parent).tokens refl)
  ]
    where
      own : Tree
      own = assign elem p.parent p.tree

      own_ok : IsTree own
      own_ok = assign-IsTree elem p.parent p.tree s.tree_ok s.parent_in

      above : (node p.tree p.parent).parent < length own
      above =
          omega (
            arith,
            (s.tree_ok.nodes p.parent s.parent_in).parent,
            length-assign elem p.parent p.tree,
          )

      by_type :
          (y : TokenType)
          → Adds (elim y [
            | vararg ↦ added (assign elem (node p.tree p.parent).parent own)
            | _ ↦ added own
          ])
      by_type literal = own_ok
      by_type option = own_ok
      by_type variable = own_ok
      by_type vararg = assign-IsTree elem (node p.tree p.parent).parent own own_ok above

      ends :
          (ts : List Token)
          → (node p.tree p.parent).tokens ≡ ts
          → Adds (elim ts [
            | [] ↦ fault p.tree p.parent
            | t ∷ ts' ↦ elim t.type [
              | vararg ↦ added (assign elem (node p.tree p.parent).parent own)
              | _ ↦ added own
            ]
          ])
      ends [] e = (s.tree_ok, s.parent_in, e)
      ends (t ∷ ts') e = by_type t.type

  parse_loop-Adds :
      (n : ℕ) (elem : Elem) (p : Parser)
      → IsState p.tree p.parent p.save_parent p.collected
      → weight p < n
      → Adds (parse_loop isspace n elem p)
  unfolding parse_loop
  parse_loop-Adds zero elem p s h = absurd (omega arith)
  parse_loop-Adds (suc n) elem p s h = elim (List-cases (split (λ c. c == b' ') p.cp).1) [
    | inl over ↦ rw (parse_loop, over) (parser_end-Adds elem (record p { cp = [] }) s)
    | inr (c, cs, e) ↦
        let q : Parser = record p { cp = c ∷ cs } in
        let less : weight q ≤ weight p =
          omega (arith, split-length (λ b. b == b' ') p.cp, ap length e) in
        let step = parse_byte-Ensures isspace newline c q s (omega arith) in
        elim (Option-cases (parse_byte isspace c q)) [
          | inl refused ↦ rw (parse_loop, e, refused) s.tree_ok
          | inr (next, e') ↦
              let k = subst (Ensures (weight q)) e' step in
              rw (parse_loop, e, e') (parse_loop-Adds n elem next k.1 (omega (arith, k.0, less, h)))
        ]
  ]

  -- With a newline that is blank, from a tree in order: the loop of `cmd_add_elem` ends within its
  -- rounds for every syntax and help text. The element is added or refused, and the tree is in order;
  -- or the syntax is read to its end at a node of a tree in order that has no token, such as the root,
  -- and the code reads the missing first token.
  pub cmd_add_elem-Adds :
      (tree : Tree) (elem : Elem) → IsTree tree → Adds (cmd_add_elem isspace tree elem)
  unfolding cmd_add_elem
  cmd_add_elem-Adds tree elem t =
      parse_loop-Adds (length elem.line + length elem.desc + 1) elem
        (record {
          cp = elem.line;
          desc = elem.desc;
          in_multiple = false;
          in_keyword = 0;
          collected = [];
          parent = 0;
          save_parent = 0;
          tree = tree;
        })
        (record { tree_ok = t; parent_in = t.rooted; save_in = t.rooted; typed = tt }) (omega arith)

  abbrev Built : Option Tree → Type 0
  Built none = Unit
  Built (some tree) = IsTree tree

  Added-cases :
      (r : Added)
      → ((tree : Tree) × (r ≡ added tree))
        ⊎ (((tree : Tree) × (r ≡ rejected tree))
            ⊎ (((tree : Tree) × (id : ℕ) × (r ≡ fault tree id)) ⊎ (r ≡ out_of_rounds)))
  Added-cases (added tree) = inl (tree, refl)
  Added-cases (rejected tree) = inr (inl (tree, refl))
  Added-cases (fault tree id) = inr (inr (inl (tree, id, refl)))
  Added-cases out_of_rounds = inr (inr (inr refl))

  add_elems-Built :
      (tree : Tree) (elems : List Elem) → IsTree tree → Built (add_elems isspace tree elems)
  unfolding add_elems
  add_elems-Built tree [] t = t
  add_elems-Built tree (elem ∷ elems) t =
      let k = cmd_add_elem-Adds tree elem t in
      elim (Added-cases (cmd_add_elem isspace tree elem)) [
        | inl (next, e) ↦ rw (add_elems, e) (add_elems-Built next elems (subst Adds e k))
        | inr (inl (next, e)) ↦ rw (add_elems, e) (add_elems-Built next elems (subst Adds e k))
        | inr (inr (inl (next, id, e))) ↦ rw (add_elems, e) tt
        | inr (inr (inr e)) ↦ absurd (subst Adds e k)
      ]

  -- With a newline that is blank, whatever the elements are: a tree that `cmd_tree_build` returns
  -- is in order.
  pub cmd_tree_build-IsTree :
      (common elems : List Elem) (tree : Tree)
      → cmd_tree_build isspace common elems ≡ some tree
      → IsTree tree
  unfolding cmd_tree_build
  cmd_tree_build-IsTree common elems tree e =
      subst Built e (add_elems-Built (blank_node ∷ []) (common ++ elems) blank-IsTree)
