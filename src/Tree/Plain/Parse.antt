-- ===== src/Tree/Plain/Parse.antt =====
-- `cmd_add_elem` of cli-tree.c on a plain line: words between blanks, with no parentheses or braces.
use chaconne.Prelude.{
  ℕ, ◌≤◌, ◌<◌, ◌≡◌, ◌⊎◌, refl, ◌∙◌, true, false, List, [], ◌∷◌, ◌++◌, none, some, arith, ◌==◌,
  same_key_refl, length, Bool-cases, Option-cases, inl, inr,
}
use chaconne.Tree.{Token, TokenType, literal, option, variable, vararg, Tree, node}
use chaconne.Tree.Parser.{
  Parser, Elem, Added, added, cmd_node_insert, find_one, has_key, assign, token_type, read_token,
  parser_end,
}
use chaconne.Tree.Parser.Nodes.{
  IsTree, node-cmd_node_insert, length-cmd_node_insert, node-assign, length-assign,
  cmd_node_insert-IsTree, assign-IsTree,
}
use chaconne.Tree.Parser.State.{find_one-lt, find_one-gt}
use chaconne.Tree.Plain.{
  walk, NoKeywords, find_one-absent, walk-Extends, walk-append, Extends-cmd_node_insert,
  Extends-assign,
}

-- The parser behind the words `done`, at the node that they lead to.
pub record Along (tree : Tree) (p : ℕ) (done : List (List ℕ)) : Type 0 where
  pub tree_ok : IsTree tree
  pub inside : p < length tree
  pub path : walk tree 0 done ≡ some p
  pub bare : NoKeywords tree
  pub moved : (done ≡ []) ⊎ (0 < p)

insert-NoKeywords :
    (t : Tree) (p : ℕ) (ts : List Token)
    → p < length t
    → NoKeywords t
    → NoKeywords (cmd_node_insert t p ts false)
insert-NoKeywords t p ts h k i =
    rw (node-cmd_node_insert t p ts false i h) (elim (Bool-cases (i == length t)) [
      | inl last ↦ rw last refl
      | inr before ↦ elim (Bool-cases (i == p)) [
        | inl here ↦ rw (before, here) (k p)
        | inr there ↦ rw (before, there) (k i)
      ]
    ])

assign-NoKeywords :
    (elem : Elem) (p : ℕ) (t : Tree) → p < length t → NoKeywords t → NoKeywords (assign elem p t)
assign-NoKeywords elem p t h k i =
    rw (node-assign elem p t i h)
      (elim (Bool-cases (i == p)) [ inl here ↦ rw here (k p) | inr there ↦ rw there (k i) ])

insert_Along :
    (tree : Tree) (p : ℕ) (t : Token) (done : List (List ℕ))
    → t.type ≡ token_type t.key
    → Along tree p done
    → find_one tree (node tree p).children t.key ≡ none
    → Along (cmd_node_insert tree p (t ∷ []) false) (length tree) (done ++ t.key ∷ [])
unfolding find_one has_key
insert_Along tree p t done typed a absent =
    let u = cmd_node_insert tree p (t ∷ []) false in
    let n = length tree in
    let ids = (node tree p).children in
    let x = Extends-cmd_node_insert tree p (t ∷ []) a.inside in
    let not_last : (p == n) ≡ false = ground (arith, a.inside) in
    let same : (p == p) ≡ true = ground arith in
    let chain : (node u p).children ≡ ids ++ n ∷ [] =
      rw (node-cmd_node_insert tree p (t ∷ []) false p a.inside, not_last, same) in
    let itself : (n == n) ≡ true = ground arith in
    let its_tokens : (node u n).tokens ≡ t ∷ [] =
      rw (node-cmd_node_insert tree p (t ∷ []) false n a.inside, itself) in
    record {
      tree_ok =
          cmd_node_insert-IsTree tree p (t ∷ []) false a.tree_ok a.inside (typed, tt) (omega arith);
      inside = omega (arith, length-cmd_node_insert tree p (t ∷ []) false);
      path =
          walk-append u 0 p done t.key
            (walk-Extends tree u 0 p done a.tree_ok x a.tree_ok.rooted a.path)
          ∙ rw chain (
              find_one-absent tree u p n ids (n ∷ []) t.key x (omega arith)
                (a.tree_ok.nodes p a.inside).children absent
              ∙ found u n t.key t its_tokens refl);
      bare = insert-NoKeywords tree p (t ∷ []) a.inside a.bare;
      moved = inr (omega (arith, a.inside));
    }
  where
    found :
        (u : Tree) (n : ℕ) (key : List ℕ) (t : Token)
        → (node u n).tokens ≡ t ∷ []
        → key ≡ t.key
        → find_one u (n ∷ []) key ≡ some n
    found u n key t e k = rw (find_one, e, has_key, k, same_key_refl t.key)

-- One word read outside parentheses and braces.
pub read_token-Along :
    (q : Parser) (t : Token) (done : List (List ℕ))
    → q.in_keyword ≡ 0
    → t.type ≡ token_type t.key
    → Along q.tree q.parent done
    → Along (read_token q t).tree (read_token q t).parent (done ++ t.key ∷ [])
      × ((read_token q t).in_keyword ≡ 0)
unfolding read_token
read_token-Along q t done out typed a =
    let ids = (node q.tree q.parent).children in
    let links = (a.tree_ok.nodes q.parent a.inside).children in
    elim (Option-cases (find_one q.tree ids t.key)) [
      | inr (id, e) ↦
          rw (read_token, e)
            (
              record {
                tree_ok = a.tree_ok;
                inside = find_one-lt q.tree q.parent (length q.tree) ids t.key id links e;
                path = walk-append q.tree 0 q.parent done t.key a.path ∙ e;
                bare = a.bare;
                moved = inr (
                    omega
                      (arith, find_one-gt q.tree q.parent (length q.tree) ids t.key id links e));
              },
              out,
            )
      | inl e ↦ rw (read_token, e, out) (insert_Along q.tree q.parent t done typed a e, refl)
    ]

-- What a plain line leaves: a tree in order without keywords, where its words lead to a node that has
-- the function and the attributes of the element.
pub record Placed (elem : Elem) (words : List (List ℕ)) (tree : Tree) : Type 0 where
  pub tree_ok : IsTree tree
  pub bare : NoKeywords tree
  pub end : ℕ
  pub path : walk tree 0 words ≡ some end
  pub func : (node tree end).func ≡ elem.func
  pub optattr : (node tree end).optattr ≡ elem.optattr
  pub within : end < length tree

assign-func :
    (elem : Elem) (p : ℕ) (t : Tree) → p < length t → (node (assign elem p t) p).func ≡ elem.func
assign-func elem p t h =
    let same : (p == p) ≡ true = ground arith in rw (node-assign elem p t p h, same)

assign-optattr :
    (elem : Elem) (p : ℕ) (t : Tree)
    → p < length t
    → (node (assign elem p t) p).optattr ≡ elem.optattr
assign-optattr elem p t h =
    let same : (p == p) ≡ true = ground arith in rw (node-assign elem p t p h, same)

assign-keeps :
    (elem : Elem) (i p : ℕ) (t : Tree)
    → i < length t
    → (node t p).func ≡ elem.func
    → (node (assign elem i t) p).func ≡ elem.func
assign-keeps elem i p t h e =
    rw (node-assign elem i t p h)
      (elim (Bool-cases (p == i)) [ inl here ↦ rw here refl | inr there ↦ rw there e ])

assign-keeps_optattr :
    (elem : Elem) (i p : ℕ) (t : Tree)
    → i < length t
    → (node t p).optattr ≡ elem.optattr
    → (node (assign elem i t) p).optattr ≡ elem.optattr
assign-keeps_optattr elem i p t h e =
    rw (node-assign elem i t p h)
      (elim (Bool-cases (p == i)) [ inl here ↦ rw here refl | inr there ↦ rw there e ])

assign-Placed :
    (elem : Elem) (words : List (List ℕ)) (tree : Tree) (i : ℕ) (k : Placed elem words tree)
    → i < length tree
    → Placed elem words (assign elem i tree)
assign-Placed elem words tree i k h = record {
  tree_ok = assign-IsTree elem i tree k.tree_ok h;
  bare = assign-NoKeywords elem i tree h k.bare;
  end = k.end;
  path =
      walk-Extends tree (assign elem i tree) 0 k.end words k.tree_ok (Extends-assign elem i tree h)
        k.tree_ok.rooted k.path;
  func = assign-keeps elem i k.end tree h k.func;
  optattr = assign-keeps_optattr elem i k.end tree h k.optattr;
  within = omega (arith, length-assign elem i tree, k.within);
}

-- An element added with these words.
abbrev pub AddsAs : Elem → List (List ℕ) → Added → Type 0
AddsAs elem words r = (tree : Tree) × (r ≡ added tree) × Placed elem words tree

pub parser_end-AddsAs :
    (elem : Elem) (q : Parser) (done : List (List ℕ))
    → q.in_multiple ≡ false
    → q.in_keyword ≡ 0
    → 0 < q.parent
    → Along q.tree q.parent done
    → AddsAs elem done (parser_end elem q)
unfolding parser_end
parser_end-AddsAs elem q done single out pos a =
    rw (parser_end, single, out) (ends (node q.tree q.parent).tokens named)
  where
    named : 1 ≤ length (node q.tree q.parent).tokens
    named = elim ((a.tree_ok.nodes q.parent a.inside).named) [
      | inl root ↦ absurd (omega (arith, root))
      | inr h ↦ h
    ]

    own : Tree
    own = assign elem q.parent q.tree

    placed : Placed elem done own
    placed = record {
      tree_ok = assign-IsTree elem q.parent q.tree a.tree_ok a.inside;
      bare = assign-NoKeywords elem q.parent q.tree a.inside a.bare;
      end = q.parent;
      path =
          walk-Extends q.tree own 0 q.parent done a.tree_ok
            (Extends-assign elem q.parent q.tree a.inside) a.tree_ok.rooted a.path;
      func = assign-func elem q.parent q.tree a.inside;
      optattr = assign-optattr elem q.parent q.tree a.inside;
      within = omega (arith, length-assign elem q.parent q.tree, a.inside);
    }

    above : (node q.tree q.parent).parent < length own
    above =
        omega
          (arith, (a.tree_ok.nodes q.parent a.inside).parent, length-assign elem q.parent q.tree)

    by_type :
        (y : TokenType)
        → AddsAs elem done (elim y [
          | vararg ↦ added (assign elem (node q.tree q.parent).parent own)
          | _ ↦ added own
        ])
    by_type literal = (own, refl, placed)
    by_type option = (own, refl, placed)
    by_type variable = (own, refl, placed)
    by_type vararg = (
      assign elem (node q.tree q.parent).parent own,
      refl,
      assign-Placed elem done own (node q.tree q.parent).parent placed above,
    )

    ends :
        (ts : List Token)
        → 1 ≤ length ts
        → AddsAs elem done (elim ts as (λ x. Added) [
          | [] ↦ Added.fault q.tree q.parent
          | t ∷ ts' ↦ elim t.type [
            | vararg ↦ added (assign elem (node q.tree q.parent).parent own)
            | _ ↦ added own
          ]
        ])
    ends [] h = absurd (omega arith)
    ends (t ∷ ts') h = by_type t.type
