-- ===== src/Tree/Plain/Finds.antt =====
-- The search of cli-tree.c by plain words: it follows the path that the parser made.
use mathlib.Core.Path.{subst}
use mathlib.Core.Option.{some-injective}
use chaconne.Prelude.{
  ℕ, zero, suc, ◌≤◌, ◌<◌, ◌≡◌, refl, sym, ap, ◌∙◌, true, false, List, [], ◌∷◌, ◌++◌, none, some,
  arith, ltb, same_key_refl, same_key-eq, length, Bool-cases, Option-cases, inl, inr,
}
use chaconne.Tree.{TokenType, literal, option, variable, vararg, Token, Node, Tree, node, same_key}
use chaconne.Tree.Search.{
  match_type, match_word, Best, best_token, best_node, find_best_node, keyword_loop, left,
  take_args, is_literal, Found, Searched, reached, search, cmd_search,
}
use chaconne.Tree.Parser.{find_one, has_key, token_type}
use chaconne.Tree.Parser.Nodes.{IsTree, Links, Typed}
use chaconne.Tree.Parser.State.{find_one-lt}
use chaconne.Tree.Plain.{walk, NoKeywords}

match_word-le : (t : Token) (w : List ℕ) → match_word t w ≤ 3
unfolding match_word
match_word-le t w = by_type t.type
  where
    by_type : (y : TokenType) → match_type y t.key w ≤ 3
    by_type literal = unfold match_type in ground arith
    by_type option = unfold match_type in omega arith
    by_type variable = unfold match_type in omega arith
    by_type vararg = unfold match_type in omega arith

-- A token with another key matches no better than a vararg.
other_key : (t : Token) (w : List ℕ) → same_key w t.key ≡ false → match_word t w ≤ 2
unfolding match_word
other_key t w h = by_type t.type
  where
    differs : same_key t.key w ≡ false
    differs = elim (Bool-cases (same_key t.key w)) [
      | inl same ↦
          let e = same_key-eq t.key w same in
          cc (sym (subst (λ k. same_key w k ≡ true) (sym e) (same_key_refl w)) ∙ h)
      | inr other ↦ other
    ]

    by_type : (y : TokenType) → match_type y t.key w ≤ 2
    by_type literal = unfold match_type in rw differs (omega arith)
    by_type option = unfold match_type in omega arith
    by_type variable = unfold match_type in omega arith
    by_type vararg = unfold match_type in omega arith

module _ (w : List ℕ) (plain : token_type w ≡ literal) where
  same_key-exact :
      (t : Token)
      → t.type ≡ token_type t.key
      → same_key w t.key ≡ true
      → (match_word t w ≡ 3) × (t.type ≡ literal)
  unfolding match_word match_type
  same_key-exact t typed h =
      let e = same_key-eq w t.key h in
      let lit : t.type ≡ literal = typed ∙ ap token_type (sym e) ∙ plain in
      (rw (match_word, lit, match_type, subst (λ k. same_key k w ≡ true) e (same_key_refl w)), lit)

  best_token-exact :
      (id : ℕ) (ts : List Token) (best : Best) → best.rank ≡ 3 → best_token id ts w best ≡ best
  unfolding best_token
  best_token-exact id [] best h = refl
  best_token-exact id (t ∷ ts) best h =
      let no_better : ltb best.rank (match_word t w) ≡ false =
        ground (arith, h, match_word-le t w) in
      rw (best_token, no_better) (best_token-exact id ts best h)

  best_node-exact :
      (tree : Tree) (ids : List ℕ) (best : Best) → best.rank ≡ 3 → best_node tree ids w best ≡ best
  unfolding best_node
  best_node-exact tree [] best h = refl
  best_node-exact tree (id ∷ ids) best h =
      rw (best_token-exact id (node tree id).tokens best h) (best_node-exact tree ids best h)

  best_token-absent :
      (id : ℕ) (ts : List Token) (best : Best)
      → has_key ts w ≡ false
      → best.rank ≤ 2
      → (best_token id ts w best).rank ≤ 2
  unfolding best_token has_key
  best_token-absent id [] best h le = le
  best_token-absent id (t ∷ ts) best h le =
      let other : same_key w t.key ≡ false = ground (arith, h) in
      let rest : has_key ts w ≡ false = ground (arith, h) in
      elim (Bool-cases (ltb best.rank (match_word t w))) [
        | inl better ↦
            rw (best_token, better)
              (best_token-absent id ts (record { rank = match_word t w; target = some (id, t) })
                rest (other_key t w other))
        | inr worse ↦ rw (best_token, worse) (best_token-absent id ts best rest le)
      ]

  -- The best so far is the literal token of this node.
  abbrev Exact : ℕ → Best → Type 0
  Exact id best =
      (t : Token) × (t.type ≡ literal) × (best ≡ record { rank = 3; target = some (id, t) })

  best_token-present :
      (id : ℕ) (ts : List Token) (best : Best)
      → Typed ts
      → has_key ts w ≡ true
      → best.rank ≤ 2
      → Exact id (best_token id ts w best)
  unfolding best_token has_key
  best_token-present id [] best typed h le = cc
  best_token-present id (t ∷ ts) best typed h le = elim (Bool-cases (same_key w t.key)) [
    | inl same ↦
        let k = same_key-exact t typed.0 same in
        let better : ltb best.rank (match_word t w) ≡ true = ground (arith, k.0, le) in
        let mine : Best = record { rank = match_word t w; target = some (id, t) } in
        rw (best_token, better, best_token-exact id ts mine k.0)
          (t, k.1, ap (λ r. record { rank = r; target = some (id, t) }) k.0)
    | inr other ↦
        let rest : has_key ts w ≡ true = ground (arith, h, other) in
        elim (Bool-cases (ltb best.rank (match_word t w))) [
          | inl better ↦
              rw (best_token, better)
                (best_token-present id ts (record { rank = match_word t w; target = some (id, t) })
                  typed.1 rest (other_key t w other))
          | inr worse ↦ rw (best_token, worse) (best_token-present id ts best typed.1 rest le)
        ]
  ]

  best_node-present :
      (tree : Tree) (i : ℕ) (ids : List ℕ) (id : ℕ) (best : Best)
      → IsTree tree
      → Links i (length tree) ids
      → find_one tree ids w ≡ some id
      → best.rank ≤ 2
      → Exact id (best_node tree ids w best)
  unfolding best_node find_one
  best_node-present tree i [] id best t l e le = cc
  best_node-present tree i (a ∷ ids) id best t l e le =
      elim (Bool-cases (has_key (node tree a).tokens w)) [
        | inl here ↦
            let same : a ≡ id = some-injective a id (rw (find_one, here) at e) in
            let (tok, lit, e') =
              best_token-present a (node tree a).tokens best ((t.nodes a l.1).typed) here le in
            rw (e', best_node-exact tree ids (record { rank = 3; target = some (a, tok) }) refl)
              (tok, lit, ap (λ x. record { rank = 3; target = some (x, tok) }) same)
        | inr there ↦
            best_node-present tree i ids id (best_token a (node tree a).tokens w best) t l.2
              (rw (find_one, there) at e) (best_token-absent a (node tree a).tokens best there le)
      ]

  -- The first node that has the word is the best.
  find_best_node-find_one :
      (tree : Tree) (i : ℕ) (id : ℕ)
      → IsTree tree
      → i < length tree
      → find_one tree (node tree i).children w ≡ some id
      → (t : Token) × (t.type ≡ literal)
        × (find_best_node tree (node tree i).children w ≡ some (id, t))
  unfolding find_best_node
  find_best_node-find_one tree i id t h e =
      let (tok, lit, e') =
        best_node-present tree i (node tree i).children id (record { rank = 0; target = none }) t
          (t.nodes i h).children e (omega arith) in
      (tok, lit, ap (λ b. b.target) e')

-- The words are literals of the syntax.
abbrev pub Literals : List (List ℕ) → Type 0
Literals [] = Unit
Literals (w ∷ ws) = (token_type w ≡ literal) × Literals ws

take_args-literal :
    (target : Node) (t : Token) (w : List ℕ) (words : List (List ℕ))
    → t.type ≡ literal
    → (take_args target t w words).1 ≡ words
unfolding take_args is_literal
take_args-literal target t w words lit = elim (Bool-cases (ltb 1 (length target.tokens))) [
  | inl several ↦ rw (take_args, several)
  | inr one ↦ rw (take_args, one, lit)
]

NoKeywords-left :
    (tree : Tree) (i : ℕ) (words : List (List ℕ)) (pairs : List (List ℕ × List ℕ))
    → NoKeywords tree
    → keyword_loop tree i words pairs ≡ left words pairs
unfolding keyword_loop find_best_node best_node
NoKeywords-left tree i [] pairs bare = refl
NoKeywords-left tree i (w ∷ []) pairs bare = rw (keyword_loop, bare i) refl
NoKeywords-left tree i (w ∷ v ∷ words) pairs bare = rw (keyword_loop, bare i) refl

-- The search ends at this node, with these pairs.
abbrev FoundAt : ℕ → List (List ℕ × List ℕ) → Searched → Type 0
FoundAt j pairs r =
    (found : Found) × (r ≡ reached found) × (found.target ≡ j) × (found.pairs ≡ pairs)

search-walk :
    (n : ℕ) (tree : Tree) (i j : ℕ) (w : List ℕ) (words args : List (List ℕ))
    (pairs : List (List ℕ × List ℕ))
    → IsTree tree
    → NoKeywords tree
    → Literals (w ∷ words)
    → i < length tree
    → length words < n
    → walk tree i (w ∷ words) ≡ some j
    → FoundAt j pairs (search n tree (node tree i).children (w ∷ words) args pairs)
unfolding search walk
search-walk zero tree i j w words args pairs t bare lits h fuel e = absurd (omega arith)
search-walk (suc n) tree i j w [] args pairs t bare lits h fuel e =
    elim (Option-cases (find_one tree (node tree i).children w)) [
      | inl absent ↦ cc (rw (walk, absent) at e)
      | inr (id, e') ↦
          let (tok, lit, best) = find_best_node-find_one w lits.0 tree i id t h e' in
          let same : id ≡ j = some-injective id j (rw (walk, e') at e) in
          let taken = (take_args (node tree id) tok w []).0 in
          rw (search, best, take_args-literal (node tree id) tok w [] lit)
            (record { target = id; args = args ++ taken; pairs = pairs }, refl, same, refl)
    ]
search-walk (suc n) tree i j w (v ∷ words) args pairs t bare lits h fuel e =
    elim (Option-cases (find_one tree (node tree i).children w)) [
      | inl absent ↦ cc (rw (walk, absent) at e)
      | inr (id, e') ↦
          let (tok, lit, best) = find_best_node-find_one w lits.0 tree i id t h e' in
          let taken = (take_args (node tree id) tok w (v ∷ words)).0 in
          rw
            (
              search,
              best,
              take_args-literal (node tree id) tok w (v ∷ words) lit,
              NoKeywords-left tree id (v ∷ words) pairs bare,
            )
            (search-walk n tree id j v words (args ++ taken) pairs t bare lits.1
              (find_one-lt tree i (length tree) (node tree i).children w id (t.nodes i h).children
                e')
              (omega arith) (rw (walk, e') at e))
    ]

-- In a tree in order without keywords, `cmd_search` by literal words ends at the node that the
-- parser's own search by these words leads to, and sets no pair.
pub cmd_search-walk :
    (tree : Tree) (j : ℕ) (w : List ℕ) (words : List (List ℕ))
    → IsTree tree
    → NoKeywords tree
    → Literals (w ∷ words)
    → walk tree 0 (w ∷ words) ≡ some j
    → FoundAt j [] (cmd_search tree (node tree 0).children (w ∷ words))
unfolding cmd_search
cmd_search-walk tree j w words t bare lits e =
    search-walk (length (w ∷ words)) tree 0 j w words [] [] t bare lits t.rooted (omega arith) e
