-- ===== src/Tree/Search/Choice.antt =====
-- `find_best_node` of cli-tree.c: the first token that matches best.
use chaconne.Prelude.{
  ℕ, ◌≤◌, ◌<◌, ◌≡◌, ◌⊎◌, refl, sym, ap, ◌∙◌, true, false, List, [], ◌∷◌, ◌++◌, none, some, arith,
  ltb, Bool-cases, inl, inr,
}
use chaconne.Tree.{Token, Tree, node}
use chaconne.Tree.Search.{match_word, Best, best_token, best_node, find_best_node}

-- The tokens of a chain, each with its node, in order.
pub on_node : ℕ → List Token → List (ℕ × Token)
on_node id [] = []
on_node id (t ∷ ts) = (id, t) ∷ on_node id ts

pub tokens_of : Tree → List ℕ → List (ℕ × Token)
tokens_of tree [] = []
tokens_of tree (id ∷ ids) = on_node id (node tree id).tokens ++ tokens_of tree ids

-- How well the candidates match.
abbrev pub AtMost : List ℕ → ℕ → List (ℕ × Token) → Type 0
AtMost word n [] = Unit
AtMost word n ((id, t) ∷ ts) = (match_word t word ≤ n) × AtMost word n ts

abbrev pub Below : List ℕ → ℕ → List (ℕ × Token) → Type 0
Below word n [] = Unit
Below word n ((id, t) ∷ ts) = (match_word t word < n) × Below word n ts

-- The first of the candidates that match best: those before it match worse, and those behind it
-- no better.
pub record IsBest (word : List ℕ) (candidates : List (ℕ × Token)) (id : ℕ) (t : Token)
    : Type 0 where
  pub before : List (ℕ × Token)
  pub after : List (ℕ × Token)
  pub parts : candidates ≡ before ++ (id, t) ∷ after
  pub worse : Below word (match_word t word) before
  pub no_better : AtMost word (match_word t word) after
  pub matches : 0 < match_word t word

-- The choice among the candidates as one loop.
pick : List (ℕ × Token) → List ℕ → Best → Best
pick [] word best = best
pick ((id, t) ∷ ts) word best = elim (ltb best.rank (match_word t word)) [
  | true ↦ pick ts word (record { rank = match_word t word; target = some (id, t) })
  | false ↦ pick ts word best
]

pick-append :
    (xs ys : List (ℕ × Token)) (word : List ℕ) (best : Best)
    → pick (xs ++ ys) word best ≡ pick ys word (pick xs word best)
unfolding pick
pick-append [] ys word best = refl
pick-append ((id, t) ∷ xs) ys word best = elim (Bool-cases (ltb best.rank (match_word t word))) [
  | inl better ↦
      rw (pick, better)
        (pick-append xs ys word (record { rank = match_word t word; target = some (id, t) }))
  | inr worse ↦ rw (pick, worse) (pick-append xs ys word best)
]

best_token-pick :
    (id : ℕ) (ts : List Token) (word : List ℕ) (best : Best)
    → best_token id ts word best ≡ pick (on_node id ts) word best
unfolding best_token pick on_node
best_token-pick id [] word best = refl
best_token-pick id (t ∷ ts) word best = elim (Bool-cases (ltb best.rank (match_word t word))) [
  | inl better ↦
      rw (best_token, pick, better)
        (best_token-pick id ts word (record { rank = match_word t word; target = some (id, t) }))
  | inr worse ↦ rw (best_token, pick, worse) (best_token-pick id ts word best)
]

best_node-pick :
    (tree : Tree) (ids : List ℕ) (word : List ℕ) (best : Best)
    → best_node tree ids word best ≡ pick (tokens_of tree ids) word best
unfolding best_node pick tokens_of
best_node-pick tree [] word best = refl
best_node-pick tree (id ∷ ids) word best =
    best_node-pick tree ids word (best_token id (node tree id).tokens word best)
    ∙ ap (pick (tokens_of tree ids) word) (best_token-pick id (node tree id).tokens word best)
    ∙ sym (pick-append (on_node id (node tree id).tokens) (tokens_of tree ids) word best)

-- What the loop ends with: the best so far, or a candidate that is better.
abbrev Picked : List (ℕ × Token) → List ℕ → Best → Best → Type 0
Picked cs word best r =
    ((r ≡ best) × AtMost word best.rank cs)
    ⊎ ((id : ℕ) × (t : Token) × (r ≡ record { rank = match_word t word; target = some (id, t) })
        × (best.rank < match_word t word)
        × IsBest word cs id t)

Below-weaken :
    (word : List ℕ) (n m : ℕ) (cs : List (ℕ × Token)) → AtMost word n cs → n < m → Below word m cs
Below-weaken word n m [] h lt = tt
Below-weaken word n m ((id, t) ∷ cs) h lt = (omega (arith, h.0), Below-weaken word n m cs h.1 lt)

pick-Picked :
    (cs : List (ℕ × Token)) (word : List ℕ) (best : Best) → Picked cs word best (pick cs word best)
unfolding pick
pick-Picked [] word best = inl (refl, tt)
pick-Picked ((id, t) ∷ cs) word best =
    let mine : Best = record { rank = match_word t word; target = some (id, t) } in
    elim (Bool-cases (ltb best.rank (match_word t word))) [
      | inl better ↦
          let lt : best.rank < match_word t word = ground (arith, better) in
          rw (pick, better)
            (elim (pick-Picked cs word mine) [
              | inl (e, rest) ↦ inr (
                id,
                t,
                e,
                lt,
                record {
                  before = [];
                  after = cs;
                  parts = refl;
                  worse = tt;
                  no_better = rest;
                  matches = omega (arith, lt);
                },
              )
              | inr (id', t', e, lt', k) ↦ inr (
                id',
                t',
                e,
                omega (arith, lt, lt'),
                record {
                  before = (id, t) ∷ k.before;
                  after = k.after;
                  parts = ap (λ l. (id, t) ∷ l) k.parts;
                  worse = (lt', k.worse);
                  no_better = k.no_better;
                  matches = k.matches;
                },
              )
            ])
      | inr worse ↦
          let le : match_word t word ≤ best.rank = ground (arith, worse) in
          rw (pick, worse)
            (elim (pick-Picked cs word best) [
              | inl (e, rest) ↦ inl (e, (le, rest))
              | inr (id', t', e, lt', k) ↦ inr (
                id',
                t',
                e,
                lt',
                record {
                  before = (id, t) ∷ k.before;
                  after = k.after;
                  parts = ap (λ l. (id, t) ∷ l) k.parts;
                  worse = (omega (arith, le, lt'), k.worse);
                  no_better = k.no_better;
                  matches = k.matches;
                },
              )
            ])
    ]

-- `find_best_node` gives the first of the tokens in the chain that match the word best, or nothing
-- where none of them matches.
pub find_best_node-IsBest :
    (tree : Tree) (head : List ℕ) (word : List ℕ)
    → ((find_best_node tree head word ≡ none) × AtMost word 0 (tokens_of tree head))
      ⊎ ((id : ℕ) × (t : Token) × (find_best_node tree head word ≡ some (id, t))
          × IsBest word (tokens_of tree head) id t)
unfolding find_best_node
find_best_node-IsBest tree head word =
    let start : Best = record { rank = 0; target = none } in
    let e = ap (λ r. r.target) (best_node-pick tree head word start) in
    elim (pick-Picked (tokens_of tree head) word start) [
      | inl (e', rest) ↦ inl (e ∙ ap (λ r. r.target) e', rest)
      | inr (id, t, e', lt, k) ↦ inr (id, t, e ∙ ap (λ r. r.target) e', k)
    ]
