-- ===== src/Tree/Search/Rounds.antt =====
-- `cmd_search` of cli-tree.c uses up the words: it stops, and its arguments are words of the line.
use mathlib.Core.Path.{subst}
use chaconne.Prelude.{
  List-cases, ℕ, zero, suc, ◌+◌, ◌≤◌, ◌≡◌, ◌⊎◌, refl, sym, ap, ◌∙◌, List, [], ◌∷◌, ◌++◌, arith, ltb,
  length, length-append, Bool-cases, Option-cases, inl, inr,
}
use chaconne.Tree.{Token, Node, Tree, node}
use chaconne.Tree.Search.{
  find_best_node, Keywords, left, partial, mismatch, keyword_loop, present, take_args, is_literal,
  is_vararg, Found, Searched, reached, unreached, search, cmd_search,
}

-- A loop over keywords leaves at most `n` words.
abbrev LeavesAtMost : ℕ → Keywords → Type 0
LeavesAtMost n (left rest pairs) = length rest ≤ n
LeavesAtMost n (partial id pairs) = Unit
LeavesAtMost n (mismatch pairs) = Unit

LeavesAtMost-weaken : (n m : ℕ) (k : Keywords) → n ≤ m → LeavesAtMost n k → LeavesAtMost m k
LeavesAtMost-weaken n m (left rest pairs) le h = omega (arith, h)
LeavesAtMost-weaken n m (partial id pairs) le h = tt
LeavesAtMost-weaken n m (mismatch pairs) le h = tt

keyword_loop-LeavesAtMost :
    (tree : Tree) (target : ℕ) (words : List (List ℕ)) (pairs : List (List ℕ × List ℕ))
    → LeavesAtMost (length words) (keyword_loop tree target words pairs)
unfolding keyword_loop
keyword_loop-LeavesAtMost tree target [] pairs = omega arith
keyword_loop-LeavesAtMost tree target (w ∷ []) pairs =
    elim (Option-cases (find_best_node tree (node tree target).keyword w)) [
      | inl e ↦ rw (keyword_loop, e) (omega arith)
      | inr ((id, t), e) ↦ elim (List-cases ((node tree id).children)) [
        | inl e' ↦ rw (keyword_loop, e, e') (omega arith)
        | inr (child, more, e') ↦ rw (keyword_loop, e, e') tt
      ]
    ]
keyword_loop-LeavesAtMost tree target (w ∷ v ∷ words) pairs =
    elim (Option-cases (find_best_node tree (node tree target).keyword w)) [
      | inl e ↦ rw (keyword_loop, e) (omega arith)
      | inr ((id, t), e) ↦ elim (List-cases ((node tree id).children)) [
        | inl e' ↦
            rw (keyword_loop, e, e')
              (LeavesAtMost-weaken (suc (length words)) (suc (suc (length words))) _ (omega arith)
                (keyword_loop-LeavesAtMost tree target (v ∷ words) (pairs ++ (w, present) ∷ [])))
        | inr (child, more, e') ↦ elim (Option-cases (find_best_node tree (child ∷ more) v)) [
          | inl e'' ↦ rw (keyword_loop, e, e', e'') tt
          | inr ((value, t'), e'') ↦
              rw (keyword_loop, e, e', e'')
                (LeavesAtMost-weaken (length words) (suc (suc (length words))) _ (omega arith) (
                  keyword_loop-LeavesAtMost tree target words
                    (pairs ++ (w, present) ∷ (w, v) ∷ [])))
        ]
      ]
    ]

-- The words that a result put behind `argv` are at most `n`.
abbrev pub Within : ℕ → Searched → Type 0
Within n (unreached args pairs) = length args ≤ n
Within n (reached found) = length found.args ≤ n

-- What one call of `cmd_search` does at a word: it ends, whatever rounds are left, or calls itself
-- with fewer words.
abbrev Step :
    Tree → List ℕ → List ℕ → List (List ℕ) → List (List ℕ) → List (List ℕ × List ℕ) → Type 0
Step tree head w words args pairs =
    ((r : Searched) × ((n : ℕ) → search (suc n) tree head (w ∷ words) args pairs ≡ r)
      × Within (length args + suc (length words)) r)
    ⊎ ((head' : List ℕ) × (words' : List (List ℕ)) × (args' : List (List ℕ)) × (pairs' : List
          (List ℕ × List ℕ))
        × ((n : ℕ)
            → search (suc n) tree head (w ∷ words) args pairs
              ≡ search n tree head' words' args' pairs')
        × (length words' ≤ length words)
        × (length args' + length words' ≤ length args + suc (length words)))

take_args-length :
    (target : Node) (token : Token) (w : List ℕ) (words : List (List ℕ))
    → length (take_args target token w words).0 + length (take_args target token w words).1
      ≤ suc (length words)
unfolding take_args
take_args-length target token w words = elim (Bool-cases (ltb 1 (length target.tokens))) [
  | inl several ↦ rw (take_args, several) (omega arith)
  | inr one ↦ elim (Bool-cases (is_literal token.type)) [
    | inl lit ↦ rw (take_args, one, lit) (omega arith)
    | inr var ↦ elim (Bool-cases (is_vararg token.type)) [
      | inl all ↦ rw (take_args, one, var, all) (omega arith)
      | inr single ↦ rw (take_args, one, var, single) (omega arith)
    ]
  ]
]

take_args-rest :
    (target : Node) (token : Token) (w : List ℕ) (words : List (List ℕ))
    → length (take_args target token w words).1 ≤ length words
unfolding take_args
take_args-rest target token w words = elim (Bool-cases (ltb 1 (length target.tokens))) [
  | inl several ↦ rw (take_args, several) (omega arith)
  | inr one ↦ elim (Bool-cases (is_literal token.type)) [
    | inl lit ↦ rw (take_args, one, lit) (omega arith)
    | inr var ↦ elim (Bool-cases (is_vararg token.type)) [
      | inl all ↦ rw (take_args, one, var, all) (omega arith)
      | inr single ↦ rw (take_args, one, var, single) (omega arith)
    ]
  ]
]

Keywords-cases :
    (k : Keywords)
    → ((rest : List (List ℕ)) × (ps : List (List ℕ × List ℕ)) × (k ≡ left rest ps))
      ⊎ (((id : ℕ) × (ps : List (List ℕ × List ℕ)) × (k ≡ partial id ps))
          ⊎ ((ps : List (List ℕ × List ℕ)) × (k ≡ mismatch ps)))
Keywords-cases (left rest ps) = inl (rest, ps, refl)
Keywords-cases (partial id ps) = inr (inl (id, ps, refl))
Keywords-cases (mismatch ps) = inr (inr (ps, refl))

search-Step :
    (tree : Tree) (head : List ℕ) (w : List ℕ) (words args : List (List ℕ))
    (pairs : List (List ℕ × List ℕ))
    → Step tree head w words args pairs
unfolding search
search-Step tree head w words args pairs = elim (Option-cases (find_best_node tree head w)) [
  | inl e ↦ inl (unreached args pairs, λ n. rw (search, e), omega arith)
  | inr ((id, token), e) ↦
      let taken = (take_args (node tree id) token w words).0 in
      let rest = (take_args (node tree id) token w words).1 in
      let size = take_args-length (node tree id) token w words in
      let size' = take_args-rest (node tree id) token w words in
      let both = length-append args taken in
      elim (List-cases rest) [
        | inl e' ↦ inl (
          reached (record { target = id; args = args ++ taken; pairs = pairs }),
          λ n. rw (search, e, e'),
          omega (arith, size, both),
        )
        | inr (v, vs, e') ↦
            let shorter : suc (length vs) ≡ length rest = ap length (sym e') in
            elim (Keywords-cases (keyword_loop tree id (v ∷ vs) pairs)) [
              | inr (inr (ps, k)) ↦ inl (
                unreached (args ++ taken) ps,
                λ n. rw (search, e, e', k),
                omega (arith, size, both),
              )
              | inr (inl (key, ps, k)) ↦ inl (
                reached (record { target = key; args = args ++ taken; pairs = ps }),
                λ n. rw (search, e, e', k),
                omega (arith, size, both),
              )
              | inl ([], ps, k) ↦ inl (
                reached (record { target = id; args = args ++ taken; pairs = ps }),
                λ n. rw (search, e, e', k),
                omega (arith, size, both),
              )
              | inl (u ∷ us, ps, k) ↦
                  let fewer =
                    subst (LeavesAtMost (length (v ∷ vs))) k
                      (keyword_loop-LeavesAtMost tree id (v ∷ vs) pairs) in
                  inr (
                    (node tree id).children,
                    u ∷ us,
                    args ++ taken,
                    ps,
                    λ n. rw (search, e, e', k),
                    omega (arith, size', shorter, fewer),
                    omega (arith, size, both, shorter, fewer),
                  )
            ]
      ]
]

-- Rounds behind those that the words need change nothing.
pub search-enough :
    (n m : ℕ) (tree : Tree) (head : List ℕ) (words args : List (List ℕ))
    (pairs : List (List ℕ × List ℕ))
    → length words ≤ n
    → length words ≤ m
    → search n tree head words args pairs ≡ search m tree head words args pairs
unfolding search
search-enough zero zero tree head words args pairs hn hm = refl
search-enough zero (suc m) tree head [] args pairs hn hm = refl
search-enough (suc n) zero tree head [] args pairs hn hm = refl
search-enough (suc n) (suc m) tree head [] args pairs hn hm = refl
search-enough zero m tree head (w ∷ words) args pairs hn hm = absurd (omega arith)
search-enough n zero tree head (w ∷ words) args pairs hn hm = absurd (omega arith)
search-enough (suc n) (suc m) tree head (w ∷ words) args pairs hn hm =
    elim (search-Step tree head w words args pairs) [
      | inl (r, same, fits) ↦ same n ∙ sym (same m)
      | inr (head', words', args', pairs', same, fewer, fits) ↦
          same n
          ∙ search-enough n m tree head' words' args' pairs' (omega (arith, fewer))
              (omega (arith, fewer))
          ∙ sym (same m)
    ]

search-Within :
    (n : ℕ) (tree : Tree) (head : List ℕ) (words args : List (List ℕ))
    (pairs : List (List ℕ × List ℕ))
    → Within (length args + length words) (search n tree head words args pairs)
unfolding search
search-Within zero tree head words args pairs = omega arith
search-Within (suc n) tree head [] args pairs = omega arith
search-Within (suc n) tree head (w ∷ words) args pairs =
    elim (search-Step tree head w words args pairs) [
      | inl (r, same, fits) ↦ rw (same n) fits
      | inr (head', words', args', pairs', same, fewer, fits) ↦ rw (same n) (
          Within_weaken (length args' + length words') (length args + suc (length words)) _ fits
            (search-Within n tree head' words' args' pairs'))
    ]
  where
    Within_weaken : (n m : ℕ) (r : Searched) → n ≤ m → Within n r → Within m r
    Within_weaken n m (unreached args pairs) le h = omega (arith, h)
    Within_weaken n m (reached found) le h = omega (arith, h)

pub cmd_search-Within :
    (tree : Tree) (head : List ℕ) (words : List (List ℕ))
    → Within (length words) (cmd_search tree head words)
unfolding cmd_search
cmd_search-Within tree head words =
    let same : 0 + length words ≡ length words = omega arith in
    subst (λ n. Within n (search (length words) tree head words [] [])) same
      (search-Within (length words) tree head words [] [])

-- With as many words as there are or more for rounds, `cmd_search` is the same search, and whether it
-- finds a node or not, it puts no more words into `argv` than the line has.
pub cmd_search-enough :
    (n : ℕ) (tree : Tree) (head : List ℕ) (words : List (List ℕ))
    → length words ≤ n
    → (cmd_search tree head words ≡ search n tree head words [] [])
      × ((found : Found)
          → cmd_search tree head words ≡ reached found
          → length found.args ≤ length words)
      × ((args : List (List ℕ)) (pairs : List (List ℕ × List ℕ))
          → cmd_search tree head words ≡ unreached args pairs
          → length args ≤ length words)
unfolding cmd_search
cmd_search-enough n tree head words h = (
  search-enough (length words) n tree head words [] [] (omega arith) h,
  λ found e. subst (Within (length words)) e (cmd_search-Within tree head words),
  λ args pairs e. subst (Within (length words)) e (cmd_search-Within tree head words),
)
