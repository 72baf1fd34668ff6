-- ===== src/Tree/Search.antt =====
-- cli-tree.c: the search of a node by the words of a line.
pub mod Choice
pub mod Rounds
use chaconne.Prelude.{
  ℕ, zero, suc, ◌+◌, Bool, true, false, List, [], ◌∷◌, ◌++◌, Option, none, some, ltb, ◌==◌,
  if◌then◌else◌, length,
}
use chaconne.Tree.{TokenType, literal, option, variable, vararg, Token, Node, Tree, node, same_key}

-- `enum match_type`: no_match, extend_match, vararg_match and exact_match are 0 to 3.
unfoldable pub match_type : TokenType → List ℕ → List ℕ → ℕ
unfolding same_key
match_type literal key word = if same_key key word then 3 else 0
match_type option key word = 1
match_type variable key word = 1
match_type vararg key word = 2

unfoldable pub match_word : Token → List ℕ → ℕ
unfolding match_type
match_word token word = match_type token.type token.key word

-- The locals of `find_best_node`: the best match so far, with its node and its token.
pub record Best : Type 0 where
  pub rank : ℕ
  pub target : Option (ℕ × Token)

unfoldable pub best_token : ℕ → List Token → List ℕ → Best → Best
unfolding match_word
best_token id [] word best = best
best_token id (t ∷ ts) word best = elim (ltb best.rank (match_word t word)) [
  | true ↦ best_token id ts word (record { rank = match_word t word; target = some (id, t) })
  | false ↦ best_token id ts word best
]

unfoldable pub best_node : Tree → List ℕ → List ℕ → Best → Best
unfolding best_token
best_node tree [] word best = best
best_node tree (id ∷ ids) word best =
    best_node tree ids word (best_token id (node tree id).tokens word best)

-- The node and the token for a word among the nodes of a chain.
unfoldable pub find_best_node : Tree → List ℕ → List ℕ → Option (ℕ × Token)
unfolding best_node
find_best_node tree head word =
    (best_node tree head word (record { rank = 0; target = none })).target

-- What `cmd_search` leaves where it finds a node: the node for `*ret`, the words put behind `argv`, and the pairs for
-- `hashtable_set`, in the order of the calls.
pub record Found : Type 0 where
  pub target : ℕ
  pub args : List (List ℕ)
  pub pairs : List (List ℕ × List ℕ)

-- Its results: 0, or CMD_ERR_NO_MATCH, with the words and pairs that it put there until then.
pub data Searched : Type 0 where
  reached : Found → Searched
  unreached : List (List ℕ) → List (List ℕ × List ℕ) → Searched

-- The ends of the loop over the keywords of a node: with these words left, at a keyword that lacks
-- its value, or at a value that does not match.
pub data Keywords : Type 0 where
  left : List (List ℕ) → List (List ℕ × List ℕ) → Keywords
  partial : ℕ → List (List ℕ × List ℕ) → Keywords
  mismatch : List (List ℕ × List ℕ) → Keywords

abbrev pub present : List ℕ
present = b'1' ∷ []

unfoldable pub keyword_loop : Tree → ℕ → List (List ℕ) → List (List ℕ × List ℕ) → Keywords
unfolding find_best_node
keyword_loop tree target [] pairs = left [] pairs
keyword_loop tree target (w ∷ []) pairs = elim (find_best_node tree (node tree target).keyword w) [
  | none ↦ left (w ∷ []) pairs
  | some (id, t) ↦ elim (node tree id).children [
    | [] ↦ left [] (pairs ++ (w, present) ∷ [])
    | child ∷ more ↦ partial id (pairs ++ (w, present) ∷ [])
  ]
]
keyword_loop tree target (w ∷ v ∷ words) pairs =
    elim (find_best_node tree (node tree target).keyword w) [
      | none ↦ left (w ∷ v ∷ words) pairs
      | some (id, t) ↦ elim (node tree id).children [
        | [] ↦ keyword_loop tree target (v ∷ words) (pairs ++ (w, present) ∷ [])
        | child ∷ more ↦ elim (find_best_node tree (child ∷ more) v) [
          | none ↦ mismatch (pairs ++ (w, present) ∷ [])
          | some (value, t') ↦ keyword_loop tree target words (pairs ++ (w, present) ∷ (w, v) ∷ [])
        ]
      ]
    ]

unfoldable pub is_literal : TokenType → Bool
is_literal literal = true
is_literal other = false

unfoldable pub is_vararg : TokenType → Bool
is_vararg vararg = true
is_vararg other = false

-- The words that become arguments at the target, of those from its own on.
unfoldable pub take_args : Node → Token → List ℕ → List (List ℕ) → List (List ℕ) × List (List ℕ)
unfolding is_literal is_vararg
take_args target token w words =
    if ltb 1 (length target.tokens)
    then (w ∷ [], words)
    else if is_literal token.type
    then ([], words)
    else if is_vararg token.type
    then (w ∷ words, [])
    else (w ∷ [], words)

-- `cmd_search` on the words from `*wordi` on, with rounds for fuel.
unfoldable pub search :
    ℕ → Tree → List ℕ → List (List ℕ) → List (List ℕ) → List (List ℕ × List ℕ) → Searched
unfolding find_best_node take_args keyword_loop
search zero tree head words args pairs = unreached args pairs
search (suc n) tree head [] args pairs = unreached args pairs
search (suc n) tree head (w ∷ words) args pairs = elim (find_best_node tree head w) [
  | none ↦ unreached args pairs
  | some (id, token) ↦
      let (taken, rest) = take_args (node tree id) token w words in
      elim rest [
        | [] ↦ reached (record { target = id; args = args ++ taken; pairs = pairs })
        | v ∷ vs ↦ elim (keyword_loop tree id (v ∷ vs) pairs) [
          | mismatch set ↦ unreached (args ++ taken) set
          | partial k found ↦ reached (record { target = k; args = args ++ taken; pairs = found })
          | left [] found ↦ reached (record { target = id; args = args ++ taken; pairs = found })
          | left (u ∷ us) found ↦
              search n tree (node tree id).children (u ∷ us) (args ++ taken) found
        ]
      ]
]

-- `cmd_search` from the chain `head`; each call takes a word, so a round for each word is enough.
unfoldable pub cmd_search : Tree → List ℕ → List (List ℕ) → Searched
unfolding search
cmd_search tree head words = search (length words) tree head words [] []
