-- ===== src/Tree/Complete/Offers.antt =====
-- The keys that `get_complete` of cli-tree.c stores: those of a node that start with a word.
use mathlib.Core.List.{map}
use mathlib.Core.Path.{subst}
use chaconne.Prelude.{
  ℕ, suc, ◌≡◌, ◌≢◌, ◌⊎◌, refl, sym, ap, ◌∙◌, true, List, [], ◌∷◌, ◌++◌, arith, length,
  length-append, Bool-cases, inl, inr,
}
use chaconne.Tree.{Token, Tree, node}
use chaconne.Tree.Complete.{has_prefix, offered, count_tokens, token_count, offer_tokens, offer}
use chaconne.Tree.Complete.Prefixes.{Extend}

count_tokens-length :
    (ts : List Token) (word : List ℕ) → count_tokens ts word ≡ length (offer_tokens ts word)
unfolding count_tokens offer_tokens
count_tokens-length [] word = refl
count_tokens-length (t ∷ ts) word = elim (Bool-cases (offered word t)) [
  | inl shown ↦ rw (count_tokens, offer_tokens, shown) (ap suc (count_tokens-length ts word))
  | inr hidden ↦ rw (count_tokens, offer_tokens, hidden) (count_tokens-length ts word)
]

pub token_count-length :
    (tree : Tree) (ids : List ℕ) (word : List ℕ)
    → token_count tree ids word ≡ length (offer tree ids word)
unfolding token_count offer
token_count-length tree [] word = refl
token_count-length tree (id ∷ ids) word = omega (
  arith,
  count_tokens-length (node tree id).tokens word,
  token_count-length tree ids word,
  length-append (offer_tokens (node tree id).tokens word) (offer tree ids word),
)

-- The keys of a chain of nodes, in order, and those at a node.
abbrev pub chain_keys : Tree → List ℕ → List (List ℕ)
chain_keys tree [] = []
chain_keys tree (id ∷ ids) = map (λ t. t.key) (node tree id).tokens ++ chain_keys tree ids

abbrev pub keys_at : Tree → ℕ → List (List ℕ)
keys_at tree base =
    chain_keys tree (node tree base).children ++ chain_keys tree (node tree base).keyword

-- Of the first keys, in order, just those that are the word with anything behind it.
abbrev pub Selected : List ℕ → List (List ℕ) → List (List ℕ) → Type 0
Selected word [] ks = ks ≡ []
Selected word (k ∷ all) ks =
    ((rest : List ℕ) × (more : List (List ℕ)) × (k ≡ word ++ rest)
      × (ks ≡ k ∷ more)
      × Selected word all more)
    ⊎ (((rest : List ℕ) → k ≢ word ++ rest) × Selected word all ks)

has_prefix-append : (word rest : List ℕ) → has_prefix word (word ++ rest) ≡ true
unfolding has_prefix
has_prefix-append [] rest = refl
has_prefix-append (c ∷ cs) rest = ground (arith, has_prefix-append cs rest)

prefix_rest : (word k : List ℕ) → has_prefix word k ≡ true → (rest : List ℕ) × (k ≡ word ++ rest)
unfolding has_prefix
prefix_rest [] k h = (k, refl)
prefix_rest (c ∷ cs) [] h = cc
prefix_rest (c ∷ cs) (x ∷ xs) h =
    let (rest, e) = prefix_rest cs xs (ground (arith, h)) in
    let same : x ≡ c = ground (arith, h) in (rest, ap (λ y. y ∷ xs) same ∙ ap (λ l. c ∷ l) e)

offered-prefix : (word : List ℕ) (t : Token) → offered word t ≡ has_prefix word t.key
unfolding offered has_prefix
offered-prefix [] t = refl
offered-prefix (c ∷ cs) t = ground arith

Selected-append :
    (word : List ℕ) (all ks others ls : List (List ℕ))
    → Selected word all ks
    → Selected word others ls
    → Selected word (all ++ others) (ks ++ ls)
Selected-append word [] ks others ls s o = subst (λ l. Selected word others (l ++ ls)) (sym s) o
Selected-append word (k ∷ all) ks others ls s o = elim s [
  | inl (rest, more, e, same, s') ↦
      inl
        (rest, more ++ ls, e, ap (λ l. l ++ ls) same, Selected-append word all more others ls s' o)
  | inr (never, s') ↦ inr (never, Selected-append word all ks others ls s' o)
]

map-append :
    (ts us : List Token) → map (λ t. t.key) (ts ++ us) ≡ map (λ t. t.key) ts ++ map (λ t. t.key) us
map-append [] us = refl
map-append (t ∷ ts) us = ap (λ l. t.key ∷ l) (map-append ts us)

offer_tokens-Selected :
    (ts : List Token) (word : List ℕ)
    → Selected word (map (λ t. t.key) ts) (map (λ t. t.key) (offer_tokens ts word))
unfolding offer_tokens
offer_tokens-Selected [] word = refl
offer_tokens-Selected (t ∷ ts) word = elim (Bool-cases (offered word t)) [
  | inl shown ↦
      let (rest, e) = prefix_rest word t.key (sym (offered-prefix word t) ∙ shown) in
      rw (offer_tokens, shown)
        (inl
          (rest, map (λ t. t.key) (offer_tokens ts word), e, refl, offer_tokens-Selected ts word))
  | inr hidden ↦
      rw (offer_tokens, hidden)
        (inr (
          λ rest e. cc (
            sym (offered-prefix word t) ∙ hidden,
            ap (has_prefix word) e,
            has_prefix-append word rest,
          ),
          offer_tokens-Selected ts word,
        ))
]

offer-Selected :
    (tree : Tree) (ids : List ℕ) (word : List ℕ)
    → Selected word (chain_keys tree ids) (map (λ t. t.key) (offer tree ids word))
unfolding offer
offer-Selected tree [] word = refl
offer-Selected tree (id ∷ ids) word =
    subst (Selected word (chain_keys tree (id ∷ ids)))
      (sym (map-append (offer_tokens (node tree id).tokens word) (offer tree ids word)))
      (Selected-append word (map (λ t. t.key) (node tree id).tokens)
        (map (λ t. t.key) (offer_tokens (node tree id).tokens word)) (chain_keys tree ids)
        (map (λ t. t.key) (offer tree ids word)) (offer_tokens-Selected (node tree id).tokens word)
        (offer-Selected tree ids word))

-- The keys of the tokens at a node that start with a word.
abbrev pub offered_keys : Tree → ℕ → List ℕ → List (List ℕ)
offered_keys tree base word =
    map (λ t. t.key)
      (offer tree (node tree base).children word ++ offer tree (node tree base).keyword word)

pub offered_keys-Selected :
    (tree : Tree) (base : ℕ) (word : List ℕ)
    → Selected word (keys_at tree base) (offered_keys tree base word)
offered_keys-Selected tree base word =
    let head = (node tree base).children in
    let keyword = (node tree base).keyword in
    subst (Selected word (keys_at tree base))
      (sym (map-append (offer tree head word) (offer tree keyword word)))
      (Selected-append word (chain_keys tree head) (map (λ t. t.key) (offer tree head word))
        (chain_keys tree keyword) (map (λ t. t.key) (offer tree keyword word))
        (offer-Selected tree head word) (offer-Selected tree keyword word))

-- Keys selected by a word start with it.
pub Selected-Extend :
    (word : List ℕ) (all ks : List (List ℕ)) → Selected word all ks → Extend word ks
unfolding has_prefix
Selected-Extend word [] ks s = subst (Extend word) (sym s) tt
Selected-Extend word (k ∷ all) ks s = elim s [
  | inl (rest, more, e, same, s') ↦
      subst (Extend word) (sym same)
        (ap (has_prefix word) e ∙ has_prefix-append word rest, Selected-Extend word all more s')
  | inr (never, s') ↦ Selected-Extend word all ks s'
]
