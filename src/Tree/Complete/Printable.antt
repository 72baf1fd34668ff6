-- ===== src/Tree/Complete/Printable.antt =====
-- The keys of a printable tree of cli-tree.c, and the completions made of them.
use mathlib.Core.List.{map}
use mathlib.Core.Path.{subst}
use chaconne.Prelude.{
  ℕ, zero, suc, ◌≤◌, ◌<◌, ◌≡◌, refl, sym, ap, true, List, [], ◌∷◌, ◌++◌, arith, length, get_or,
  Bool-cases, inl, inr,
}
use chaconne.Term.Edit.Replace.{IsPrintable}
use chaconne.Term.Session.{Completion, no_match, full_match, match, list_match, other}
use chaconne.Term.Session.Ready.{last_word, Completes}
use chaconne.Tree.{Token, Tree, node}
use chaconne.Tree.Complete.{has_prefix, offered, offer_tokens, offer}
use chaconne.Tree.Complete.Prefixes.{Extend}
use chaconne.Tree.Complete.Keys.{Answers}
use chaconne.Tree.Complete.LastWord.{Visible}

pub IsPrintable-Visible : (line : List ℕ) → IsPrintable line → Visible line
IsPrintable-Visible [] h = tt
IsPrintable-Visible (c ∷ cs) h =
    ((h 0 (omega arith)).0, IsPrintable-Visible cs (λ j lt. h (suc j) (omega (arith, lt))))

-- A front of a key.
has_prefix-get :
    (p k : List ℕ) (j : ℕ)
    → has_prefix p k ≡ true
    → j < length p
    → (get_or p j 0 ≡ get_or k j 0) × (j < length k)
unfolding has_prefix
has_prefix-get [] k j h lt = absurd (omega (arith, lt))
has_prefix-get (c ∷ cs) [] j h lt = cc
has_prefix-get (c ∷ cs) (k ∷ ks) zero h lt = (ground (arith, h), omega arith)
has_prefix-get (c ∷ cs) (k ∷ ks) (suc j) h lt =
    let (same, below) = has_prefix-get cs ks j (ground (arith, h)) (omega (arith, lt)) in
    (same, omega (arith, below))

has_prefix-IsPrintable : (p k : List ℕ) → has_prefix p k ≡ true → IsPrintable k → IsPrintable p
has_prefix-IsPrintable p k h printable j lt =
    let (same, below) = has_prefix-get p k j h lt in rw same (printable j below)

has_prefix-length : (p k : List ℕ) → has_prefix p k ≡ true → length p ≤ length k
unfolding has_prefix
has_prefix-length [] k h = omega arith
has_prefix-length (c ∷ cs) [] h = cc
has_prefix-length (c ∷ cs) (k ∷ ks) h = omega (arith, has_prefix-length cs ks (ground (arith, h)))

abbrev pub AllPrintable : List (List ℕ) → Type 0
AllPrintable [] = Unit {0}
AllPrintable (k ∷ ks) = IsPrintable k × AllPrintable ks

pub AllPrintable-append :
    (ks ls : List (List ℕ)) → AllPrintable ks → AllPrintable ls → AllPrintable (ks ++ ls)
AllPrintable-append [] ls h g = g
AllPrintable-append (k ∷ ks) ls h g = (h.0, AllPrintable-append ks ls h.1 g)

abbrev pub keys : List Token → List (List ℕ)
keys ts = map (λ t. t.key) ts

-- The keys of a tree are printable.
abbrev pub PrintableKeys : Tree → Type 0
PrintableKeys tree = (id : ℕ) → AllPrintable (keys (node tree id).tokens)

pub keys-append : (ts us : List Token) → keys (ts ++ us) ≡ keys ts ++ keys us
keys-append [] us = refl
keys-append (t ∷ ts) us = ap (λ l. t.key ∷ l) (keys-append ts us)

offer_tokens-printable :
    (ts : List Token) (word : List ℕ)
    → AllPrintable (keys ts)
    → AllPrintable (keys (offer_tokens ts word))
unfolding offer_tokens
offer_tokens-printable [] word h = tt
offer_tokens-printable (t ∷ ts) word h = elim (Bool-cases (offered word t)) [
  | inl shown ↦ rw (offer_tokens, shown) (h.0, offer_tokens-printable ts word h.1)
  | inr hidden ↦ rw (offer_tokens, hidden) (offer_tokens-printable ts word h.1)
]

pub offer-printable :
    (tree : Tree) (ids : List ℕ) (word : List ℕ)
    → PrintableKeys tree
    → AllPrintable (keys (offer tree ids word))
unfolding offer
offer-printable tree [] word h = tt
offer-printable tree (id ∷ ids) word h =
    subst AllPrintable
      (sym (keys-append (offer_tokens (node tree id).tokens word) (offer tree ids word)))
      (AllPrintable-append (keys (offer_tokens (node tree id).tokens word))
        (keys (offer tree ids word)) (offer_tokens-printable (node tree id).tokens word (h id))
        (offer-printable tree ids word h))

-- An answer for a word that covers the last one of the line completes that.
pub Answers-Completes :
    (line word : List ℕ) (ks : List (List ℕ)) (c : Completion)
    → last_word line ≤ length word
    → AllPrintable ks
    → Answers word ks c
    → Completes line c
Answers-Completes line word ks no_match le p a = tt
Answers-Completes line word ks (list_match shown) le p a = tt
Answers-Completes line word ks other le p a = tt
Answers-Completes line word ks (full_match key) le p a =
    let printable = subst AllPrintable a.0 p in
    let starts = subst (Extend word) a.0 a.1 in
    (printable.0, omega (arith, le, has_prefix-length word key starts.0))
Answers-Completes line word [] (match key) le p a = absurd (omega (arith, a.2))
Answers-Completes line word (k ∷ ks) (match key) le p a =
    (has_prefix-IsPrintable key k a.1.0 p.0, omega (arith, le, a.0))
