-- ===== src/Tree/Complete/Serves.antt =====
-- `cmd_complete` of cli-tree.c as the engine that the terminal of cli-term.c asks.
use mathlib.Core.Path.{subst}
use chaconne.Prelude.{
  ℕ, ◌+◌, ◌≤◌, ◌<◌, ◌≡◌, ◌⊎◌, refl, sym, Bool, true, false, List, [], ◌∷◌, Option, none, some,
  arith, ltb, ◌==◌, if◌then◌else◌, length, take, length-take, Bool-cases, Option-cases, inl, inr,
}
use chaconne.Term.Edit.Replace.{IsPrintable}
use chaconne.Term.Session.{Completion}
use chaconne.Term.Session.Ready.{last_word, Completes}
use chaconne.Tree.{Tree, node}
use chaconne.Tree.Lines.{words_of, line_get_args}
use chaconne.Tree.Search.{Searched, reached, unreached, cmd_search}
use chaconne.Tree.Search.Rounds.{Within, cmd_search-Within}
use chaconne.Tree.Complete.{
  argv_size, base_at, no_base, base_of, offer, get_complete, ends_blank, complete_words, base_node,
  or_empty, last_part, any_pipe, complete_line, cmd_complete, token_count,
}
use chaconne.Tree.Complete.Offers.{offered_keys}
use chaconne.Tree.Complete.Keys.{Replies, get_complete-Replies}
use chaconne.Tree.Complete.LastWord.{ends_blank-last_word}
use chaconne.Tree.Complete.Covers.{words-Covers}
use chaconne.Tree.Complete.Printable.{
  IsPrintable-Visible, AllPrintable, AllPrintable-append, keys, keys-append, PrintableKeys,
  offer-printable, Answers-Completes,
}

-- A reply that completes the line, or a fault for want of memory.
abbrev pub Serves : Bool → List ℕ → Option Completion → Type 0
Serves front_memory line none = front_memory ≡ false
Serves front_memory line (some c) = Completes line c

Replies-Serves :
    (front_memory : Bool) (line word : List ℕ) (ks : List (List ℕ)) (r : Option Completion)
    → last_word line ≤ length word
    → AllPrintable ks
    → Replies front_memory word ks r
    → Serves front_memory line r
Replies-Serves front_memory line word ks none le p a = a.0
Replies-Serves front_memory line word ks (some c) le p a = Answers-Completes line word ks c le p a

get_complete-Serves :
    (memory front_memory : Bool) (tree : Tree) (base : ℕ) (line word : List ℕ)
    → PrintableKeys tree
    → last_word line ≤ length word
    → Serves front_memory line (get_complete memory front_memory tree base word)
unfolding get_complete
get_complete-Serves true front_memory tree base line word h le =
    let head = (node tree base).children in
    let keyword = (node tree base).keyword in
    Replies-Serves front_memory line word (offered_keys tree base word)
      (get_complete true front_memory tree base word) le
      (subst AllPrintable (sym (keys-append (offer tree head word) (offer tree keyword word))) (
        AllPrintable-append (keys (offer tree head word)) (keys (offer tree keyword word))
          (offer-printable tree head word h) (offer-printable tree keyword word h)))
      (get_complete-Replies tree base word front_memory).2
get_complete-Serves false front_memory tree base line word h le =
    elim (Bool-cases (
      token_count tree (node tree base).children word
        + token_count tree (node tree base).keyword word
      == 0)) [ inl empty ↦ rw (get_complete, empty) tt | inr found ↦ rw (get_complete, found) tt ]

base_of-cases :
    (n : ℕ) (r : Searched)
    → Within n r
    → n ≤ argv_size
    → ((id : ℕ) × (base_of r ≡ base_at id)) ⊎ (base_of r ≡ no_base)
unfolding base_of
base_of-cases n (reached found) h le =
    let room : ltb argv_size (length found.args) ≡ false = ground (arith, h, le) in
    inl (found.target, rw room refl)
base_of-cases n (unreached args pairs) h le =
    let room : ltb argv_size (length args) ≡ false = ground (arith, h, le) in inr (rw room refl)

-- With no more words than `argv` holds, the search writes nothing behind it.
base_node-cases :
    (tree : Tree) (line : List ℕ) (words : List (List ℕ))
    → length words ≤ argv_size
    → ((id : ℕ) × (base_node tree line words ≡ base_at id)) ⊎ (base_node tree line words ≡ no_base)
unfolding base_node
base_node-cases tree line words le =
    let n = complete_words line words in
    elim (Bool-cases (n == 0)) [
      | inl none_left ↦ inl (0, rw (base_node, none_left) refl)
      | inr some_left ↦
          let r = cmd_search tree (node tree 0).children (take n words) in
          elim (base_of-cases (length (take n words)) r
            (cmd_search-Within tree (node tree 0).children (take n words))
            (omega (arith, length-take n words, le))) [
              | inl (id, e) ↦ inl (id, rw (base_node, some_left) e)
              | inr e ↦ inr (rw (base_node, some_left) e)
            ]
    ]

line_get_args-words_of :
    (isspace : ℕ → Bool) (mallocs : ℕ) (line : List ℕ) (words : List (List ℕ))
    → line_get_args isspace mallocs line ≡ some words
    → words_of isspace (length line + 1) line ≡ some words
unfolding line_get_args
line_get_args-words_of isspace mallocs line words e =
    kept (words_of isspace (length line + 1) line) e
  where
    kept :
        (o : Option (List (List ℕ)))
        → elim o [
          | none ↦ none
          | some [] ↦ some []
          | some (w ∷ ws) ↦ if ltb mallocs (length (w ∷ ws) + 1) then none else some (w ∷ ws)
        ]
          ≡ some words
        → o ≡ some words
    kept none h = h
    kept (some []) h = h
    kept (some (w ∷ ws)) h = elim (Bool-cases (ltb mallocs (length (w ∷ ws) + 1))) [
      | inl full ↦ cc (rw full at h)
      | inr fits ↦ rw fits at h
    ]

module _ (isspace : ℕ → Bool) (only_space : (c : ℕ) → 31 < c → isspace c ≡ (c == 32)) where
  -- The word that is completed covers the last one of the line.
  last_part-Covers :
      (n : ℕ) (line : List ℕ) (words : List (List ℕ))
      → IsPrintable line
      → words_of isspace n line ≡ some words
      → any_pipe words ≡ false
      → 0 < length words
      → last_word line ≤ length (last_part line words)
  unfolding last_part complete_words or_empty
  last_part-Covers n line words h e no_bar some_word = elim (Bool-cases (ends_blank line)) [
    | inl blank ↦ omega (arith, ends_blank-last_word line blank)
    | inr word_end ↦
        let (w, found, le) =
          words-Covers isspace only_space n line words (IsPrintable-Visible line h) word_end e
            no_bar some_word in
        rw (last_part, complete_words, word_end, found) le
  ]

  complete_line-Serves :
      (memory front_memory : Bool) (tree : Tree) (n : ℕ) (line : List ℕ) (words : List (List ℕ))
      → PrintableKeys tree
      → IsPrintable line
      → words_of isspace n line ≡ some words
      → any_pipe words ≡ false
      → length words ≤ argv_size
      → Serves front_memory line (complete_line memory front_memory tree line words)
  unfolding complete_line
  complete_line-Serves memory front_memory tree n line [] k h e no_bar few = tt
  complete_line-Serves memory front_memory tree n line (w ∷ words) k h e no_bar few =
      elim (base_node-cases tree line (w ∷ words) few) [
        | inr lost ↦ rw (complete_line, lost) tt
        | inl (base, found) ↦
            rw (complete_line, found)
              (get_complete-Serves memory front_memory tree base line (last_part line (w ∷ words)) k
                (last_part-Covers n line (w ∷ words) h e no_bar (omega arith)))
      ]

  -- If of the bytes from 32 on only the space is blank: for a tree with printable keys and a printable
  -- line that splits into at most 1000 words, `cmd_complete` faults only where `malloc` finds no memory
  -- for a longer front; otherwise its completion is printable, and no shorter than the word that the
  -- line ends with, as the terminal asks of its engine.
  pub cmd_complete-Serves :
      (mallocs : ℕ) (memory front_memory : Bool) (tree : Tree) (line : List ℕ)
      → PrintableKeys tree
      → IsPrintable line
      → ((words : List (List ℕ))
          → line_get_args isspace mallocs line ≡ some words
          → length words ≤ argv_size)
      → Serves front_memory line (cmd_complete isspace mallocs memory front_memory tree line)
  unfolding cmd_complete
  cmd_complete-Serves mallocs memory front_memory tree line k h few =
      elim (Option-cases (line_get_args isspace mallocs line)) [
        | inl failed ↦ rw (cmd_complete, failed) tt
        | inr (words, e) ↦ elim (Bool-cases (any_pipe words)) [
          | inl bar ↦ rw (cmd_complete, e, bar) tt
          | inr no_bar ↦
              rw (cmd_complete, e, no_bar)
                (complete_line-Serves memory front_memory tree (length line + 1) line words k h
                  (line_get_args-words_of isspace mallocs line words e) no_bar (few words e))
        ]
      ]
