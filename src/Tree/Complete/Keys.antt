-- ===== src/Tree/Complete/Keys.antt =====
-- The answers of `get_complete` of cli-tree.c, against the keys of a node.
use chaconne.Prelude.{
  ℕ, suc, ◌+◌, ◌≤◌, ◌<◌, ◌≡◌, Option, none, some, refl, Bool, true, false, not, ◌&&◌, List, [], ◌∷◌,
  ◌++◌, arith, ltb, ◌==◌, length, length-append, length-map, take, length-take, Bool-cases, inl,
  inr,
}
use chaconne.Term.Session.{Completion, no_match, full_match, match, list_match, other}
use chaconne.Tree.{Token, Tree, node}
use chaconne.Tree.Complete.{token_count, offer, cmd_lcd, complete_keys, get_complete}
use chaconne.Tree.Complete.Prefixes.{Extend, SharesAtMost, cmd_lcd-Extend, cmd_lcd-SharesAtMost}
use chaconne.Tree.Complete.Offers.{
  token_count-length, keys_at, Selected, offered_keys, offered_keys-Selected, Selected-Extend,
}

-- What an answer says of the keys and of the word that they start with: the only one; or the longest
-- front of several, which is longer than the word; or all of several that share no longer one.
abbrev pub Answers : List ℕ → List (List ℕ) → Completion → Type 0
Answers word ks no_match = ks ≡ []
Answers word ks (full_match key) = (ks ≡ key ∷ []) × Extend word ks
Answers word ks (match key) =
    (length word < length key)
    × Extend key ks
    × (2 ≤ length ks)
    × Extend word ks
    × SharesAtMost (length key) ks
Answers word ks (list_match shown) =
    (shown ≡ ks) × (2 ≤ length ks) × Extend word ks × SharesAtMost (length word) ks
Answers word ks other = ⊥

extended :
    (word key next : List ℕ) (ks : List (List ℕ))
    → Extend word (key ∷ next ∷ ks)
    → not (cmd_lcd (key ∷ next ∷ ks) == 0) && ltb (length word) (cmd_lcd (key ∷ next ∷ ks)) ≡ true
    → Answers word (key ∷ next ∷ ks) (match (take (cmd_lcd (key ∷ next ∷ ks)) key))
extended word key next ks h longer =
    let lcd = cmd_lcd (key ∷ next ∷ ks) in
    let c = cmd_lcd-Extend key (next ∷ ks) in
    let lt : length word < lcd = ground (arith, longer) in
    let size : length (take lcd key) ≡ lcd = omega (arith, length-take lcd key, c.1) in
    (
      omega (arith, lt, size),
      c.0,
      omega arith,
      h,
      λ p all. omega (arith, size, cmd_lcd-SharesAtMost key next ks p all),
    )

-- A reply for keys that start with a word: an answer, or a fault for want of memory, where it is a
-- longer front of several that would have been copied.
abbrev pub Replies : Bool → List ℕ → List (List ℕ) → Option Completion → Type 0
Replies front_memory word ks (some c) = Answers word ks c
Replies front_memory word ks none =
    (front_memory ≡ false)
    × ((front : List ℕ) × (length word < length front) × Extend front ks × (2 ≤ length ks))

complete_keys-Replies :
    (front_memory : Bool) (word : List ℕ) (ks : List (List ℕ))
    → Extend word ks
    → Replies front_memory word ks (complete_keys front_memory (length word) ks)
unfolding complete_keys
complete_keys-Replies front_memory word [] h = refl
complete_keys-Replies front_memory word (key ∷ []) h = unfold cmd_lcd in (refl, h)
complete_keys-Replies front_memory word (key ∷ next ∷ ks) h =
    elim (Bool-cases (longer (key ∷ next ∷ ks))) [
      | inl more ↦
          let a = extended word key next ks h more in
          elim (Bool-cases front_memory) [
            | inl found ↦ rw (complete_keys, more, found) a
            | inr lacking ↦
                rw (complete_keys, more, lacking)
                  (refl, (take (cmd_lcd (key ∷ next ∷ ks)) key, a.0, a.1, omega arith))
          ]
      | inr short ↦
          let several : (suc (length ks) == 0) ≡ false = ground arith in
          rw (complete_keys, short, several)
            (
              refl,
              omega arith,
              h,
              λ p all. let le = cmd_lcd-SharesAtMost key next ks p all in ground (arith, short, le),
            )
    ]
  where
    longer : List (List ℕ) → Bool
    longer ks = not (cmd_lcd ks == 0) && ltb (length word) (cmd_lcd ks)

-- `get_complete` with memory for its array, at a node and for a word: the keys that it stores are
-- those of the children and the keywords of the node that start with the word, in order, and the
-- array is allocated by their number. It answers that there is none; or the only one; or the longest
-- front that several share, if that is longer than the word; or else all of them. It faults only where
-- it has no memory for such a front.
pub get_complete-Replies :
    (tree : Tree) (base : ℕ) (word : List ℕ) (front_memory : Bool)
    → Selected word (keys_at tree base) (offered_keys tree base word)
      × (token_count tree (node tree base).children word
            + token_count tree (node tree base).keyword word
          ≡ length (offered_keys tree base word))
      × Replies front_memory word
          (offered_keys tree base word)
          (get_complete true front_memory tree base word)
unfolding get_complete
get_complete-Replies tree base word front_memory =
    let head = (node tree base).children in
    let keyword = (node tree base).keyword in
    let count = token_count tree head word + token_count tree keyword word in
    let tokens = offer tree head word ++ offer tree keyword word in
    let size : count ≡ length (offered_keys tree base word) = omega (
      arith,
      token_count-length tree head word,
      token_count-length tree keyword word,
      length-append (offer tree head word) (offer tree keyword word),
      length-map tokens (λ (t : Token). t.key),
    ) in
    let selected = offered_keys-Selected tree base word in
    let extend = Selected-Extend word (keys_at tree base) (offered_keys tree base word) selected in
    (
      selected,
      size,
      elim (Bool-cases (count == 0)) [
        | inl empty ↦
            rw (get_complete, empty)
              (no_keys (offered_keys tree base word) (ground (arith, empty, size)))
        | inr found ↦
            rw (get_complete, found)
              (complete_keys-Replies front_memory word (offered_keys tree base word) extend)
      ],
    )
  where
    no_keys : (ks : List (List ℕ)) → length ks ≡ 0 → ks ≡ []
    no_keys [] h = refl
    no_keys (k ∷ ks) h = absurd (omega arith)
