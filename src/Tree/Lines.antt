-- ===== src/Tree/Lines.antt =====
-- cli-tree.c: a command line split into words, and a description into its lines.
pub mod RoundTrip
use chaconne.Prelude.{
  ℕ, zero, suc, ◌+◌, Bool, true, false, not, ◌&&◌, List, [], ◌∷◌, ◌++◌, Option, none, some, ltb,
  ◌==◌, if◌then◌else◌, length,
}

-- The bytes at the front that a test takes, and the rest.
unfoldable pub split : (ℕ → Bool) → List ℕ → List ℕ × List ℕ
split test [] = ([], [])
split test (c ∷ cs) = elim (test c) [
  | true ↦ let rest = split test cs in (c ∷ rest.0, rest.1)
  | false ↦ ([], c ∷ cs)
]

-- `isspace` is that of ctype.h.
module _ (isspace : ℕ → Bool) where
  -- A byte that belongs to a word.
  unfoldable pub in_word : ℕ → Bool
  in_word c = not (c == b'|') && not (isspace c)

  -- `next_key` behind the blanks: the key, and the rest for the next call.
  unfoldable pub key_at : List ℕ → Option (List ℕ × List ℕ)
  unfolding split in_word
  key_at [] = none
  key_at (c ∷ cs) =
      if c == b'\n'
      then none
      else if c == b'|'
      then some (c ∷ cs, [])
      else some (split in_word (c ∷ cs))

  unfoldable pub next_key : List ℕ → Option (List ℕ × List ℕ)
  unfolding key_at split
  next_key line = key_at (split isspace line).1

  -- The loops of `line_get_args`, with rounds for fuel.
  unfoldable pub words_of : ℕ → List ℕ → Option (List (List ℕ))
  unfolding next_key
  words_of zero line = none
  words_of (suc n) line = elim (next_key line) [
    | none ↦ some []
    | some (word, rest) ↦ elim (words_of n rest) [ none ↦ none | some words ↦ some (word ∷ words) ]
  ]

  -- The words, or `none` for -ENOMEM, with the number of calls of `malloc` that succeed.
  unfoldable pub line_get_args : ℕ → List ℕ → Option (List (List ℕ))
  unfolding words_of
  line_get_args memory line = elim (words_of (length line + 1) line) [
    | none ↦ none
    | some [] ↦ some []
    | some (w ∷ words) ↦ if ltb memory (length (w ∷ words) + 1) then none else some (w ∷ words)
  ]

  -- The next line of a description, and the rest for the next call.
  unfoldable pub next_help : List ℕ → Option (List ℕ × List ℕ)
  unfolding split
  next_help desc = elim (split isspace desc).1 [
    | [] ↦ none
    | c ∷ cs ↦ some (split (λ b. not (b == b'\n')) (c ∷ cs))
  ]
