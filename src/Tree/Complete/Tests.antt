-- ===== src/Tree/Complete/Tests.antt =====
-- Completions from a tree with one command.
use mathlib.Core.Option.{some-injective}
use chaconne.Prelude.{
  ℕ, zero, suc, ◌+◌, ◌≤◌, ◌<◌, ◌≡◌, refl, ap, Bool, true, false, ◌&&◌, ◌||◌, List, [], ◌∷◌, none,
  some, arith, leb, ◌==◌, length,
}
use chaconne.Term.Edit.Replace.{IsPrintable}
use chaconne.Term.Session.{full_match, match, list_match, other}
use chaconne.Tree.{Tree, literal, node, blank_node}
use chaconne.Tree.Lines.{line_get_args}
use chaconne.Tree.Complete.{cmd_complete, get_complete, token_count, argv_size}
use chaconne.Tree.Complete.Offers.{Selected, keys_at, offered_keys}
use chaconne.Tree.Complete.Keys.{Replies, get_complete-Replies}
use chaconne.Tree.Complete.Printable.{PrintableKeys}
use chaconne.Tree.Complete.Serves.{Serves, cmd_complete-Serves}

abbrev isspace : ℕ → Bool
isspace c = (c == 32) || (leb 9 c && leb c 13)

only_space : (c : ℕ) → 31 < c → isspace c ≡ (c == 32)
only_space c h = ground (arith, h)

abbrev one_command : Tree
one_command =
    record blank_node { children = 1 ∷ [] }
    ∷ record blank_node {
      tokens = record { key = b'l' ∷ b's' ∷ []; desc = b'h' ∷ []; type = literal } ∷ [];
      func = some 0;
    }
    ∷ []

one_command-PrintableKeys : PrintableKeys one_command
unfolding node
one_command-PrintableKeys zero = tt
one_command-PrintableKeys (suc zero) = (ls, tt)
  where
    ls : IsPrintable (b'l' ∷ b's' ∷ [])
    ls zero h = (omega arith, omega arith)
    ls (suc zero) h = (omega arith, omega arith)
    ls (suc (suc j)) h = absurd (omega (arith, h))
one_command-PrintableKeys (suc (suc id)) = tt

complete_ls :
    cmd_complete isspace 9 true true one_command (32 ∷ b'l' ∷ [])
    ≡ some (full_match (b'l' ∷ b's' ∷ []))
unfolding cmd_complete node
complete_ls = refl

-- A bar ends the work, whatever stands behind it.
complete_pipe : cmd_complete isspace 9 true true one_command (b'l' ∷ b'|' ∷ []) ≡ some other
unfolding cmd_complete node
complete_pipe = refl

-- Without memory for the front `ls` of two keys the code writes through NULL.
abbrev two_commands : Tree
two_commands =
    record blank_node { children = 1 ∷ 2 ∷ [] }
    ∷ record blank_node {
      tokens = record { key = b'l' ∷ b's' ∷ b'a' ∷ []; desc = []; type = literal } ∷ [];
    }
    ∷ record blank_node {
      tokens = record { key = b'l' ∷ b's' ∷ b'b' ∷ []; desc = []; type = literal } ∷ [];
    }
    ∷ []

complete_front :
    cmd_complete isspace 9 true true two_commands (b'l' ∷ []) ≡ some (match (b'l' ∷ b's' ∷ []))
unfolding cmd_complete node
complete_front = refl

-- The front is the word already.
complete_both :
    cmd_complete isspace 9 true true two_commands (b'l' ∷ b's' ∷ [])
    ≡ some (list_match ((b'l' ∷ b's' ∷ b'a' ∷ []) ∷ (b'l' ∷ b's' ∷ b'b' ∷ []) ∷ []))
unfolding cmd_complete node
complete_both = refl

complete_fault : cmd_complete isspace 9 true false two_commands (b'l' ∷ []) ≡ none
unfolding cmd_complete node
complete_fault = refl

space_l-IsPrintable : IsPrintable (32 ∷ b'l' ∷ [])
space_l-IsPrintable zero h = (omega arith, omega arith)
space_l-IsPrintable (suc zero) h = (omega arith, omega arith)
space_l-IsPrintable (suc (suc j)) h = absurd (omega (arith, h))

space_l-few :
    (words : List (List ℕ))
    → line_get_args isspace 9 (32 ∷ b'l' ∷ []) ≡ some words
    → length words ≤ argv_size
unfolding line_get_args
space_l-few words e =
    let one : (b'l' ∷ []) ∷ [] ≡ words = some-injective ((b'l' ∷ []) ∷ []) words e in
    omega (arith, ap length one)

cmd_complete-Serves_example :
    Serves true (32 ∷ b'l' ∷ []) (cmd_complete isspace 9 true true one_command (32 ∷ b'l' ∷ []))
cmd_complete-Serves_example =
    cmd_complete-Serves isspace only_space 9 true true one_command (32 ∷ b'l' ∷ [])
      one_command-PrintableKeys space_l-IsPrintable space_l-few

get_complete-Replies_example :
    Selected (b'l' ∷ []) (keys_at two_commands 0) (offered_keys two_commands 0 (b'l' ∷ []))
    × (token_count two_commands (node two_commands 0).children (b'l' ∷ [])
          + token_count two_commands (node two_commands 0).keyword (b'l' ∷ [])
        ≡ length (offered_keys two_commands 0 (b'l' ∷ [])))
    × Replies true
        (b'l' ∷ [])
        (offered_keys two_commands 0 (b'l' ∷ []))
        (get_complete true true two_commands 0 (b'l' ∷ []))
get_complete-Replies_example = get_complete-Replies two_commands 0 (b'l' ∷ []) true
