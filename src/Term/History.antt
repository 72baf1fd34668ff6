-- ===== src/Term/History.antt =====
-- cli-term.c: `struct history`, a ring of lines, and its operations.
pub mod Ring
use chaconne.Prelude.{
  ℕ, zero, suc, ◌+◌, ◌-◌, Bool, true, false, not, ◌&&◌, List, [], ◌∷◌, ◌++◌, Option, none, some,
  ◌==◌, if◌then◌else◌,
}

-- `TERM_MAXHIST`
abbrev pub max_hist : ℕ
max_hist = 32

-- A slot that holds NULL is `none`.
pub record History : Type 0 where
  pub buf : ℕ → Option (List ℕ)
  pub cp : ℕ
  pub index : ℕ

-- `strcmp(a, b) == 0`
unfoldable pub same_text : List ℕ → List ℕ → Bool
same_text [] [] = true
same_text [] (b ∷ bs) = false
same_text (a ∷ as') [] = false
same_text (a ∷ as') (b ∷ bs) = (a == b) && same_text as' bs

abbrev pub put_slot : (ℕ → Option (List ℕ)) → ℕ → Option (List ℕ) → ℕ → Option (List ℕ)
put_slot f i v j = if i == j then v else f j

-- The line at `i` becomes the current one, unless the slot is empty.
unfoldable pub visit : History → ℕ → Option (List ℕ) → Option (List ℕ) × History
visit h i none = (none, h)
visit h i (some line) = (some line, record h { cp = i })

unfoldable pub history_previous : History → Option (List ℕ) × History
unfolding visit
history_previous h =
    let try_index = if h.cp == 0 then max_hist - 1 else h.cp - 1 in
    if try_index == h.index then (none, h) else visit h try_index (h.buf try_index)

unfoldable pub history_next : History → Option (List ℕ) × History
unfolding visit
history_next h =
    if h.cp == h.index
    then (none, h)
    else (let try_index = if h.cp == max_hist - 1 then 0 else h.cp + 1 in
        if try_index == h.index
        then (some [], record h { cp = h.index })
        else visit h try_index (h.buf try_index))

-- Whether the slot holds this very line.
unfoldable pub holds_line : Option (List ℕ) → List ℕ → Bool
unfolding same_text
holds_line none line = false
holds_line (some old) line = same_text line old

unfoldable pub advance : ℕ → ℕ
advance index = if index + 1 == max_hist then 0 else index + 1

-- `history_add`; `memory` tells whether `strdup` finds memory.
unfoldable pub history_add : Bool → History → List ℕ → History
unfolding holds_line advance
history_add memory h [] = h
history_add memory h (c ∷ line) =
    let newest = if h.index == 0 then max_hist - 1 else h.index - 1 in
    if holds_line (h.buf newest) (c ∷ line)
    then record h { cp = h.index }
    else if memory
    then record {
      buf = put_slot h.buf h.index (some (c ∷ line));
      cp = advance h.index;
      index = advance h.index;
    }
    else record h { buf = put_slot h.buf h.index none }

unfoldable pub slot_lines : Option (List ℕ) → List (List ℕ)
slot_lines none = []
slot_lines (some line) = line ∷ []

-- The loop of `history_print`, with rounds for fuel and the lines that it prints; `none` if the
-- rounds do not suffice.
unfoldable pub print_loop : ℕ → History → ℕ → Option (List (List ℕ))
unfolding slot_lines
print_loop zero h index = none
print_loop (suc n) h index = if index == h.index then some [] else elim (index == max_hist) [
  | true ↦ print_loop n h 0
  | false ↦ elim (print_loop n h (index + 1)) [
    | none ↦ none
    | some rest ↦ some (slot_lines (h.buf index) ++ rest)
  ]
]

unfoldable pub history_print : History → Option (List (List ℕ))
unfolding print_loop
history_print h = print_loop (max_hist + 1) h (h.index + 1)
