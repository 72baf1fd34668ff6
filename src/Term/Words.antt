-- ===== src/Term/Words.antt =====
-- cli-term.c: the commands that repeat an editing command over a word or a line.
pub mod Spans
pub mod Refines
use chaconne.Prelude.{ℕ, zero, suc, ◌-◌, Bool, true, false, not, ◌&&◌, List, ltb, ◌==◌, length}
use chaconne.Term.Buffer.{Editor, store, copy_in}
use chaconne.Term.Edit.{
  backward_char, forward_char, delete_char, delete_backward_char, kill_line, redraw_line, space,
}

-- `while (test) step;` with rounds for fuel
unfoldable pub repeat_while : ℕ → (Editor → Bool) → (Editor → Editor) → Editor → Editor
repeat_while zero test step e = e
repeat_while (suc n) test step e = elim (test e) [
  | true ↦ repeat_while n test step (step e)
  | false ↦ e
]

-- `in->cp > 0 && in->buf[in->cp - 1] == ' '`, and its sibling with `!= ' '`
unfoldable pub blank_before : Editor → Bool
blank_before e = ltb 0 e.cp && (e.cell (e.cp - 1) == space)

unfoldable pub word_before : Editor → Bool
word_before e = ltb 0 e.cp && not (e.cell (e.cp - 1) == space)

-- `in->cp < in->len && in->buf[in->cp] == ' '`, and its sibling with `!= ' '`
unfoldable pub blank_after : Editor → Bool
blank_after e = ltb e.cp e.len && (e.cell e.cp == space)

unfoldable pub word_after : Editor → Bool
word_after e = ltb e.cp e.len && not (e.cell e.cp == space)

-- Each round moves the cursor one column left, so `cp` rounds are enough.
unfoldable pub beginning_of_line : Editor → Editor
unfolding repeat_while backward_char
beginning_of_line e = repeat_while e.cp (λ x. ltb 0 x.cp) backward_char e

unfoldable pub end_of_line : Editor → Editor
unfolding repeat_while forward_char
end_of_line e = repeat_while (e.len - e.cp) (λ x. ltb x.cp x.len) forward_char e

unfoldable pub backward_pure_word : Editor → Editor
unfolding repeat_while backward_char word_before
backward_pure_word e = repeat_while e.cp word_before backward_char e

unfoldable pub backward_word : Editor → Editor
unfolding repeat_while backward_char word_before blank_before
backward_word e =
    let skipped = repeat_while e.cp blank_before backward_char e in
    repeat_while skipped.cp word_before backward_char skipped

unfoldable pub forward_word : Editor → Editor
unfolding repeat_while forward_char word_after blank_after
forward_word e =
    let skipped = repeat_while (e.len - e.cp) blank_after forward_char e in
    repeat_while (skipped.len - skipped.cp) word_after forward_char skipped

unfoldable pub backward_kill_word : Editor → Editor
unfolding repeat_while delete_backward_char word_before blank_before
backward_kill_word e =
    let skipped = repeat_while e.cp blank_before delete_backward_char e in
    repeat_while skipped.cp word_before delete_backward_char skipped

unfoldable pub forward_kill_word : Editor → Editor
unfolding repeat_while delete_char word_after blank_after
forward_kill_word e =
    let skipped = repeat_while (e.len - e.cp) blank_after delete_char e in
    repeat_while (skipped.len - skipped.cp) word_after delete_char skipped

unfoldable pub kill_line_from_beginning : Editor → Editor
unfolding beginning_of_line kill_line
kill_line_from_beginning e = kill_line (beginning_of_line e)

-- `term_history_print`: the line of the history replaces the line that is edited.
unfoldable pub show_line : Editor → List ℕ → Editor
unfolding kill_line_from_beginning store copy_in redraw_line
show_line e line =
    let copied = copy_in line 0 (kill_line_from_beginning e) in
    let moved = record copied { cp = length line; len = length line } in
    redraw_line (store moved (length line) 0)
