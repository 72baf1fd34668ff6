-- ===== src/Term/Edit.antt =====
-- cli-term.c: the editing commands of one line.
pub mod Effects
pub mod Refines
pub mod Motion
pub mod Replace
use chaconne.Prelude.{
  ℕ, zero, suc, ◌+◌, ◌-◌, List, ◌++◌, leb, ltb, ◌==◌, if◌then◌else◌, length, take, min,
}
use chaconne.Term.Buffer.{
  Editor, slice, store, putc, put_cells, putc_times, shift_left, shift_right, clear_cells, copy_in,
}

abbrev pub backspace : ℕ
backspace = 8

abbrev pub space : ℕ
space = 32

unfoldable pub backward_char : Editor → Editor
unfolding putc
backward_char e = if e.cp == 0 then e else putc (record e { cp = e.cp - 1 }) backspace

unfoldable pub forward_char : Editor → Editor
unfolding putc
forward_char e = if ltb e.cp e.len then record (putc e (e.cell e.cp)) { cp = e.cp + 1 } else e

-- The redisplay that both deletions end with: the tail, a blank over the last column, and back.
-- `in->len--; in->buf[in->len] = '\0'` stands before it.
unfoldable pub delete_char : Editor → Editor
unfolding putc putc_times put_cells store shift_left
delete_char e =
    if ltb e.cp e.len
    then (let moved = shift_left (e.len - (e.cp + 1)) (e.cp + 1) e in
        let short = store (record moved { len = e.len - 1 }) (e.len - 1) 0 in
        let mv = short.len - short.cp in
        let shown = putc (put_cells short short.cp mv) space in putc_times (mv + 1) backspace shown)
    else e

unfoldable pub delete_backward_char : Editor → Editor
unfolding putc putc_times put_cells store shift_left
delete_backward_char e =
    if e.cp == 0
    then e
    else (let moved = shift_left (e.len - e.cp) e.cp e in
        let short = store (record moved { cp = e.cp - 1; len = e.len - 1 }) (e.len - 1) 0 in
        let mv = short.len - short.cp in
        let shown = putc (put_cells (putc short backspace) short.cp mv) space in
        putc_times (mv + 1) backspace shown)

unfoldable pub self_insert : Editor → ℕ → Editor
unfolding putc putc_times put_cells store shift_right
self_insert e c =
    if leb e.max (e.len + 1)
    then e
    else (let moved = if ltb e.cp e.len then shift_right (e.len + 1 - e.cp) (e.len + 1) e else e in
        let typed = record (store moved e.cp c) { cp = e.cp + 1; len = e.len + 1 } in
        let ended = store typed typed.len 0 in
        let mv = ended.len - ended.cp in
        let shown = putc ended c in
        if mv == 0 then shown else putc_times mv backspace (put_cells shown ended.cp mv))

unfoldable pub kill_line : Editor → Editor
unfolding putc_times clear_cells
kill_line e =
    let n = e.len - e.cp in
    if n == 0
    then e
    else (let blanked = putc_times n backspace (putc_times n space e) in
        record (clear_cells n e.cp blanked) { len = e.cp })

unfoldable pub redraw_line : Editor → Editor
unfolding put_cells
redraw_line e = record (put_cells e 0 e.len) { cp = e.len }

-- `n > in->max - in->cp - 1` clips the word to the room behind the cursor.
unfoldable pub insert_word_overwrite : Editor → List ℕ → Editor
unfolding store copy_in
insert_word_overwrite e str =
    let word = take (e.max - e.cp - 1) str in
    let copied = copy_in word e.cp e in
    let moved = record copied { cp = e.cp + length word; len = e.cp + length word } in
    let ended = store moved moved.len 0 in record ended { out = ended.out ++ word }
