-- ===== src/Term/Words/Refines.antt =====
-- The commands of cli-term.c on words and whole lines, against the line and the screen.
use mathlib.Core.List.{reverse, reverse-reverse}
use chaconne.Prelude.{
  append-nil, ℕ, ◌≡◌, ◌<◌, ◌∙◌, ap, refl, sym, ◌+◌, ◌-◌, true, length, get_or, List, [], ◌∷◌, ◌++◌,
  arith, ltb,
}
use chaconne.Term.Buffer.{Editor, slice, store, copy_in, buf_size}
use chaconne.Term.Screen.{Screen}
use chaconne.Term.Edit.{backward_char, forward_char, delete_char, delete_backward_char, redraw_line}
use chaconne.Term.Edit.Refines.{
  Edited, delete_char-Edited, delete_backward_char-Edited, kill_line-Edited,
}
use chaconne.Term.Edit.Motion.{backward_char-Edited, forward_char-Edited}
use chaconne.Term.Buffer.Shifts.{slice-nil, slice-eq, copy_in-cell, copy_in-SameFrame}
use chaconne.Term.Edit.Replace.{IsPrintable, overwritten, slice-overwritten, redraw_line-Edited}
use chaconne.Term.Words.{backward_pure_word}
use chaconne.Term.Words.{
  blank_before, word_before, blank_after, word_after, beginning_of_line, end_of_line, backward_word,
  forward_word, backward_kill_word, forward_kill_word, kill_line_from_beginning, show_line,
}
use chaconne.Term.Words.Spans.{
  is_blank, is_word, push_front, push_back, forget, span_before, span_after, span, two_spans,
  span-all, span-all_back,
}

-- The four steps, in the form that the loops take.
step_backward :
    (s : Screen) (e : Editor) (l r : List ℕ) (c : ℕ)
    → Edited e s (l ++ c ∷ []) r
    → Edited (backward_char e) s l (c ∷ r)
step_backward s e l r c d = rw d.right at (backward_char-Edited e s d.valid d.shows l c d.left)

step_kill_backward :
    (s : Screen) (e : Editor) (l r : List ℕ) (c : ℕ)
    → Edited e s (l ++ c ∷ []) r
    → Edited (delete_backward_char e) s l r
step_kill_backward s e l r c d =
    rw d.right at (delete_backward_char-Edited e s d.valid d.shows l c d.left)

step_forward :
    (s : Screen) (e : Editor) (l r : List ℕ) (c : ℕ)
    → Edited e s l (c ∷ r)
    → Edited (forward_char e) s (l ++ c ∷ []) r
step_forward s e l r c d = rw d.left at (forward_char-Edited e s d.valid d.shows c r d.right)

step_kill_forward :
    (s : Screen) (e : Editor) (l r : List ℕ) (c : ℕ)
    → Edited e s l (c ∷ r)
    → Edited (delete_char e) s l r
step_kill_forward s e l r c d = rw d.left at (delete_char-Edited e s d.valid d.shows c r d.right)

module _ (e : Editor) (s : Screen) (l r : List ℕ) where
  -- On a valid line that the screen shows, the run of blanks before the cursor and the run of
  -- other bytes before that come to stand behind the cursor; the line stays valid and the screen
  -- shows it.
  pub backward_word-Edited :
      Edited e s (reverse l) r
      → Edited
          (backward_word e)
          s
          (reverse (two_spans push_front l r).0)
          (two_spans push_front l r).1
  unfolding backward_word
  backward_word-Edited d =
      span_before is_word push_front word_before backward_char s (λ x. refl) (step_backward s) _ _ _
        _ (omega arith)
        (span_before is_blank push_front blank_before backward_char s (λ x. refl) (step_backward s)
          e.cp e l r (omega arith) d)

  -- Backward over a word only.
  pub backward_pure_word-Edited :
      Edited e s (reverse l) r
      → Edited
          (backward_pure_word e)
          s
          (reverse (span is_word push_front l r).0)
          (span is_word push_front l r).1
  unfolding backward_pure_word
  backward_pure_word-Edited d =
      span_before is_word push_front word_before backward_char s (λ x. refl) (step_backward s) e.cp
        e l r (omega arith) d

  -- On a valid line that the screen shows, the run of blanks before the cursor and the run of
  -- other bytes before that are deleted; the line stays valid and the screen shows it.
  pub backward_kill_word-Edited :
      Edited e s (reverse l) r
      → Edited (backward_kill_word e) s (reverse (two_spans forget l r).0) (two_spans forget l r).1
  unfolding backward_kill_word
  backward_kill_word-Edited d =
      span_before is_word forget word_before delete_backward_char s (λ x. refl)
        (step_kill_backward s) _ _ _ _ (omega arith)
        (span_before is_blank forget blank_before delete_backward_char s (λ x. refl)
          (step_kill_backward s) e.cp e l r (omega arith) d)

  -- On a valid line that the screen shows, the run of blanks behind the cursor and the run of
  -- other bytes behind that come to stand before the cursor; the line stays valid and the screen
  -- shows it.
  pub forward_word-Edited :
      Edited e s l r
      → Edited (forward_word e) s (two_spans push_back r l).1 (two_spans push_back r l).0
  unfolding forward_word
  forward_word-Edited d =
      span_after is_word push_back word_after forward_char s (λ x. refl) (step_forward s) _ _ _ _
        (omega arith)
        (span_after is_blank push_back blank_after forward_char s (λ x. refl) (step_forward s)
          (e.len - e.cp) e l r (omega arith) d)

  -- On a valid line that the screen shows, the run of blanks behind the cursor and the run of
  -- other bytes behind that are deleted; the line stays valid and the screen shows it.
  pub forward_kill_word-Edited :
      Edited e s l r
      → Edited (forward_kill_word e) s (two_spans forget r l).1 (two_spans forget r l).0
  unfolding forward_kill_word
  forward_kill_word-Edited d =
      span_after is_word forget word_after delete_char s (λ x. refl) (step_kill_forward s) _ _ _ _
        (omega arith)
        (span_after is_blank forget blank_after delete_char s (λ x. refl) (step_kill_forward s)
          (e.len - e.cp) e l r (omega arith) d)

  -- The whole line comes to stand behind the cursor, or before it.
  pub beginning_of_line-Edited : Edited e s l r → Edited (beginning_of_line e) s [] (l ++ r)
  unfolding beginning_of_line
  beginning_of_line-Edited d =
      let l' = reverse l in
      let shape : l ≡ reverse l' = sym (reverse-reverse l) in
      let run =
        span_before (λ _. true) push_front (λ x. ltb 0 x.cp) backward_char s (λ x. ground arith)
          (step_backward s) e.cp e l' r (omega arith) (rw shape at d) in
      rw (span-all l' r, reverse-reverse l) at run

  pub end_of_line-Edited : Edited e s l r → Edited (end_of_line e) s (l ++ r) []
  unfolding end_of_line
  end_of_line-Edited d = rw (span-all_back r l) at (
      span_after (λ _. true) push_back (λ x. ltb x.cp x.len) forward_char s (λ x. ground arith)
        (step_forward s) (e.len - e.cp) e l r (omega arith) d)

  -- The line is emptied, on the screen too.
  pub kill_line_from_beginning-Edited : Edited e s l r → Edited (kill_line_from_beginning e) s [] []
  unfolding kill_line_from_beginning
  kill_line_from_beginning-Edited d =
      let d' = beginning_of_line-Edited d in
      rw d'.left at (kill_line-Edited (beginning_of_line e) s d'.valid d'.shows)

-- The copy of a line into an empty buffer, with its redisplay.
show_line_from :
    (k : Editor) (s : Screen) (line : List ℕ)
    → Edited k s [] []
    → IsPrintable line
    → length line < buf_size
    → Edited
        (redraw_line (
          store
            (record (copy_in line 0 k) { cp = length line; len = length line })
            (length line)
            0))
        s
        line
        []
unfolding store
show_line_from k s line d p fits =
    let n = length line in
    let v = d.valid in
    let t = d.shows in
    let at : k.cp ≡ 0 = slice-nil k.cell 0 k.cp d.left in
    let end : k.len ≡ 0 = omega (arith, slice-nil k.cell k.cp (k.len - k.cp) d.right, v.ordered) in
    let frame = copy_in-SameFrame line 0 k (omega (arith, v.size)) in
    let m = store (record (copy_in line 0 k) { cp = n; len = n }) n 0 in
    let cells : (j : ℕ) → m.cell j ≡ overwritten k.cell 0 line j =
      λ j. ground (arith, copy_in-cell line 0 k j) in
    let text : slice m.cell 0 n ≡ line =
      slice-eq m.cell (overwritten k.cell 0 line) 0 0 n (λ j h. cells (0 + j))
      ∙ (let z : n ≡ 0 + n = omega arith in rw (← z) at (slice-overwritten k.cell 0 line)) in
    let none : n - n ≡ 0 = omega arith in
    let done =
      redraw_line-Edited m s
        (record {
          ordered = omega arith;
          room = omega (arith, frame.max, v.size);
          size = frame.max ∙ v.size;
          safe = ground (arith, frame.overrun, v.safe, frame.max, v.size);
          ended = ground arith;
          printable = λ j h. ground (
            arith,
            cells j,
            p j,
            ap (λ i. get_or line i 0) (let q : j - 0 ≡ j = omega arith in q),
          );
        })
        (rw frame.out (t.cursor ∙ at)) (λ j. rw frame.out (t.blank j (omega (arith, end)))) in
    let joined : slice m.cell 0 n ++ slice m.cell n (n - n) ≡ line =
      rw none (append-nil (slice m.cell 0 n) ∙ text) in
    rw joined at done

-- On a valid line that the screen shows, a printable line that fits the buffer replaces the whole
-- line, with the cursor at its end; the line stays valid and the screen shows it.
pub show_line-Edited :
    (e : Editor) (s : Screen) (l r line : List ℕ)
    → Edited e s l r
    → IsPrintable line
    → length line < buf_size
    → Edited (show_line e line) s line []
unfolding show_line store
show_line-Edited e s l r line d p fits =
    let d' = kill_line_from_beginning-Edited e s l r d in
    show_line_from (kill_line_from_beginning e) s line d' p fits
