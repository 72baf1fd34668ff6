-- ===== src/Term/Edit/Refines.antt =====
-- The editing commands of cli-term.c against the line as two lists, what stands before the cursor
-- and what stands behind it, and against the screen.
use chaconne.Prelude.{
  ℕ, ◌+◌, ◌-◌, ◌≤◌, ◌<◌, ◌≡◌, sym, ◌∙◌, false, ◌&&◌, List, [], ◌∷◌, ◌++◌, arith, ltb, leb,
  if◌then◌else◌,
}
use chaconne.Term.Buffer.{Editor, slice, buf_size}
use chaconne.Term.Buffer.Shifts.{slice-eq, slice-snoc, slice-cons, slice-last}
use chaconne.Term.Screen.{
  Screen, play, draw, Shows, play-append, play-backspaces, play-tail, play-tail_blank,
  play-replicate,
}
use chaconne.Term.Edit.{space, delete_char, delete_backward_char, self_insert, kill_line}
use chaconne.Term.Edit.Effects.{
  Effect, removed, inserted, delete_char-Effect, delete_backward_char-Effect, self_insert-Effect,
  kill_line-Effect,
}

-- The line fits its buffer with a NUL behind it, holds printable bytes, and no write was outside.
pub record IsValid (e : Editor) : Type 0 where
  pub ordered : e.cp ≤ e.len
  pub room : e.len < e.max
  pub size : e.max ≡ buf_size
  pub safe : e.overrun ≡ false
  pub ended : e.cell e.len ≡ 0
  pub printable : (j : ℕ) → j < e.len → (31 < e.cell j) × (e.cell j < 127)

abbrev pub before : Editor → List ℕ
before e = slice e.cell 0 e.cp

abbrev pub after : Editor → List ℕ
after e = slice e.cell e.cp (e.len - e.cp)

-- `e` is valid with `l` before the cursor and `r` behind it, and a screen that showed `s` when the
-- output began shows exactly that line now.
pub record Edited (e : Editor) (s : Screen) (l r : List ℕ) : Type 0 where
  pub valid : IsValid e
  pub left : before e ≡ l
  pub right : after e ≡ r
  pub shows : Shows e (play e.out s)

-- From what a command does to each byte, to the two lists and the screen.
pub Effect-Edited :
    (e e' : Editor) (at end : ℕ) (bytes : List ℕ) (f : ℕ → ℕ) (s : Screen) (l r : List ℕ)
    → Effect e e' at end bytes f
    → IsValid e
    → at ≤ end
    → end < e.max
    → f end ≡ 0
    → ((j : ℕ) → j < end → (31 < f j) × (f j < 127))
    → slice f 0 at ≡ l
    → slice f at (end - at) ≡ r
    → (play bytes (play e.out s)).col ≡ at
    → ((j : ℕ) → j < end → (play bytes (play e.out s)).shown j ≡ f j)
    → ((j : ℕ) → end ≤ j → (play bytes (play e.out s)).shown j ≡ 32)
    → Edited e' s l r
Effect-Edited e e' at end bytes f s l r k v le lt ended printable left right col text blank =
    record {
      valid = record {
        ordered = rw (k.cp, k.len) le;
        room = rw (k.len, k.max) lt;
        size = k.max ∙ v.size;
        safe = k.overrun ∙ v.safe;
        ended = rw k.len (k.cell end ∙ ended);
        printable = λ j h. rw (k.cell j) (printable j (rw (← k.len) h));
      };
      left = rw k.cp (slice-eq e'.cell f 0 0 at (λ j h. k.cell (0 + j)) ∙ left);
      right =
          rw (k.len, k.cp) (slice-eq e'.cell f at at (end - at) (λ j h. k.cell (at + j)) ∙ right);
      shows =
          rw (k.out, play-append)
            (record {
              cursor = col ∙ sym k.cp;
              text = λ j h. text j (rw (← k.len) h) ∙ sym (k.cell j);
              blank = λ j h. blank j (rw (← k.len) h);
            });
    }

module _ (e : Editor) (s : Screen) (v : IsValid e) (t : Shows e (play e.out s)) where
  -- On a valid line that the screen shows, a printable byte, if the buffer has room for one more,
  -- comes to stand before the cursor; the line stays valid and the screen shows it.
  pub self_insert-Edited :
      (c : ℕ)
      → 31 < c
      → c < 127
      → e.len + 1 < e.max
      → Edited (self_insert e c) s (before e ++ c ∷ []) (after e)
  unfolding play
  self_insert-Edited c lo hi room =
      let f = self_insert-Effect e c v.ordered room in
      let e' = self_insert e c in
      let drawn =
        play-tail e'.cell (e.cp + 1) (e.len - e.cp) (draw c (play e.out s))
          (λ j l. ground (arith, f.cell (e.cp + 1 + j), v.printable (e.cp + j))) in
      Effect-Edited e e' _ _ _ _ s _ _ f v (omega (arith, v.ordered)) room (ground arith)
        (λ j h. ground (arith, v.printable j, v.printable (j - 1)))
        (slice-snoc (inserted e.cell e.cp e.len c) 0 e.cp
          ∙ ground (
            arith,
            slice-eq (inserted e.cell e.cp e.len c) e.cell 0 0 e.cp (λ j h. ground arith),
          ))
        (let mv : e.len + 1 - (e.cp + 1) ≡ e.len - e.cp = omega arith in
          rw mv (
            slice-eq (inserted e.cell e.cp e.len c) e.cell (e.cp + 1) e.cp (e.len - e.cp)
              (λ j h. ground arith)))
        (ground (arith, drawn.0, t.cursor))
        (λ j h. ground (arith, drawn.1 j, t.cursor, t.text j, f.cell j))
        (λ j h. ground (arith, drawn.1 j, t.cursor, t.blank j))

  -- A full buffer refuses the byte.
  pub self_insert-full : (c : ℕ) → e.max ≤ e.len + 1 → self_insert e c ≡ e
  unfolding self_insert
  self_insert-full c h = ground arith

  -- On a valid line that the screen shows, the byte behind the cursor goes away and all else of
  -- the line stays; the line stays valid and the screen shows it.
  pub delete_char-Edited :
      (c : ℕ) (r : List ℕ) → after e ≡ c ∷ r → Edited (delete_char e) s (before e) r
  unfolding play
  delete_char-Edited c r h =
      let tail = slice-cons e.cell e.cp (e.len - e.cp) c r h in
      let lt : e.cp < e.len = omega (arith, tail.0) in
      let f = delete_char-Effect e lt v.room in
      let e' = delete_char e in
      let g = removed e.cell e.cp (e.len - 1) in
      let n = e.len - 1 - e.cp in
      let drawn =
        play-tail_blank e'.cell e.cp n (play e.out s)
          (λ j l. ground (arith, f.cell (e.cp + j), v.printable (e.cp + j + 1))) in
      Effect-Edited e e' _ _ _ g s _ _ f v (omega arith) (omega (arith, v.room)) (ground arith)
        (λ j l. ground (arith, v.printable j, v.printable (j + 1)))
        (slice-eq g e.cell 0 0 e.cp (λ j l. ground arith))
        (let m : e.len - e.cp - 1 ≡ n = omega arith in
          slice-eq g e.cell e.cp (e.cp + 1) n (λ j l. ground arith) ∙ rw m at tail.2)
        (ground (arith, drawn.0, t.cursor))
        (λ j l. ground (arith, drawn.1 j, t.cursor, t.text j, f.cell j))
        (λ j l. ground (arith, drawn.1 j, t.cursor, t.blank j))

  -- On a valid line that the screen shows, the byte before the cursor goes away and all else of
  -- the line stays; the line stays valid and the screen shows it.
  pub delete_backward_char-Edited :
      (l : List ℕ) (c : ℕ) → before e ≡ l ++ c ∷ [] → Edited (delete_backward_char e) s l (after e)
  unfolding play
  delete_backward_char-Edited l c h =
      let head = slice-last e.cell 0 e.cp l c h in
      let pos : 0 < e.cp = head.0 in
      let f = delete_backward_char-Effect e pos v.ordered v.room in
      let e' = delete_backward_char e in
      let g = removed e.cell (e.cp - 1) (e.len - 1) in
      let n = e.len - 1 - (e.cp - 1) in
      let drawn =
        play-tail_blank e'.cell (e.cp - 1) n (draw 8 (play e.out s))
          (λ j l. ground (arith, f.cell (e.cp - 1 + j), v.printable (e.cp + j))) in
      Effect-Edited e e' _ _ _ g s _ _ f v (omega (arith, v.ordered)) (omega (arith, v.room))
        (ground arith) (λ j l. ground (arith, v.printable j, v.printable (j + 1)))
        (slice-eq g e.cell 0 0 (e.cp - 1) (λ j l. ground arith) ∙ head.1)
        (let m : n ≡ e.len - e.cp = omega (arith, v.ordered) in
          rw m
            (slice-eq g e.cell (e.cp - 1) e.cp (e.len - e.cp) (λ j l. ground (arith, v.ordered))))
        (ground (arith, drawn.0, t.cursor))
        (λ j l. ground (arith, drawn.1 j, t.cursor, t.text j, f.cell j, v.ordered))
        (λ j l. ground (arith, drawn.1 j, t.cursor, t.blank j, v.ordered))

  -- On a valid line that the screen shows, everything behind the cursor goes away and what stands
  -- before it stays; the line stays valid and the screen shows it.
  pub kill_line-Edited : Edited (kill_line e) s (before e) []
  kill_line-Edited =
      let f = kill_line-Effect e v.ordered v.room in
      let n = e.len - e.cp in
      let u = play e.out s in
      let blanks = play-replicate n space u (λ q. absurd (omega arith)) in
      let g = λ (j : ℕ). if leb e.cp j && ltb j e.len then 0 else e.cell j in
      Effect-Edited e (kill_line e) _ _ _ g s _ _ f v (omega arith)
        (omega (arith, v.ordered, v.room)) (ground (arith, v.ordered, v.ended))
        (λ j l. ground (arith, v.printable j, v.ordered))
        (slice-eq g e.cell 0 0 e.cp (λ j l. ground arith))
        (let none : e.cp - e.cp ≡ 0 = omega arith in rw none)
        (rw (play-append, play-backspaces) (omega (arith, blanks.0, t.cursor)))
        (λ j l.
          rw (play-append, play-backspaces)
            (ground (arith, blanks.1 j, t.cursor, t.text j, v.ordered)))
        (λ j l.
          rw (play-append, play-backspaces)
            (ground (arith, blanks.1 j, t.cursor, t.blank j, v.ordered)))
