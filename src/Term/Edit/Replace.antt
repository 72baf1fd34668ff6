-- ===== src/Term/Edit/Replace.antt =====
-- The commands of cli-term.c that put whole words or lines into the buffer.
use chaconne.Prelude.{
  ℕ, zero, suc, ◌+◌, ◌-◌, ◌≤◌, ◌<◌, ◌≡◌, refl, sym, ◌∙◌, ap, ◌&&◌, List, [], ◌∷◌, ◌++◌, arith, ltb,
  leb, ◌==◌, if◌then◌else◌, length, get_or, take, length-take,
}
use chaconne.Term.Buffer.{Editor, slice, store}
use chaconne.Term.Buffer.Shifts.{
  slice-eq, slice-split, slice-get_or, copy_in-cell, copy_in-SameFrame,
}
use chaconne.Term.Screen.{Screen, play, Shows, play-slice}
use chaconne.Term.Edit.{insert_word_overwrite, redraw_line}
use chaconne.Term.Edit.Effects.{Effect}
use chaconne.Term.Edit.Refines.{IsValid, before, after, Edited, Effect-Edited}

abbrev pub IsPrintable : List ℕ → Type 0
IsPrintable w = (j : ℕ) → j < length w → (31 < get_or w j 0) × (get_or w j 0 < 127)

-- `word` written over the bytes from `i` on, with a NUL behind it.
abbrev pub overwritten : (ℕ → ℕ) → ℕ → List ℕ → ℕ → ℕ
overwritten f i word j =
    if j == i + length word
    then 0
    else if leb i j && ltb j (i + length word)
    then get_or word (j - i) 0
    else f j

get_or-take : (m : ℕ) (w : List ℕ) (j : ℕ) → j < m → get_or (take m w) j 0 ≡ get_or w j 0
get_or-take zero w j h = absurd (omega arith)
get_or-take (suc m) [] j h = refl
get_or-take (suc m) (c ∷ w) zero h = refl
get_or-take (suc m) (c ∷ w) (suc j) h = get_or-take m w j (omega arith)

pub take-IsPrintable : (m : ℕ) (w : List ℕ) → IsPrintable w → IsPrintable (take m w)
take-IsPrintable m w p j h =
    rw (get_or-take m w j (omega (arith, length-take m w))) (p j (omega (arith, length-take m w)))

pub slice-overwritten :
    (f : ℕ → ℕ) (i : ℕ) (word : List ℕ)
    → slice (overwritten f i word) 0 (i + length word) ≡ slice f 0 i ++ word
slice-overwritten f i word =
    let g = overwritten f i word in
    let kept : slice g 0 i ≡ slice f 0 i = slice-eq g f 0 0 i (λ j h. ground arith) in
    let new : slice g (0 + i) (length word) ≡ word =
      slice-eq g (λ j. get_or word j 0) (0 + i) 0 (length word)
        (λ j h.
          let e : 0 + i + j - i ≡ 0 + j = omega arith in
          ground (arith, ap (λ k. get_or word k 0) e))
      ∙ slice-get_or word in
    slice-split g 0 i (length word) ∙ rw (kept, new)

-- Drawing a printable word.
pub play-word :
    (w : List ℕ) (s : Screen)
    → IsPrintable w
    → ((play w s).col ≡ s.col + length w)
      × ((j : ℕ)
          → (play w s).shown j ≡ (
              if leb s.col j && ltb j (s.col + length w)
              then get_or w (j - s.col) 0
              else s.shown j))
play-word w s p =
    let drawn = play-slice (λ j. get_or w j 0) 0 (length w) s (λ j h. ground (arith, p j)) in
    let same = slice-get_or w in
    let e : (j : ℕ) → 0 + j - s.col ≡ j - s.col = λ j. omega arith in
    (
      ap (λ x. (play x s).col) (sym same) ∙ drawn.0,
      λ j.
          ap (λ x. (play x s).shown j) (sym same)
          ∙ drawn.1 j
          ∙ ground (arith, ap (λ k. get_or w k 0) (e j)),
    )

insert_word_overwrite-Effect :
    (e : Editor) (str word : List ℕ)
    → word ≡ take (e.max - e.cp - 1) str
    → e.cp < e.max
    → Effect e
        (insert_word_overwrite e str)
        (e.cp + length word)
        (e.cp + length word)
        word
        (overwritten e.cell e.cp word)
unfolding insert_word_overwrite store
insert_word_overwrite-Effect e str word clip lt =
    let fits : e.cp + length word < e.max =
      omega (arith, ap length clip, length-take (e.max - e.cp - 1) str) in
    let frame = copy_in-SameFrame word e.cp e (omega arith) in
    rw (← clip) (record {
      cp = refl;
      len = refl;
      max = frame.max;
      overrun = ground (arith, frame);
      out = rw frame.out;
      cell = λ j. ground (arith, copy_in-cell word e.cp e j);
    })

-- On a valid line that the screen shows, a printable word, no shorter than what stands behind the
-- cursor, replaces that, clipped to the room in the buffer, with the cursor at its end; the line
-- stays valid and the screen shows it.
pub insert_word_overwrite-Edited :
    (e : Editor) (s : Screen) (str : List ℕ)
    → IsValid e
    → Shows e (play e.out s)
    → IsPrintable str
    → e.len - e.cp ≤ length str
    → Edited (insert_word_overwrite e str) s (before e ++ take (e.max - e.cp - 1) str) []
insert_word_overwrite-Edited e s str v t p long =
    let word = take (e.max - e.cp - 1) str in
    let size = length-take (e.max - e.cp - 1) str in
    let covers : e.len ≤ e.cp + length word = omega (arith, v.ordered, v.room, size) in
    let fits : e.cp + length word < e.max = omega (arith, v.ordered, v.room, size) in
    let q = take-IsPrintable (e.max - e.cp - 1) str p in
    let drawn = play-word word (play e.out s) q in
    let none : e.cp + length word - (e.cp + length word) ≡ 0 = omega arith in
    Effect-Edited e (insert_word_overwrite e str) _ _ word (overwritten e.cell e.cp word) s _ _
      (insert_word_overwrite-Effect e str word refl (omega (arith, v.ordered, v.room))) v
      (omega arith) fits (ground arith)
      (λ j h. ground (arith, v.printable j, q (j - e.cp), v.ordered, covers))
      (slice-overwritten e.cell e.cp word) (rw none) (ground (arith, drawn.0, t.cursor))
      (λ j h. ground (arith, drawn.1 j, t.cursor, t.text j, v.ordered))
      (λ j h. ground (arith, drawn.1 j, t.cursor, t.blank j, covers))

-- On a blank line with the cursor at its start, `term_redraw_line` shows the whole line.
pub redraw_line-Edited :
    (e : Editor) (s : Screen)
    → IsValid e
    → (play e.out s).col ≡ 0
    → ((j : ℕ) → (play e.out s).shown j ≡ 32)
    → Edited (redraw_line e) s (before e ++ after e) []
unfolding redraw_line
redraw_line-Edited e s v start clear =
    let drawn =
      play-slice e.cell 0 e.len (play e.out s) (λ j h. ground (arith, v.printable (0 + j))) in
    let none : e.len - e.len ≡ 0 = omega arith in
    let start_at : 0 + e.cp ≡ e.cp = omega arith in
    let whole : e.len ≡ e.cp + (e.len - e.cp) = omega (arith, v.ordered) in
    Effect-Edited e (redraw_line e) e.len e.len (slice e.cell 0 e.len) e.cell s _ _
      (record { cp = refl; len = refl; max = refl; overrun = refl; out = refl; cell = λ j. refl }) v
      (omega arith) v.room v.ended v.printable
      (ap (slice e.cell 0) whole
        ∙ slice-split e.cell 0 e.cp (e.len - e.cp)
        ∙ ap (λ i. before e ++ slice e.cell i (e.len - e.cp)) start_at)
      (rw none) (ground (arith, drawn.0)) (λ j h. ground (arith, drawn.1 j))
      (λ j h. ground (arith, drawn.1 j, clear j))
