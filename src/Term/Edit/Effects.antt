-- ===== src/Term/Edit/Effects.antt =====
-- The effect of each editing command of cli-term.c on the bytes of the buffer and on the output.
use chaconne.Prelude.{
  ℕ, ◌+◌, ◌-◌, ◌≤◌, ◌<◌, ◌≡◌, refl, sym, ◌∙◌, false, ◌&&◌, List, ◌∷◌, ◌++◌, append_assoc,
  append-nil, arith, ltb, leb, ◌==◌, if◌then◌else◌, replicate, lt→ltb, Bool-cases, inl, inr,
}
use chaconne.Term.Buffer.{Editor, slice, store, putc, put_cells}
use chaconne.Term.Buffer.Shifts.{
  putc_times-out, shift_left-cell, shift_left-SameFrame, shift_right-cell, shift_right-SameFrame,
  clear_cells-cell, clear_cells-SameFrame,
}
use chaconne.Term.Edit.{backspace, space, delete_char, delete_backward_char, self_insert, kill_line}

-- `e'` has the cursor, the length and the bytes given, and has put `bytes` behind `e`.
pub record Effect (e e' : Editor) (at end : ℕ) (bytes : List ℕ) (f : ℕ → ℕ) : Type 0 where
  pub cp : e'.cp ≡ at
  pub len : e'.len ≡ end
  pub max : e'.max ≡ e.max
  pub overrun : e'.overrun ≡ e.overrun
  pub out : e'.out ≡ e.out ++ bytes
  pub cell : (j : ℕ) → e'.cell j ≡ f j

-- The bytes after the byte at `i` is gone and the line ends at `len`.
abbrev pub removed : (ℕ → ℕ) → ℕ → ℕ → ℕ → ℕ
removed f i len j = if j == len then 0 else if leb i j && ltb j len then f (j + 1) else f j

abbrev pub inserted : (ℕ → ℕ) → ℕ → ℕ → ℕ → ℕ → ℕ
inserted f i len c j =
    if j == len + 1
    then 0
    else if j == i
    then c
    else if ltb i j && leb j len
    then f (j - 1)
    else f j

pub delete_char-Effect :
    (e : Editor)
    → e.cp < e.len
    → e.len < e.max
    → Effect e
        (delete_char e)
        e.cp
        (e.len - 1)
        (slice (delete_char e).cell e.cp (e.len - 1 - e.cp)
          ++ space ∷ replicate (e.len - 1 - e.cp + 1) backspace)
        (removed e.cell e.cp (e.len - 1))
unfolding delete_char store put_cells putc
delete_char-Effect e lt fits =
    let n = e.len - (e.cp + 1) in
    let frame = shift_left-SameFrame n (e.cp + 1) e (omega arith) (omega arith) in
    rw (lt→ltb _ _ lt, putc_times-out)
      (record {
        cp = frame.cp;
        len = refl;
        max = frame.max;
        overrun = ground (arith, frame);
        out = simp (frame.out, frame.cp, append_assoc);
        cell = λ j. ground (arith, shift_left-cell n (e.cp + 1) e j);
      })

pub delete_backward_char-Effect :
    (e : Editor)
    → 0 < e.cp
    → e.cp ≤ e.len
    → e.len < e.max
    → Effect e
        (delete_backward_char e)
        (e.cp - 1)
        (e.len - 1)
        (backspace
          ∷ (slice (delete_backward_char e).cell (e.cp - 1) (e.len - 1 - (e.cp - 1))
              ++ space ∷ replicate (e.len - 1 - (e.cp - 1) + 1) backspace))
        (removed e.cell (e.cp - 1) (e.len - 1))
unfolding delete_backward_char store put_cells putc
delete_backward_char-Effect e pos le fits =
    let n = e.len - e.cp in
    let frame = shift_left-SameFrame n e.cp e pos (omega arith) in
    let some_left : (e.cp == 0) ≡ false = ground arith in
    rw (some_left, putc_times-out)
      (record {
        cp = refl;
        len = refl;
        max = frame.max;
        overrun = ground (arith, frame);
        out = simp (frame.out, append_assoc);
        cell = λ j. ground (arith, shift_left-cell n e.cp e j);
      })

pub self_insert-Effect :
    (e : Editor) (c : ℕ)
    → e.cp ≤ e.len
    → e.len + 1 < e.max
    → Effect e
        (self_insert e c)
        (e.cp + 1)
        (e.len + 1)
        (c
          ∷ (slice (self_insert e c).cell (e.cp + 1) (e.len - e.cp)
              ++ replicate (e.len - e.cp) backspace))
        (inserted e.cell e.cp e.len c)
unfolding self_insert store put_cells putc
self_insert-Effect e c le fits =
    let n = e.len + 1 - e.cp in
    let frame = shift_right-SameFrame n (e.len + 1) e (omega arith) fits in
    let room : leb e.max (e.len + 1) ≡ false = ground arith in
    let mv : e.len + 1 - (e.cp + 1) ≡ e.len - e.cp = omega arith in
    elim (Bool-cases (ltb e.cp e.len)) [
      | inl inside ↦
          let some_right : (e.len - e.cp == 0) ≡ false = ground arith in
          rw (room, inside, mv, some_right, putc_times-out)
            (record {
              cp = refl;
              len = refl;
              max = frame.max;
              overrun = ground (arith, frame);
              out = simp (frame.out, append_assoc);
              cell = λ j. ground (arith, shift_right-cell n (e.len + 1) e j);
            })
      | inr at_end ↦
          let none_right : e.len - e.cp ≡ 0 = ground arith in
          rw (room, at_end, mv, none_right)
            (record {
              cp = refl;
              len = refl;
              max = refl;
              overrun = ground arith;
              out = ground arith;
              cell = λ j. ground arith;
            })
    ]

pub kill_line-Effect :
    (e : Editor)
    → e.cp ≤ e.len
    → e.len < e.max
    → Effect e
        (kill_line e)
        e.cp
        e.cp
        (replicate (e.len - e.cp) space ++ replicate (e.len - e.cp) backspace)
        (λ j. if leb e.cp j && ltb j e.len then 0 else e.cell j)
unfolding kill_line
kill_line-Effect e le fits =
    let n = e.len - e.cp in
    let blanked : Editor = record e { out = e.out ++ replicate n space ++ replicate n backspace } in
    let frame = clear_cells-SameFrame n e.cp blanked (omega arith) in
    elim (Bool-cases (n == 0)) [
      | inl done ↦
          let none_right : e.len - e.cp ≡ 0 = ground arith in
          rw none_right (record {
            cp = refl;
            len = ground arith;
            max = refl;
            overrun = refl;
            out = sym (append-nil e.out);
            cell = λ j. ground arith;
          })
      | inr more ↦
          simp (more, putc_times-out)
            (record {
              cp = frame.cp;
              len = refl;
              max = frame.max;
              overrun = frame.overrun;
              out = frame.out ∙ append_assoc e.out _ _;
              cell = λ j. ground (arith, clear_cells-cell n e.cp blanked j);
            })
    ]
