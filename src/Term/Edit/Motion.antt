-- ===== src/Term/Edit/Motion.antt =====
-- The cursor motions of cli-term.c and the redisplay of a line, against the line and the screen.
use chaconne.Prelude.{
  true, false, ltb, ◌==◌, ℕ, suc, ◌+◌, ◌-◌, ◌≤◌, ◌<◌, ◌≡◌, ◌∙◌, List, [], ◌∷◌, ◌++◌, arith,
}
use chaconne.Term.Buffer.{Editor}
use chaconne.Term.Buffer.Shifts.{slice-snoc, slice-cons, slice-last, slice-last_byte}
use chaconne.Term.Screen.{Screen, play, Shows}
use chaconne.Term.Edit.{backspace, backward_char, forward_char, delete_char, delete_backward_char}
use chaconne.Term.Edit.Effects.{Effect}
use chaconne.Term.Edit.Refines.{IsValid, before, after, Edited, Effect-Edited}

backward_char-Effect :
    (e : Editor) → 0 < e.cp → Effect e (backward_char e) (e.cp - 1) e.len (backspace ∷ []) e.cell
unfolding backward_char
backward_char-Effect e pos = ground arith

forward_char-Effect :
    (e : Editor)
    → e.cp < e.len
    → Effect e (forward_char e) (e.cp + 1) e.len (e.cell e.cp ∷ []) e.cell
unfolding forward_char
forward_char-Effect e lt = ground arith

-- At the start of the line nothing is left to do backward, and at its end nothing forward.
pub motion_start : (e : Editor) → e.cp ≡ 0 → (backward_char e ≡ e) × (delete_backward_char e ≡ e)
unfolding backward_char delete_backward_char
motion_start e h = let none : (e.cp == 0) ≡ true = ground arith in (rw none, rw none)

pub motion_end : (e : Editor) → e.len ≤ e.cp → (forward_char e ≡ e) × (delete_char e ≡ e)
unfolding forward_char delete_char
motion_end e h = let none : ltb e.cp e.len ≡ false = ground arith in (rw none, rw none)

module _ (e : Editor) (s : Screen) (v : IsValid e) (t : Shows e (play e.out s)) where
  -- The byte before the cursor comes to stand behind it.
  pub backward_char-Edited :
      (l : List ℕ) (c : ℕ) → before e ≡ l ++ c ∷ [] → Edited (backward_char e) s l (c ∷ after e)
  unfolding play
  backward_char-Edited l c h =
      let head = slice-last e.cell 0 e.cp l c h in
      let byte = slice-last_byte e.cell 0 e.cp l c h in
      let more : e.len - (e.cp - 1) ≡ suc (e.len - e.cp) = omega (arith, head.0, v.ordered) in
      let next : e.cp - 1 + 1 ≡ e.cp = omega (arith, head.0) in
      Effect-Edited e (backward_char e) _ _ _ e.cell s _ _ (backward_char-Effect e head.0) v
        (omega (arith, v.ordered)) v.room v.ended v.printable head.1
        (rw more (ground (arith, byte, next))) (ground (arith, t.cursor)) (λ j q. t.text j q)
        (λ j q. t.blank j q)

  -- The byte behind the cursor comes to stand before it.
  pub forward_char-Edited :
      (c : ℕ) (r : List ℕ) → after e ≡ c ∷ r → Edited (forward_char e) s (before e ++ c ∷ []) r
  unfolding play
  forward_char-Edited c r h =
      let tail = slice-cons e.cell e.cp (e.len - e.cp) c r h in
      let lt : e.cp < e.len = omega (arith, tail.0) in
      let rest : e.len - (e.cp + 1) ≡ e.len - e.cp - 1 = omega arith in
      Effect-Edited e (forward_char e) _ _ _ e.cell s _ _ (forward_char-Effect e lt) v (omega arith)
        v.room v.ended v.printable (slice-snoc e.cell 0 e.cp ∙ ground (arith, tail.1))
        (rw rest tail.2) (ground (arith, t.cursor, v.printable e.cp))
        (λ j q. ground (arith, t.cursor, t.text j, v.printable e.cp))
        (λ j q. ground (arith, t.cursor, t.blank j, v.printable e.cp))
