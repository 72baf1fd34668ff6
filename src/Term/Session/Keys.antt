-- ===== src/Term/Session/Keys.antt =====
-- Every editing command of cli-term.c keeps the line valid and the screen in step with it.
use mathlib.Core.List.{reverse, reverse-reverse}
use chaconne.Prelude.{
  ℕ, ◌+◌, ◌-◌, ◌<◌, ◌≡◌, refl, sym, List, [], ◌∷◌, ◌++◌, ◌⊎◌, arith, leb, Bool-cases, inl, inr,
}
use chaconne.Term.Buffer.{Editor}
use chaconne.Term.Screen.{Screen, play, Shows}
use chaconne.Term.Edit.{
  backward_char, forward_char, delete_char, delete_backward_char, self_insert, kill_line,
}
use chaconne.Term.Edit.Refines.{
  IsValid, before, after, Edited, self_insert-Edited, self_insert-full, delete_char-Edited,
  delete_backward_char-Edited, kill_line-Edited,
}
use chaconne.Term.Edit.Motion.{backward_char-Edited, forward_char-Edited, motion_start, motion_end}
use mathlib.Core.Path.{subst}
use chaconne.Term.Buffer.Shifts.{slice-nil}
use chaconne.Term.Words.{
  beginning_of_line, end_of_line, backward_word, forward_word, backward_kill_word,
  forward_kill_word, kill_line_from_beginning,
}
use chaconne.Term.Words.Refines.{
  beginning_of_line-Edited, end_of_line-Edited, backward_word-Edited, forward_word-Edited,
  backward_kill_word-Edited, forward_kill_word-Edited, kill_line_from_beginning-Edited,
}

-- A terminal line that is blank, with the cursor right behind the prompt.
abbrev pub blank_screen : Screen
blank_screen = record { shown = λ _. 32; col = 0 }

-- The buffer is valid, and the screen shows its line behind the last prompt.
pub record InStep (e : Editor) : Type 0 where
  pub valid : IsValid e
  pub shows : Shows e (play e.out blank_screen)

pub Edited-InStep : {e : Editor} {l r : List ℕ} → Edited e blank_screen l r → InStep e
Edited-InStep d = record { valid = d.valid; shows = d.shows }

pub InStep-Edited : {e : Editor} → InStep e → Edited e blank_screen (before e) (after e)
InStep-Edited i = record { valid = i.valid; left = refl; right = refl; shows = i.shows }

-- A list is empty or has a last entry.
split_last : (xs : List ℕ) → (xs ≡ []) ⊎ ((l : List ℕ) × (c : ℕ) × (xs ≡ l ++ c ∷ []))
split_last [] = inl refl
split_last (x ∷ xs) = elim (split_last xs) [
  | inl e ↦ inr ([], x, rw e)
  | inr (l, c, e) ↦ inr (x ∷ l, c, rw e)
]

split_first : (xs : List ℕ) → (xs ≡ []) ⊎ ((c : ℕ) × (r : List ℕ) × (xs ≡ c ∷ r))
split_first [] = inl refl
split_first (x ∷ xs) = inr (x, xs, refl)

module _ (e : Editor) (i : InStep e) where
  -- At the start of the line both commands do nothing.
  backward-InStep : InStep (backward_char e) × InStep (delete_backward_char e)
  backward-InStep = elim (split_last (before e)) [
    | inl none ↦
        let stay = motion_start e (slice-nil e.cell 0 e.cp none) in
        (subst InStep (sym stay.0) i, subst InStep (sym stay.1) i)
    | inr (l, c, h) ↦ (
      Edited-InStep (backward_char-Edited e blank_screen i.valid i.shows l c h),
      Edited-InStep (delete_backward_char-Edited e blank_screen i.valid i.shows l c h),
    )
  ]

  forward-InStep : InStep (forward_char e) × InStep (delete_char e)
  forward-InStep = elim (split_first (after e)) [
    | inl none ↦
        let stay = motion_end e (omega (arith, slice-nil e.cell e.cp (e.len - e.cp) none)) in
        (subst InStep (sym stay.0) i, subst InStep (sym stay.1) i)
    | inr (c, r, h) ↦ (
      Edited-InStep (forward_char-Edited e blank_screen i.valid i.shows c r h),
      Edited-InStep (delete_char-Edited e blank_screen i.valid i.shows c r h),
    )
  ]

  -- A full buffer refuses the byte.
  pub self_insert-InStep : (c : ℕ) → 31 < c → c < 127 → InStep (self_insert e c)
  self_insert-InStep c lo hi = elim (Bool-cases (leb e.max (e.len + 1))) [
    | inl full ↦
        let same = self_insert-full e blank_screen i.valid i.shows c (ground arith) in
        subst InStep (sym same) i
    | inr room ↦
        Edited-InStep (self_insert-Edited e blank_screen i.valid i.shows c lo hi (ground arith))
  ]

  reversed : Edited e blank_screen (reverse (reverse (before e))) (after e)
  reversed = rw reverse-reverse (InStep-Edited i)

-- The editing commands that need no argument.
pub data Command : Type 0 where
  to_left to_right kill_left kill_right to_start to_end : Command
  word_left word_right kill_word_left kill_word_right kill_rest kill_all : Command

abbrev pub perform : Command → Editor → Editor
perform to_left = backward_char
perform to_right = forward_char
perform kill_left = delete_backward_char
perform kill_right = delete_char
perform to_start = beginning_of_line
perform to_end = end_of_line
perform word_left = backward_word
perform word_right = forward_word
perform kill_word_left = backward_kill_word
perform kill_word_right = forward_kill_word
perform kill_rest = kill_line
perform kill_all = kill_line_from_beginning

-- Each of them keeps a line in step.
pub perform-InStep : (k : Command) (e : Editor) → InStep e → InStep (perform k e)
perform-InStep to_left e i = (backward-InStep e i).0
perform-InStep to_right e i = (forward-InStep e i).0
perform-InStep kill_left e i = (backward-InStep e i).1
perform-InStep kill_right e i = (forward-InStep e i).1
perform-InStep to_start e i =
    Edited-InStep (beginning_of_line-Edited e blank_screen _ _ (InStep-Edited i))
perform-InStep to_end e i = Edited-InStep (end_of_line-Edited e blank_screen _ _ (InStep-Edited i))
perform-InStep word_left e i =
    Edited-InStep (backward_word-Edited e blank_screen (reverse (before e)) _ (reversed e i))
perform-InStep word_right e i =
    Edited-InStep (forward_word-Edited e blank_screen _ _ (InStep-Edited i))
perform-InStep kill_word_left e i =
    Edited-InStep (backward_kill_word-Edited e blank_screen (reverse (before e)) _ (reversed e i))
perform-InStep kill_word_right e i =
    Edited-InStep (forward_kill_word-Edited e blank_screen _ _ (InStep-Edited i))
perform-InStep kill_rest e i = Edited-InStep (kill_line-Edited e blank_screen i.valid i.shows)
perform-InStep kill_all e i =
    Edited-InStep (kill_line_from_beginning-Edited e blank_screen _ _ (InStep-Edited i))
