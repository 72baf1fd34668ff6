-- ===== src/Term/Tests.antt =====
-- Runs of the terminal of cli-term.c, and its theorems at concrete inputs.
use mathlib.Core.List.{reverse}
use chaconne.Prelude.{
  ℕ, ◌+◌, ◌-◌, ◌≡◌, refl, true, false, List, [], ◌∷◌, ◌++◌, none, some, arith, take, get_or, zero,
  suc, ◌<◌, ◌==◌, if◌then◌else◌,
}
use chaconne.Term.Buffer.{Editor}
use chaconne.Term.Edit.{
  self_insert, delete_char, delete_backward_char, kill_line, backward_char, insert_word_overwrite,
}
use chaconne.Term.Edit.Refines.{
  before, after, Edited, self_insert-Edited, delete_char-Edited, delete_backward_char-Edited,
  kill_line-Edited,
}
use chaconne.Term.Edit.Replace.{insert_word_overwrite-Edited}
use chaconne.Term.Words.{
  beginning_of_line, backward_word, forward_word, backward_kill_word, forward_kill_word, show_line,
}
use chaconne.Term.Words.Spans.{two_spans, push_front, push_back, forget, span}
use chaconne.Term.Words.Refines.{
  beginning_of_line-Edited, backward_word-Edited, forward_word-Edited, backward_kill_word-Edited,
  forward_kill_word-Edited, show_line-Edited,
}
use chaconne.Term.History.{History, history_add, history_previous, history_next, history_print}
use chaconne.Term.History.Ring.{
  IsRing, nth, depth, newest_lines, history_add-nth, history_previous-nth,
  history_print-newest_lines,
}
use chaconne.Term.Session.{
  Terminal, Engine, no_match, term_run, term_create, term_execute, buffer_text,
}
use chaconne.Term.Session.Keys.{blank_screen, InStep-Edited, perform-InStep, to_left}
use chaconne.Term.Session.Ready.{IsReady, IsEngine}
use chaconne.Term.Session.Safe.{term_run-IsReady, term_create-IsReady}
use chaconne.Term.Session.Typing.{term_run-execute, Waits}

get_or_one : (j : ℕ) → j < 1 → ◌≡◌ {A = ℕ} (get_or (b'x' ∷ []) j 0) 120
get_or_one zero h = refl
get_or_one (suc j) h = absurd (omega arith)

-- An engine that echoes the line and completes nothing.
abbrev engine : Engine
engine = record {
  execute = λ h line. record { printed = line; stop = false };
  complete = λ line. no_match;
  describe = λ line. b'h' ∷ [];
}

engine-IsEngine : IsEngine engine
engine-IsEngine = record { completes = λ line h. tt }

abbrev fresh : Terminal
fresh = term_create (b'c' ∷ []) [] true

abbrev typed : Terminal
typed = term_run engine (b'a' ∷ b' ' ∷ b'b' ∷ []) fresh

runs : Unit {0}
unfolding term_run term_create buffer_text backward_char span history_add history_previous
runs = tt

-- The cursor goes left, a byte goes in, and the line is executed from there.
edit_and_run :
    (term_run engine (b'a' ∷ b'c' ∷ 2 ∷ b'b' ∷ 13 ∷ []) fresh).hist.buf 0
    ≡ some (b'a' ∷ b'b' ∷ b'c' ∷ [])
unfolding runs
edit_and_run = refl

-- Escape sequences: the arrow key shows the line that was executed before.
arrow_up :
    buffer_text (term_run engine (b'h' ∷ b'i' ∷ 13 ∷ 27 ∷ b'[' ∷ b'A' ∷ []) fresh)
    ≡ b'h' ∷ b'i' ∷ []
unfolding runs
arrow_up = refl

fresh-IsReady : IsReady fresh
fresh-IsReady = term_create-IsReady (b'c' ∷ []) [] true

term_run-IsReady_example : IsReady (term_run engine (b'a' ∷ 9 ∷ 27 ∷ b'b' ∷ 13 ∷ []) fresh)
term_run-IsReady_example =
    term_run-IsReady engine engine-IsEngine (b'a' ∷ 9 ∷ 27 ∷ b'b' ∷ 13 ∷ []) fresh fresh-IsReady

typed-IsReady : IsReady typed
typed-IsReady =
    term_run-IsReady engine engine-IsEngine (b'a' ∷ b' ' ∷ b'b' ∷ []) fresh fresh-IsReady

fresh-Waits : Waits fresh []
unfolding runs
fresh-Waits = record { edited = InStep-Edited fresh-IsReady.in_step; escape = refl; running = refl }

term_run-execute_example :
    let u = term_run engine (b'o' ∷ b'k' ∷ []) fresh in
    (buffer_text u ≡ b'o' ∷ b'k' ∷ [])
    × (term_run engine ((b'o' ∷ b'k' ∷ []) ++ 13 ∷ []) fresh ≡ term_execute engine u)
    × ((term_execute engine u).hist ≡ history_add u.memory u.hist (b'o' ∷ b'k' ∷ []))
    × ((term_execute engine u).stop ≡ (engine.execute u.hist (b'o' ∷ b'k' ∷ [])).stop)
term_run-execute_example =
    term_run-execute engine (b'o' ∷ b'k' ∷ []) fresh fresh-Waits (omega arith) (omega arith)

self_insert-Edited_example :
    Edited
      (self_insert typed.line b'c')
      blank_screen
      (before typed.line ++ b'c' ∷ [])
      (after typed.line)
unfolding runs
self_insert-Edited_example =
    self_insert-Edited typed.line blank_screen typed-IsReady.in_step.valid
      typed-IsReady.in_step.shows b'c' (omega arith) (omega arith) (omega arith)

delete_backward_char-Edited_example :
    Edited (delete_backward_char typed.line) blank_screen (b'a' ∷ b' ' ∷ []) (after typed.line)
unfolding runs
delete_backward_char-Edited_example =
    delete_backward_char-Edited typed.line blank_screen typed-IsReady.in_step.valid
      typed-IsReady.in_step.shows (b'a' ∷ b' ' ∷ []) b'b' refl

delete_char-Edited_example :
    Edited
      (delete_char (backward_char typed.line))
      blank_screen
      (before (backward_char typed.line))
      []
unfolding runs
delete_char-Edited_example =
    let e = backward_char typed.line in
    let i = perform-InStep to_left typed.line typed-IsReady.in_step in
    delete_char-Edited e blank_screen i.valid i.shows b'b' [] refl

kill_line-Edited_example :
    Edited
      (kill_line (backward_char typed.line))
      blank_screen
      (before (backward_char typed.line))
      []
kill_line-Edited_example =
    let i = perform-InStep to_left typed.line typed-IsReady.in_step in
    kill_line-Edited (backward_char typed.line) blank_screen i.valid i.shows

abbrev letters : List ℕ
letters = b'b' ∷ b' ' ∷ b'a' ∷ []

typed-Edited : Edited typed.line blank_screen (reverse letters) []
unfolding runs
typed-Edited = InStep-Edited typed-IsReady.in_step

backward_word-Edited_example :
    Edited
      (backward_word typed.line)
      blank_screen
      (reverse (two_spans push_front letters []).0)
      (two_spans push_front letters []).1
backward_word-Edited_example = backward_word-Edited typed.line blank_screen letters [] typed-Edited

backward_kill_word-Edited_example :
    Edited
      (backward_kill_word typed.line)
      blank_screen
      (reverse (two_spans forget letters []).0)
      (two_spans forget letters []).1
backward_kill_word-Edited_example =
    backward_kill_word-Edited typed.line blank_screen letters [] typed-Edited

abbrev home : Editor
home = beginning_of_line typed.line

home-Edited : Edited home blank_screen [] (b'a' ∷ b' ' ∷ b'b' ∷ [])
unfolding runs
home-Edited =
    beginning_of_line-Edited typed.line blank_screen (b'a' ∷ b' ' ∷ b'b' ∷ []) [] typed-Edited

forward_word-Edited_example :
    Edited
      (forward_word home)
      blank_screen
      (two_spans push_back (b'a' ∷ b' ' ∷ b'b' ∷ []) []).1
      (two_spans push_back (b'a' ∷ b' ' ∷ b'b' ∷ []) []).0
forward_word-Edited_example =
    forward_word-Edited home blank_screen [] (b'a' ∷ b' ' ∷ b'b' ∷ []) home-Edited

forward_kill_word-Edited_example :
    Edited
      (forward_kill_word home)
      blank_screen
      (two_spans forget (b'a' ∷ b' ' ∷ b'b' ∷ []) []).1
      (two_spans forget (b'a' ∷ b' ' ∷ b'b' ∷ []) []).0
forward_kill_word-Edited_example =
    forward_kill_word-Edited home blank_screen [] (b'a' ∷ b' ' ∷ b'b' ∷ []) home-Edited

insert_word_overwrite-Edited_example :
    Edited
      (insert_word_overwrite typed.line (b'x' ∷ []))
      blank_screen
      (before typed.line ++ take (typed.line.max - typed.line.cp - 1) (b'x' ∷ []))
      []
unfolding runs
insert_word_overwrite-Edited_example =
    insert_word_overwrite-Edited typed.line blank_screen (b'x' ∷ []) typed-IsReady.in_step.valid
      typed-IsReady.in_step.shows (λ j h. ground (arith, get_or_one j)) (omega arith)

show_line-Edited_example : Edited (show_line typed.line (b'x' ∷ [])) blank_screen (b'x' ∷ []) []
show_line-Edited_example =
    show_line-Edited typed.line blank_screen (reverse letters) [] (b'x' ∷ []) typed-Edited
      (λ j h. ground (arith, get_or_one j)) (omega arith)

-- A ring that has been written past its last slot.
abbrev ring : History
ring = record {
  buf = λ i. if i == 31 then some (b'o' ∷ []) else if i == 0 then some (b'n' ∷ []) else none;
  cp = 0;
  index = 1;
}

ring-IsRing : IsRing ring
ring-IsRing = omega arith

history_add-nth_example :
    (nth (history_add true ring (b'm' ∷ [])) 1 ≡ some (b'm' ∷ []))
    × (nth (history_add true ring (b'm' ∷ [])) (2 + 1) ≡ nth ring 2)
    × (depth (history_add true ring (b'm' ∷ [])) ≡ 0)
history_add-nth_example =
    history_add-nth ring b'm' [] 2 ring-IsRing (unfold runs in refl) (omega arith) (omega arith)

history_previous-nth_example :
    ((history_previous ring).0 ≡ some (b'o' ∷ []))
    × (depth (history_previous ring).1 ≡ depth ring + 1)
    × (history_next (history_previous ring).1 ≡ (some (b'n' ∷ []), ring))
history_previous-nth_example =
    history_previous-nth ring (b'o' ∷ []) (b'n' ∷ []) ring-IsRing (omega arith) refl refl

history_print-newest_lines_example : history_print ring ≡ some (newest_lines ring 31)
history_print-newest_lines_example = history_print-newest_lines ring ring-IsRing
