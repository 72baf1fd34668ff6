-- ===== src/Term/Session/Complete.antt =====
-- Completion and help in cli-term.c: the line behind the fresh prompt.
use chaconne.Term.Session.Ready.{
  IsReady, last_word, Completes, IsEngine, buffer_text-line, buffer_text-IsPrintable,
}
use mathlib.Core.List.{reverse, reverse-reverse}
use mathlib.Core.Path.{subst}
use chaconne.Prelude.{ℕ, ◌-◌, ◌≤◌, ◌≡◌, refl, sym, ap, ◌∙◌, List, [], ◌++◌, arith, length}
use chaconne.Term.Buffer.{Editor}
use chaconne.Term.Buffer.Shifts.{length-slice}
use chaconne.Term.Screen.{play}
use chaconne.Term.Edit.{insert_word_overwrite, redraw_line}
use chaconne.Term.Edit.Refines.{IsValid, before, after, Edited}
use chaconne.Term.Edit.Replace.{IsPrintable, insert_word_overwrite-Edited, redraw_line-Edited}
use chaconne.Term.Words.{backward_pure_word}
use chaconne.Term.Words.Spans.{span, is_word, push_front}
use chaconne.Term.Words.Refines.{backward_pure_word-Edited}
use chaconne.Term.Session.{
  Terminal, Engine, Completion, no_match, full_match, match, list_match, other, newline,
  buffer_text, put_bytes, show_completion, complete_command, describe_command,
}
use chaconne.Term.Session.Keys.{blank_screen, InStep, Edited-InStep, self_insert-InStep}

-- A line behind a fresh prompt, drawn again.
pub IsValid-out : (e : Editor) (bytes : List ℕ) → IsValid e → IsValid (record e { out = bytes })
IsValid-out e bytes v = record {
  ordered = v.ordered;
  room = v.room;
  size = v.size;
  safe = v.safe;
  ended = v.ended;
  printable = v.printable;
}

pub redrawn :
    (e : Editor)
    → IsValid e
    → Edited (redraw_line (record e { out = [] })) blank_screen (before e ++ after e) []
unfolding play
redrawn e v =
    redraw_line-Edited (record e { out = [] }) blank_screen (IsValid-out e [] v) refl (λ j. refl)

-- The word that a completion extends is replaced, as far as there is room.
pub completed :
    (e : Editor) (key : List ℕ)
    → IsValid e
    → IsPrintable key
    → last_word (before e ++ after e) ≤ length key
    → InStep (insert_word_overwrite (backward_pure_word (redraw_line (record e { out = [] }))) key)
completed e key v p long =
    let line = before e ++ after e in
    let d = redrawn e v in
    let back =
      backward_pure_word-Edited (redraw_line (record e { out = [] })) blank_screen (reverse line) []
        (rw reverse-reverse d) in
    let x = backward_pure_word (redraw_line (record e { out = [] })) in
    let tail : x.len - x.cp ≡ length (span is_word push_front (reverse line) []).1 =
      sym (length-slice x.cell x.cp (x.len - x.cp)) ∙ ap length back.right in
    Edited-InStep
      (insert_word_overwrite-Edited x blank_screen key back.valid back.shows p (omega arith))

module _ (t : Terminal) (v : IsValid t.line) where
  pub show_completion-InStep :
      (answer : Completion)
      → Completes (before t.line ++ after t.line) answer
      → InStep (show_completion answer t).line
  unfolding show_completion
  show_completion-InStep no_match k = Edited-InStep (redrawn t.line v)
  show_completion-InStep (full_match key) k =
      self_insert-InStep _ (completed t.line key v k.0 k.1) 32 (omega arith) (omega arith)
  show_completion-InStep (match key) k = completed t.line key v k.0 k.1
  show_completion-InStep (list_match keys) k = Edited-InStep (redrawn t.line v)
  show_completion-InStep other k = Edited-InStep (redrawn t.line v)

pub show_completion-hist :
    (answer : Completion) (t : Terminal) → (show_completion answer t).hist ≡ t.hist
unfolding show_completion
show_completion-hist no_match t = refl
show_completion-hist (full_match key) t = refl
show_completion-hist (match key) t = refl
show_completion-hist (list_match keys) t = refl
show_completion-hist other t = refl

pub complete_command-IsReady :
    (c : Engine) (t : Terminal) → IsEngine c → IsReady t → IsReady (complete_command c t)
unfolding complete_command put_bytes
complete_command-IsReady c t law i =
    let v = i.in_step.valid in
    let text = buffer_text t in
    let u = put_bytes newline t in
    let fits =
      subst (λ x. Completes x (c.complete text)) (buffer_text-line t v)
        (law.completes text (buffer_text-IsPrintable t v)) in
    let kept = show_completion-hist (c.complete text) u in
    record {
      in_step =
          show_completion-InStep u (IsValid-out t.line (t.line.out ++ newline) v) (c.complete text)
            fits;
      ring = rw kept i.ring;
      lines = rw kept i.lines;
    }

pub describe_command-IsReady :
    (c : Engine) (t : Terminal) → IsReady t → IsReady (describe_command c t)
unfolding describe_command
describe_command-IsReady c t i = record {
  in_step = Edited-InStep (redrawn t.line i.in_step.valid);
  ring = i.ring;
  lines = i.lines;
}
