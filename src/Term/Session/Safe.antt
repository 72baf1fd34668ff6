-- ===== src/Term/Session/Safe.antt =====
-- Every byte that the terminal of cli-term.c reads leaves it valid, and its screen in step.
use chaconne.Term.Session.Ready.{IsReady, IsEngine}
use chaconne.Term.Session.Recall.{
  history_previous-Recalled, history_next-Recalled, show_history_line-IsReady, term_execute-IsReady,
}
use chaconne.Term.Session.Complete.{complete_command-IsReady, describe_command-IsReady}
use chaconne.Prelude.{
  ℕ, ◌<◌, refl, Bool, true, false, List, [], ◌∷◌, arith, ltb, ◌==◌, if◌then◌else◌, ◌&&◌, ◌||◌,
  Bool-cases, inl, inr,
}
use chaconne.Term.Screen.{play}
use chaconne.Term.Edit.{self_insert}
use chaconne.Term.Session.{
  Terminal, Engine, Escape, normal, pre_escape, escape, edit, previous_line, next_line, read_escape,
  read_pre_escape, read_normal, dispatch, term_read, term_run, term_create,
}
use chaconne.Term.Session.Keys.{
  self_insert-InStep, Command, perform, perform-InStep, to_left, to_right, kill_left, kill_right,
  to_start, to_end, word_left, word_right, kill_word_left, kill_word_right, kill_rest, kill_all,
}

if-IsReady : (b : Bool) {x y : Terminal} → IsReady x → IsReady y → IsReady (if b then x else y)
if-IsReady true i k = i
if-IsReady false i k = k

module _ (t : Terminal) (i : IsReady t) where
  perform-IsReady : (k : Command) → IsReady (edit (perform k) t)
  unfolding edit
  perform-IsReady k = record {
    in_step = perform-InStep k t.line i.in_step;
    ring = i.ring;
    lines = i.lines;
  }

  escape-IsReady : (x : Escape) → IsReady (record t { escape = x })
  escape-IsReady x = record { in_step = i.in_step; ring = i.ring; lines = i.lines }

  previous_line-IsReady : IsReady (previous_line t)
  unfolding previous_line
  previous_line-IsReady =
      show_history_line-IsReady t _ i (history_previous-Recalled t.hist i.ring i.lines)

  next_line-IsReady : IsReady (next_line t)
  unfolding next_line
  next_line-IsReady = show_history_line-IsReady t _ i (history_next-Recalled t.hist i.ring i.lines)

  typed-IsReady : (c : ℕ) → 31 < c → c < 127 → IsReady (edit (λ e. self_insert e c) t)
  unfolding edit
  typed-IsReady c lo hi = record {
    in_step = self_insert-InStep t.line i.in_step c lo hi;
    ring = i.ring;
    lines = i.lines;
  }

  read_escape-IsReady : (c : ℕ) → IsReady (read_escape c t)
  unfolding read_escape
  read_escape-IsReady c = if-IsReady (c == b'A') previous_line-IsReady (
      if-IsReady (c == b'B') next_line-IsReady (
        if-IsReady (c == b'C') (perform-IsReady to_right)
          (if-IsReady (c == b'D') (perform-IsReady to_left) i)))

  typed_if-IsReady :
      (c : ℕ) → IsReady (if ltb 31 c && ltb c 127 then edit (λ e. self_insert e c) t else t)
  typed_if-IsReady c = elim (Bool-cases (ltb 31 c && ltb c 127)) [
    | inl print ↦ rw print (typed-IsReady c (ground arith) (ground arith))
    | inr ignore ↦ rw ignore i
  ]

read_pre_escape-IsReady : (c : ℕ) (t : Terminal) → IsReady t → IsReady (read_pre_escape c t)
unfolding read_pre_escape
read_pre_escape-IsReady c t i =
    let back =
      λ (k : Command). escape-IsReady (edit (perform k) t) (perform-IsReady t i k) normal in
    if-IsReady (c == b'b') (back word_left) (
      if-IsReady (c == b'f') (back word_right) (
        if-IsReady (c == b'd') (back kill_word_right) (
          if-IsReady ((c == 8) || (c == 127)) (back kill_word_left)
            (if-IsReady (c == b'[') (escape-IsReady t i escape) (escape-IsReady t i normal)))))

module _ (engine : Engine) (law : IsEngine engine) where
  read_normal-IsReady : (c : ℕ) (t : Terminal) → IsReady t → IsReady (read_normal engine c t)
  unfolding read_normal
  read_normal-IsReady c t i =
      let does = perform-IsReady t i in
      if-IsReady (c == 2) (does to_left) (
        if-IsReady (c == 6) (does to_right) (
          if-IsReady ((c == 8) || (c == 127)) (does kill_left) (
            if-IsReady (c == 4) (does kill_right) (
              if-IsReady (c == 1) (does to_start) (
                if-IsReady (c == 5) (does to_end) (
                  if-IsReady (c == 14) (next_line-IsReady t i) (
                    if-IsReady (c == 16) (previous_line-IsReady t i) (
                      if-IsReady (c == 21) (does kill_all) (
                        if-IsReady (c == 11) (does kill_rest) (
                          if-IsReady (c == 23) (does kill_word_right) (
                            if-IsReady (c == 27) (escape-IsReady t i pre_escape) (
                              if-IsReady (c == 63) (describe_command-IsReady engine t i) (
                                if-IsReady (c == 9) (complete_command-IsReady engine t law i) (
                                  if-IsReady ((c == 10) || (c == 13))
                                    (term_execute-IsReady engine t i)
                                    (typed_if-IsReady t i c)))))))))))))))

  dispatch-IsReady :
      (x : Escape) (c : ℕ) (t : Terminal) → IsReady t → IsReady (dispatch x engine c t)
  unfolding dispatch
  dispatch-IsReady normal c t i = read_normal-IsReady c t i
  dispatch-IsReady pre_escape c t i = read_pre_escape-IsReady c t i
  dispatch-IsReady escape c t i =
      escape-IsReady (read_escape c t) (read_escape-IsReady t i c) normal

  pub term_read-IsReady : (c : ℕ) (t : Terminal) → IsReady t → IsReady (term_read engine c t)
  unfolding term_read
  term_read-IsReady c t i = dispatch-IsReady t.escape c t i

  -- Whatever bytes are read, a terminal that is ready stays ready, if the completions of the
  -- engine are printable and no shorter than the word that they complete: no write leaves the
  -- buffer, the cursor stays within the line and the line within the buffer with a NUL behind it,
  -- the screen shows the line, and the history's indices and lines stay within their bounds.
  pub term_run-IsReady : (cs : List ℕ) (t : Terminal) → IsReady t → IsReady (term_run engine cs t)
  unfolding term_run
  term_run-IsReady [] t i = i
  term_run-IsReady (c ∷ cs) t i =
      if-IsReady t.stop i (term_run-IsReady cs (term_read engine c t) (term_read-IsReady c t i))

pub term_create-IsReady :
    (name help : List ℕ) (memory : Bool) → IsReady (term_create name help memory)
unfolding term_create play
term_create-IsReady name help memory = record {
  in_step = record {
    valid = record {
      ordered = omega arith;
      room = omega arith;
      size = refl;
      safe = refl;
      ended = refl;
      printable = λ j h. absurd (omega arith);
    };
    shows = record { cursor = refl; text = λ j h. absurd (omega arith); blank = λ j h. refl };
  };
  ring = record { index_lt = omega arith; cp_lt = omega arith };
  lines = λ j. tt;
}
