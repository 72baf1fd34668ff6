-- ===== src/Term/Session/Recall.antt =====
-- Lines of cli-term.c that go into the history and come back from it.
use chaconne.Term.Session.Ready.{Fits, IsReady, buffer_text-slice}
use chaconne.Prelude.{
  ℕ, ◌+◌, ◌-◌, ◌<◌, ◌≡◌, refl, Bool, true, false, List, [], ◌∷◌, Option, none, some, arith, ◌==◌,
  if◌then◌else◌, Bool-cases, inl, inr,
}
use chaconne.Term.Buffer.{slice, store}
use chaconne.Term.Buffer.Shifts.{get_or-slice, length-slice}
use chaconne.Term.Screen.{play}
use chaconne.Term.Words.Refines.{show_line-Edited}
use chaconne.Term.History.{History, history_previous, history_next, history_add, holds_line, visit}
use chaconne.Term.History.Ring.{IsRing, history_add-IsRing}
use chaconne.Term.Session.{
  Terminal, Engine, buffer_text, show_history_line, clear_line, term_execute,
}
use chaconne.Term.Session.Keys.{blank_screen, InStep, Edited-InStep, InStep-Edited}

-- The history hands out lines that fit, and only moves its current line.
pub record Recalled (h : History) (r : Option (List ℕ) × History) : Type 0 where
  pub text : Fits r.0
  pub ring : IsRing r.1
  pub same : (j : ℕ) → r.1.buf j ≡ h.buf j

pub visit-Recalled :
    (h : History) (i : ℕ) (o : Option (List ℕ))
    → IsRing h
    → i < 32
    → Fits o
    → Recalled h (visit h i o)
unfolding visit
visit-Recalled h i none v lt k = record { text = tt; ring = v; same = λ j. refl }
visit-Recalled h i (some line) v lt k = record {
  text = k;
  ring = record { index_lt = v.index_lt; cp_lt = lt };
  same = λ j. refl;
}

module _ (h : History) (v : IsRing h) (k : (j : ℕ) → Fits (h.buf j)) where
  pub stay_Recalled : Recalled h (none, h)
  stay_Recalled = record { text = tt; ring = v; same = λ j. refl }

  pub history_previous-Recalled : Recalled h (history_previous h)
  unfolding history_previous
  history_previous-Recalled =
      let i = if h.cp == 0 then 31 else h.cp - 1 in
      elim (Bool-cases (i == h.index)) [
        | inl stays ↦ rw stays stay_Recalled
        | inr older ↦ rw older (visit-Recalled h i (h.buf i) v (ground (arith, v.cp_lt)) (k i))
      ]

  pub history_next-Recalled : Recalled h (history_next h)
  unfolding history_next
  history_next-Recalled =
      let i = if h.cp == 31 then 0 else h.cp + 1 in
      elim (Bool-cases (h.cp == h.index)) [
        | inl stays ↦ rw stays stay_Recalled
        | inr here ↦ elim (Bool-cases (i == h.index)) [
          | inl newest ↦
              rw (here, newest)
                (record {
                  text = (λ j q. absurd (omega arith), omega arith);
                  ring = record { index_lt = v.index_lt; cp_lt = v.index_lt };
                  same = λ j. refl;
                })
          | inr newer ↦
              rw (here, newer) (visit-Recalled h i (h.buf i) v (ground (arith, v.cp_lt)) (k i))
        ]
      ]

pub show_history_line-IsReady :
    (t : Terminal) (r : Option (List ℕ) × History)
    → IsReady t
    → Recalled t.hist r
    → IsReady (show_history_line r t)
unfolding show_history_line
show_history_line-IsReady t (none, h) i k = record {
  in_step = i.in_step;
  ring = k.ring;
  lines = λ j. rw (k.same j) (i.lines j);
}
show_history_line-IsReady t (some text, h) i k = record {
  in_step =
      Edited-InStep
        (show_line-Edited t.line blank_screen _ _ text (InStep-Edited i.in_step) k.text.0 k.text.1);
  ring = k.ring;
  lines = λ j. rw (k.same j) (i.lines j);
}

pub put_slot-Fits :
    (h : History) (o : Option (List ℕ)) (j : ℕ)
    → Fits (h.buf j)
    → Fits o
    → Fits (if h.index == j then o else h.buf j)
put_slot-Fits h o j k m = elim (Bool-cases (h.index == j)) [
  | inl here ↦ rw here m
  | inr apart ↦ rw apart k
]

pub history_add-Fits :
    (memory : Bool) (h : History) (line : List ℕ)
    → ((j : ℕ) → Fits (h.buf j))
    → Fits (some line)
    → (j : ℕ) → Fits ((history_add memory h line).buf j)
unfolding history_add
history_add-Fits memory h [] k m j = k j
history_add-Fits true h (c ∷ line) k m j =
    elim (Bool-cases (holds_line (h.buf (if h.index == 0 then 31 else h.index - 1)) (c ∷ line))) [
      | inl known ↦ rw known (k j)
      | inr fresh ↦ rw fresh (put_slot-Fits h (some (c ∷ line)) j (k j) m)
    ]
history_add-Fits false h (c ∷ line) k m j =
    elim (Bool-cases (holds_line (h.buf (if h.index == 0 then 31 else h.index - 1)) (c ∷ line))) [
      | inl known ↦ rw known (k j)
      | inr fresh ↦ rw fresh (put_slot-Fits h none j (k j) tt)
    ]

pub line-Fits : (t : Terminal) → InStep t.line → Fits (some (buffer_text t))
line-Fits t i =
    let e = t.line in
    let v = i.valid in
    let whole : buffer_text t ≡ slice e.cell 0 e.len = buffer_text-slice t v in
    let size = length-slice e.cell 0 e.len in
    rw whole (
      (λ j h. rw (get_or-slice e.cell 0 e.len j (omega arith)) (v.printable (0 + j) (omega arith))),
      omega arith,
    )

-- An executed line goes into the history, and an empty one stands behind a fresh prompt.
pub term_execute-IsReady : (c : Engine) (t : Terminal) → IsReady t → IsReady (term_execute c t)
unfolding term_execute clear_line store play
term_execute-IsReady c t i = record {
  in_step = record {
    valid = record {
      ordered = omega arith;
      room = omega (arith, i.in_step.valid.size);
      size = i.in_step.valid.size;
      safe = ground (arith, i.in_step.valid.safe, i.in_step.valid.size);
      ended = refl;
      printable = λ j h. absurd (omega arith);
    };
    shows = record { cursor = refl; text = λ j h. absurd (omega arith); blank = λ j h. refl };
  };
  ring = history_add-IsRing t.memory t.hist (buffer_text t) i.ring;
  lines = history_add-Fits t.memory t.hist (buffer_text t) i.lines (line-Fits t i.in_step);
}
