-- ===== src/Term/Session/Ready.antt =====
-- What a terminal of cli-term.c is like between two bytes, and the line that it hands out.
use mathlib.Core.List.{reverse}
use chaconne.Prelude.{
  ℕ, zero, suc, ◌+◌, ◌-◌, ◌≤◌, ◌<◌, ◌≡◌, ap, ◌∙◌, false, List, [], ◌++◌, Option, none, some, arith,
  ◌==◌, length,
}
use chaconne.Term.Buffer.{slice, buf_size}
use chaconne.Term.Buffer.Shifts.{slice-split, get_or-slice, length-slice}
use chaconne.Term.Edit.Refines.{IsValid, before, after}
use chaconne.Term.Edit.Replace.{IsPrintable}
use chaconne.Term.Words.Spans.{span, is_word, push_front}
use chaconne.Term.History.Ring.{IsRing}
use chaconne.Term.Session.{Terminal, Engine, Completion, full_match, match, c_string, buffer_text}
use chaconne.Term.Session.Keys.{InStep}

-- A line that the buffer can take.
abbrev pub Fits : Option (List ℕ) → Type 0
Fits none = Unit {0}
Fits (some line) = IsPrintable line × (length line < buf_size)

-- The line, the screen and the history of a terminal are as they should be.
pub record IsReady (t : Terminal) : Type 0 where
  pub in_step : InStep t.line
  pub ring : IsRing t.hist
  pub lines : (i : ℕ) → Fits (t.hist.buf i)

-- The length of the word that the line ends with.
abbrev pub last_word : List ℕ → ℕ
last_word line = length (span is_word push_front (reverse line) []).1

-- A completion is printable and no shorter than the word that it completes.
abbrev pub Completes : List ℕ → Completion → Type 0
Completes line (full_match key) = IsPrintable key × (last_word line ≤ length key)
Completes line (match key) = IsPrintable key × (last_word line ≤ length key)
Completes line _ = Unit {0}

-- What the terminal asks of the command engine, for the lines that it can hold.
pub record IsEngine (c : Engine) : Type 0 where
  pub completes : (line : List ℕ) → IsPrintable line → Completes line (c.complete line)

pub c_string-slice :
    (f : ℕ → ℕ) (i n m : ℕ)
    → n < m
    → f (i + n) ≡ 0
    → ((j : ℕ) → j < n → 31 < f (i + j))
    → c_string f i m ≡ slice f i n
unfolding c_string
c_string-slice f i n zero lt end text = absurd (omega arith)
c_string-slice f i zero (suc m) lt end text = ground arith
c_string-slice f i (suc n) (suc m) lt end text =
    let some_byte : (f i == 0) ≡ false = ground (arith, text 0) in
    let rest =
      c_string-slice f (i + 1) n m (omega arith) (ground arith)
        (λ j h. ground (arith, text (j + 1))) in
    rw (some_byte, rest)

pub buffer_text-slice :
    (t : Terminal) → IsValid t.line → buffer_text t ≡ slice t.line.cell 0 t.line.len
unfolding buffer_text
buffer_text-slice t v =
    c_string-slice t.line.cell 0 t.line.len t.line.max v.room (ground (arith, v.ended))
      (λ j h. ground (arith, v.printable (0 + j)))

pub buffer_text-IsPrintable : (t : Terminal) → IsValid t.line → IsPrintable (buffer_text t)
buffer_text-IsPrintable t v = rw (buffer_text-slice t v) (λ j h.
    let lt : j < t.line.len = omega (arith, length-slice t.line.cell 0 t.line.len) in
    rw (get_or-slice t.line.cell 0 t.line.len j lt) (v.printable (0 + j) (omega arith)))

-- The C string in the buffer is the line, all of it.
pub buffer_text-line :
    (t : Terminal) → IsValid t.line → buffer_text t ≡ before t.line ++ after t.line
buffer_text-line t v =
    let e = t.line in
    let whole : e.len ≡ e.cp + (e.len - e.cp) = omega (arith, v.ordered) in
    let start : 0 + e.cp ≡ e.cp = omega arith in
    buffer_text-slice t v
    ∙ ap (slice e.cell 0) whole
    ∙ slice-split e.cell 0 e.cp (e.len - e.cp)
    ∙ ap (λ k. before e ++ slice e.cell k (e.len - e.cp)) start
