-- ===== src/Term/Session/Typing.antt =====
-- A line typed into the terminal of cli-term.c is the line that gets executed.
use mathlib.Core.Path.{subst}
use chaconne.Prelude.{
  ℕ, ◌+◌, ◌-◌, true, Bool-cases, inl, inr, ◌<◌, ◌≡◌, ◌≢◌, refl, sym, ap, ◌∙◌, false, List, [], ◌∷◌,
  ◌++◌, arith, append_assoc, append-nil, length, length-append, if◌then◌else◌,
}
use chaconne.Term.Buffer.{buf_size}
use chaconne.Term.Buffer.Shifts.{length-slice, slice-nil}
use chaconne.Term.Edit.{self_insert}
use chaconne.Term.Edit.Refines.{Edited, self_insert-Edited}
use chaconne.Term.Session.{
  Terminal, Engine, normal, edit, dispatch, term_read, term_run, buffer_text, term_execute,
}
use chaconne.Term.History.{history_add}
use chaconne.Term.Session.Keys.{blank_screen}
use chaconne.Term.Session.Ready.{buffer_text-line}

-- A byte that goes into the line: printable, and not the `?` that asks for help.
abbrev pub IsText : List ℕ → Type 0
IsText [] = Unit {0}
IsText (c ∷ w) = (31 < c) × (c < 127) × (c ≢ b'?') × IsText w

-- A terminal that waits for text: `l` stands before the cursor, and nothing behind it.
pub record Waits (t : Terminal) (l : List ℕ) : Type 0 where
  pub edited : Edited t.line blank_screen l []
  pub escape : t.escape ≡ normal
  pub running : t.stop ≡ false

term_read-text :
    (engine : Engine) (c : ℕ) (t : Terminal)
    → t.escape ≡ normal
    → 31 < c
    → c < 127
    → c ≢ b'?'
    → term_read engine c t ≡ edit (λ e. self_insert e c) t
unfolding term_read
term_read-text engine c t e lo hi ne = rw e (ground arith)

run_step :
    (engine : Engine) (c : ℕ) (w : List ℕ) (t : Terminal)
    → t.stop ≡ false
    → term_run engine (c ∷ w) t ≡ term_run engine w (term_read engine c t)
unfolding term_run
run_step engine c w t e = ap (λ b. if b then t else term_run engine w (term_read engine c t)) e

run_stopped :
    (engine : Engine) (cs : List ℕ) (t : Terminal) → t.stop ≡ true → term_run engine cs t ≡ t
unfolding term_run
run_stopped engine [] t e = refl
run_stopped engine (c ∷ cs) t e =
    ap (λ b. if b then t else term_run engine cs (term_read engine c t)) e

-- Bytes in two batches are bytes in one.
pub term_run-append :
    (engine : Engine) (cs ds : List ℕ) (t : Terminal)
    → term_run engine (cs ++ ds) t ≡ term_run engine ds (term_run engine cs t)
term_run-append engine [] ds t = unfold term_run in refl
term_run-append engine (c ∷ cs) ds t = elim (Bool-cases t.stop) [
  | inl stopped ↦
      run_stopped engine (c ∷ (cs ++ ds)) t stopped
      ∙ sym (run_stopped engine ds t stopped)
      ∙ ap (term_run engine ds) (sym (run_stopped engine (c ∷ cs) t stopped))
  | inr running ↦
      run_step engine c (cs ++ ds) t running
      ∙ term_run-append engine cs ds (term_read engine c t)
      ∙ ap (term_run engine ds) (sym (run_step engine c cs t running))
]

read_return :
    (engine : Engine) (u : Terminal)
    → u.escape ≡ normal
    → term_read engine 13 u ≡ term_execute engine u
unfolding term_read
read_return engine u e = ap (λ x. dispatch x engine 13 u) e

-- Text that fits the buffer comes to stand before the cursor as it is typed.
pub term_run-text :
    (engine : Engine) (w l : List ℕ) (t : Terminal)
    → Waits t l
    → IsText w
    → length l + length w + 1 < buf_size
    → Waits (term_run engine w t) (l ++ w)
unfolding edit
term_run-text engine [] l t k p room = unfold term_run in rw (append-nil l) k
term_run-text engine (c ∷ w) l t k p room =
    let d = k.edited in
    let size : t.line.cp ≡ length l =
      sym (length-slice t.line.cell 0 t.line.cp) ∙ ap length d.left in
    let end = slice-nil t.line.cell t.line.cp (t.line.len - t.line.cp) d.right in
    let v = d.valid in
    let typed =
      self_insert-Edited t.line blank_screen v d.shows c p.0 p.1
        (omega (arith, v.ordered, v.size)) in
    let t' = edit (λ e. self_insert e c) t in
    let k' : Waits t' (l ++ c ∷ []) = record {
      edited = rw (d.left, d.right) at typed;
      escape = k.escape;
      running = k.running;
    } in
    let next =
      run_step engine c w t k.running
      ∙ ap (term_run engine w) (term_read-text engine c t k.escape p.0 p.1 p.2) in
    subst (λ x. Waits x (l ++ c ∷ w)) (sym next)
      (rw append_assoc at
        (term_run-text engine w (l ++ c ∷ []) t' k' p.3 (omega (arith, length-append l (c ∷ [])))))

-- At an empty line, for a printable text without `?` that fits the buffer: once it is typed, the
-- buffer holds just that text; the carriage return behind it runs term_execute, which hands that
-- text to history_add; and the terminal stops exactly if the engine, given that text, asks for it.
pub term_run-execute :
    (engine : Engine) (w : List ℕ) (t : Terminal)
    → Waits t []
    → IsText w
    → length w + 1 < buf_size
    → let u = term_run engine w t in
      (buffer_text u ≡ w)
      × (term_run engine (w ++ 13 ∷ []) t ≡ term_execute engine u)
      × ((term_execute engine u).hist ≡ history_add u.memory u.hist w)
      × ((term_execute engine u).stop ≡ (engine.execute u.hist w).stop)
term_run-execute engine w t k p room =
    let u = term_run engine w t in
    let d = term_run-text engine w [] t k p (omega arith) in
    let whole : buffer_text u ≡ w =
      buffer_text-line u d.edited.valid ∙ rw (d.edited.left, d.edited.right) (append-nil w) in
    (
      whole,
      term_run-append engine w (13 ∷ []) t
          ∙ run_step engine 13 [] u d.running
          ∙ (unfold term_run in read_return engine u d.escape),
      (unfold term_execute in ap (history_add u.memory u.hist) whole),
      (unfold term_execute in rw (d.running, whole)),
    )
