-- ===== src/Term/Words/Spans.antt =====
-- Loops of cli-term.c over the bytes of a line against runs of bytes in its two lists.
use mathlib.Core.List.{reverse, reverse-cons}
use chaconne.Prelude.{
  ℕ, zero, suc, ◌+◌, ◌-◌, ◌≤◌, ◌≡◌, refl, sym, ◌∙◌, ap, Bool, true, false, not, ◌&&◌, List, [], ◌∷◌,
  ◌++◌, arith, ltb, ◌==◌, length, append-nil, append_assoc, Bool-cases, inl, inr,
}
use chaconne.Term.Buffer.{Editor}
use chaconne.Term.Buffer.Shifts.{slice-nil, slice-cons, slice-last, slice-last_byte, length-slice}
use chaconne.Term.Screen.{Screen}
use chaconne.Term.Edit.{space}
use chaconne.Term.Edit.Refines.{before, Edited}
use chaconne.Term.Words.{repeat_while}

-- The bytes that pass `p`, taken one by one from `l`, the nearest first, and handed to `g`.
unfoldable pub span {ℓ} : {R : Type ℓ} → (ℕ → Bool) → (ℕ → R → R) → List ℕ → R → List ℕ × R
span p g [] r = ([], r)
span p g (c ∷ l) r = elim (p c) [ true ↦ span p g l (g c r) | false ↦ (c ∷ l, r) ]

abbrev pub is_blank : ℕ → Bool
is_blank c = c == space

abbrev pub is_word : ℕ → Bool
is_word c = not (c == space)

-- A moved byte joins the other list, a deleted one joins none.
abbrev pub push_front : ℕ → List ℕ → List ℕ
push_front c r = c ∷ r

abbrev pub push_back : ℕ → List ℕ → List ℕ
push_back c l = l ++ c ∷ []

abbrev pub forget : ℕ → List ℕ → List ℕ
forget c l = l

-- A loop whose step takes the byte before the cursor away takes a run of bytes away.
pub span_before :
    (p : ℕ → Bool) (g : ℕ → List ℕ → List ℕ) (test : Editor → Bool) (step : Editor → Editor)
    (s : Screen)
    → ((e : Editor) → test e ≡ (ltb 0 e.cp && p (e.cell (e.cp - 1))))
    → ((e : Editor) (l r : List ℕ) (c : ℕ)
        → Edited e s (l ++ c ∷ []) r
        → Edited (step e) s l (g c r))
    → (n : ℕ) (e : Editor) (l r : List ℕ) → e.cp ≤ n
    → Edited e s (reverse l) r
    → Edited (repeat_while n test step e) s (reverse (span p g l r).0) (span p g l r).1
unfolding repeat_while span
span_before p g test step s tests steps zero e [] r le d = d
span_before p g test step s tests steps zero e (c ∷ l) r le d =
    absurd (omega (arith, slice-last e.cell 0 e.cp (reverse l) c (d.left ∙ reverse-cons c l)))
span_before p g test step s tests steps (suc n) e [] r le d =
    let start : e.cp ≡ 0 = slice-nil e.cell 0 e.cp d.left in
    let stop : test e ≡ false = tests e ∙ ground arith in rw (stop, repeat_while) d
span_before p g test step s tests steps (suc n) e (c ∷ l) r le d =
    let shape : before e ≡ reverse l ++ c ∷ [] = d.left ∙ reverse-cons c l in
    let head = slice-last e.cell 0 e.cp (reverse l) c shape in
    let byte = slice-last_byte e.cell 0 e.cp (reverse l) c shape in
    let seen : test e ≡ p c = tests e ∙ ground (arith, byte) in
    elim (Bool-cases (p c)) [
      | inr stop ↦ rw (seen, stop, repeat_while, span) d
      | inl go ↦
          let d' = steps e (reverse l) r c (rw (reverse-cons c l) at d) in
          let shorter : (step e).cp ≡ e.cp - 1 =
            sym (length-slice (step e).cell 0 (step e).cp)
            ∙ ap length (d'.left ∙ sym head.1)
            ∙ length-slice e.cell 0 (e.cp - 1) in
          rw (seen, go, repeat_while, span)
            (span_before p g test step s tests steps n (step e) l (g c r) (omega arith) d')
    ]

-- A loop whose step takes the byte behind the cursor away takes a run of bytes away.
pub span_after :
    (p : ℕ → Bool) (g : ℕ → List ℕ → List ℕ) (test : Editor → Bool) (step : Editor → Editor)
    (s : Screen)
    → ((e : Editor) → test e ≡ (ltb e.cp e.len && p (e.cell e.cp)))
    → ((e : Editor) (l r : List ℕ) (c : ℕ) → Edited e s l (c ∷ r) → Edited (step e) s (g c l) r)
    → (n : ℕ) (e : Editor) (l r : List ℕ) → e.len - e.cp ≤ n
    → Edited e s l r
    → Edited (repeat_while n test step e) s (span p g r l).1 (span p g r l).0
unfolding repeat_while span
span_after p g test step s tests steps zero e l [] le d = d
span_after p g test step s tests steps zero e l (c ∷ r) le d =
    absurd (omega (arith, slice-cons e.cell e.cp (e.len - e.cp) c r d.right))
span_after p g test step s tests steps (suc n) e l [] le d =
    let end : e.len - e.cp ≡ 0 = slice-nil e.cell e.cp (e.len - e.cp) d.right in
    let stop : test e ≡ false = tests e ∙ ground arith in rw (stop, repeat_while) d
span_after p g test step s tests steps (suc n) e l (c ∷ r) le d =
    let tail = slice-cons e.cell e.cp (e.len - e.cp) c r d.right in
    let seen : test e ≡ p c = tests e ∙ ground (arith, tail.0, tail.1) in
    elim (Bool-cases (p c)) [
      | inr stop ↦ rw (seen, stop, repeat_while, span) d
      | inl go ↦
          let d' = steps e l r c d in
          let shorter : (step e).len - (step e).cp ≡ e.len - e.cp - 1 =
            sym (length-slice (step e).cell (step e).cp ((step e).len - (step e).cp))
            ∙ ap length (d'.right ∙ sym tail.2)
            ∙ length-slice e.cell (e.cp + 1) (e.len - e.cp - 1) in
          rw (seen, go, repeat_while, span)
            (span_after p g test step s tests steps n (step e) (g c l) r (omega (arith, tail.0)) d')
    ]

-- A run of blanks, then a run of other bytes.
abbrev pub two_spans : (ℕ → List ℕ → List ℕ) → List ℕ → List ℕ → List ℕ × List ℕ
two_spans g l r = span is_word g (span is_blank g l r).0 (span is_blank g l r).1

pub span-all : (l r : List ℕ) → span (λ _. true) push_front l r ≡ ([], reverse l ++ r)
unfolding span
span-all [] r = refl
span-all (c ∷ l) r =
    span-all l (c ∷ r)
    ∙ ap (λ x. ([], x)) (rw (reverse-cons c l, append_assoc (reverse l) (c ∷ []) r))

pub span-all_back : (r l : List ℕ) → span (λ _. true) push_back r l ≡ ([], l ++ r)
unfolding span
span-all_back [] l = rw append-nil
span-all_back (c ∷ r) l = rw (span-all_back r (l ++ c ∷ []), append_assoc l (c ∷ []) r)
