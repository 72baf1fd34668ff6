-- ===== src/Tree/Complete/LastWord.antt =====
-- The word that a completion of cli-tree.c extends, and the one that cli-term.c replaces by it.
use mathlib.Core.Path.{subst}
use mathlib.Core.List.{reverse, reverse-append, reverse-cons}
use chaconne.Prelude.{
  ℕ, suc, ◌+◌, ◌-◌, ◌≤◌, ◌<◌, ◌≡◌, ◌⊎◌, refl, sym, ap, ◌∙◌, Bool, true, List, [], ◌∷◌, ◌++◌, some,
  arith, ◌==◌, length, length-append, get_elem?, append_assoc, Bool-cases, inl, inr,
}
use chaconne.Term.Words.Spans.{span, is_word, push_front}
use chaconne.Term.Session.Ready.{last_word}
use chaconne.Tree.Lines.{split, in_word}
use chaconne.Tree.Lines.RoundTrip.{Every}
use chaconne.Tree.Complete.{ends_blank}

span-length : (l r : List ℕ) → length (span is_word push_front l r).1 ≤ length l + length r
unfolding span
span-length [] r = omega arith
span-length (c ∷ l) r = elim (Bool-cases (is_word c)) [
  | inl go ↦ rw (span, go) (omega (arith, span-length l (c ∷ r)))
  | inr stop ↦ rw (span, stop) (omega arith)
]

span-blank :
    (l m r : List ℕ) → (span is_word push_front (l ++ 32 ∷ m) r).1 ≡ (span is_word push_front l r).1
unfolding span
span-blank [] m r = refl
span-blank (c ∷ l) m r = elim (Bool-cases (is_word c)) [
  | inl go ↦ rw (span, go) (span-blank l m (c ∷ r))
  | inr stop ↦ rw (span, stop) refl
]

reverse-length : (l : List ℕ) → length (reverse l) ≡ length l
reverse-length [] = refl
reverse-length (c ∷ l) =
    ap length (reverse-cons c l)
    ∙ length-append (reverse l) (c ∷ [])
    ∙ omega (arith, reverse-length l)

pub last_word-le : (l : List ℕ) → last_word l ≤ length l
last_word-le l = omega (arith, span-length (reverse l) [], reverse-length l)

last_word-blank : (xs ys : List ℕ) → last_word (xs ++ 32 ∷ ys) ≡ last_word ys
last_word-blank xs ys =
    ap (λ l. length (span is_word push_front l []).1)
      (reverse-append xs (32 ∷ ys)
        ∙ ap (λ l. l ++ reverse xs) (reverse-cons 32 ys)
        ∙ append_assoc (reverse ys) (32 ∷ []) (reverse xs))
    ∙ ap length (span-blank (reverse ys) (reverse xs) [])

pub last_word-gap : (gap ys : List ℕ) → Every (λ c. c == 32) gap → last_word (gap ++ ys) ≤ length ys
last_word-gap [] ys h = last_word-le ys
last_word-gap (c ∷ gap) ys h =
    let e : 32 ≡ c = ground (arith, h.0) in
    subst (λ k. last_word (k ∷ (gap ++ ys)) ≤ length ys) e
      (omega (arith, last_word-blank [] (gap ++ ys), last_word-gap gap ys h.1))

pub ends_blank-append :
    (xs : List ℕ) (y : ℕ) (ys : List ℕ) → ends_blank (xs ++ y ∷ ys) ≡ ends_blank (y ∷ ys)
unfolding ends_blank
ends_blank-append [] y ys = refl
ends_blank-append (x ∷ []) y ys = refl
ends_blank-append (x ∷ z ∷ xs) y ys = ends_blank-append (z ∷ xs) y ys

pub blanks-ends_blank :
    (c : ℕ) (cs : List ℕ) → Every (λ b. b == 32) (c ∷ cs) → ends_blank (c ∷ cs) ≡ true
unfolding ends_blank
blanks-ends_blank c [] h = h.0
blanks-ends_blank c (d ∷ cs) h = blanks-ends_blank d cs h.1

-- A blank at its end leaves no last word.
pub ends_blank-last_word : (line : List ℕ) → ends_blank line ≡ true → last_word line ≡ 0
unfolding ends_blank
ends_blank-last_word [] h = cc
ends_blank-last_word (c ∷ []) h =
    let e : 32 ≡ c = ground (arith, h) in
    subst (λ k. last_word (k ∷ []) ≡ 0) e (omega (arith, last_word-blank [] [], last_word-le []))
ends_blank-last_word (c ∷ d ∷ cs) h =
    let (xs, e) = blank_at_end d cs h in
    ap (λ l. last_word (c ∷ l)) e ∙ omega (arith, last_word-blank (c ∷ xs) [], last_word-le [])
  where
    blank_at_end :
        (d : ℕ) (cs : List ℕ)
        → ends_blank (d ∷ cs) ≡ true
        → (xs : List ℕ) × (d ∷ cs ≡ xs ++ 32 ∷ [])
    blank_at_end d [] h = ([], (let e : d ≡ 32 = ground (arith, h) in ap (λ k. k ∷ []) e))
    blank_at_end d (b ∷ cs) h = let (xs, e) = blank_at_end b cs h in (d ∷ xs, ap (λ l. d ∷ l) e)

pub split-parts : (test : ℕ → Bool) (cs : List ℕ) → (split test cs).0 ++ (split test cs).1 ≡ cs
unfolding split
split-parts test [] = refl
split-parts test (c ∷ cs) = elim (Bool-cases (test c)) [
  | inl took ↦ rw (split, took) (ap (λ l. c ∷ l) (split-parts test cs))
  | inr left_it ↦ rw (split, left_it) refl
]

pub split-Every : (test : ℕ → Bool) (cs : List ℕ) → Every test (split test cs).0
unfolding split
split-Every test [] = tt
split-Every test (c ∷ cs) = elim (Bool-cases (test c)) [
  | inl took ↦ rw (split, took) (took, split-Every test cs)
  | inr left_it ↦ rw (split, left_it) tt
]

-- Bytes that a line can hold.
abbrev pub Visible : List ℕ → Type 0
Visible [] = Unit
Visible (c ∷ cs) = (31 < c) × Visible cs

pub Visible-left : (xs ys : List ℕ) → Visible (xs ++ ys) → Visible xs
Visible-left [] ys h = tt
Visible-left (x ∷ xs) ys h = (h.0, Visible-left xs ys h.1)

pub Visible-right : (xs ys : List ℕ) → Visible (xs ++ ys) → Visible ys
Visible-right [] ys h = h
Visible-right (x ∷ xs) ys h = Visible-right xs ys h.1

-- The last of the words covers the last word of the line.
abbrev pub Covers : List ℕ → List (List ℕ) → Type 0
Covers line words =
    (w : List ℕ) × (get_elem? words (length words - 1) ≡ some w) × (last_word line ≤ length w)

pub Covers-more :
    (gap w : List ℕ) (rest : List ℕ) (words : List (List ℕ))
    → Covers (32 ∷ rest) words
    → Covers (gap ++ (w ++ 32 ∷ rest)) (w ∷ words)
Covers-more gap w rest [] (v, e, le) = cc
Covers-more gap w rest (u ∷ words) (v, e, le) =
    let index : suc (suc (length words)) - 1 ≡ suc (suc (length words) - 1) = omega arith in
    let same : last_word (gap ++ (w ++ 32 ∷ rest)) ≡ last_word rest =
      ap last_word (sym (append_assoc gap w (32 ∷ rest))) ∙ last_word-blank (gap ++ w) rest in
    (v, rw index e, omega (arith, same, last_word-blank [] rest, le))

-- What stands behind a key: nothing, a blank, or a bar.
abbrev pub Ending : List ℕ → Type 0
Ending rest = (rest ≡ []) ⊎ (((r : List ℕ) × (rest ≡ 32 ∷ r)) ⊎ ((r : List ℕ) × (rest ≡ b'|' ∷ r)))

module _ (isspace : ℕ → Bool) (only_space : (c : ℕ) → 31 < c → isspace c ≡ (c == 32)) where
  pub blanks : (g : List ℕ) → Visible g → Every isspace g → Every (λ b. b == 32) g
  blanks [] v h = tt
  blanks (c ∷ g) v h = (sym (only_space c v.0) ∙ h.0, blanks g v.1 h.1)

  pub split-Ending : (cs : List ℕ) → Visible cs → Ending (split (in_word isspace) cs).1
  unfolding split in_word
  split-Ending [] v = inl refl
  split-Ending (c ∷ cs) v = elim (Bool-cases (in_word isspace c)) [
    | inl took ↦ rw (split, took) (split-Ending cs v.1)
    | inr stop ↦
        rw (split, stop)
          (elim (Bool-cases (c == b'|')) [
            | inl bar ↦
                (let e : c ≡ b'|' = ground (arith, bar) in inr (inr (cs, ap (λ k. k ∷ cs) e)))
            | inr other ↦
                let blank : (c == 32) ≡ true =
                  sym (only_space c v.0) ∙ ground (arith, stop, other) in
                let e : c ≡ 32 = ground (arith, blank) in inr (inl (cs, ap (λ k. k ∷ cs) e))
          ])
  ]
