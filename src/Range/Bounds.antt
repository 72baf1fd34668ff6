-- ===== src/Range/Bounds.antt =====
-- range.c: what the parser stores fits the array, and it stops within the text.
use mathlib.Core.Path.{subst}
use chaconne.Prelude.{
  ℕ, suc, ◌+◌, ◌-◌, ◌≤◌, ◌≡◌, ◌⊎◌, ap, Bool, true, false, ◌&&◌, ◌||◌, List, [], ◌∷◌, Option, none,
  some, arith, leb, ◌==◌, if◌then◌else◌, length, length-append, get_elem?, Bool-cases, inl, inr,
}
use chaconne.Range.{
  State, start, range_start, range_start_space, range_end, range_end_space, range_desc, delimiter,
  Range, Scan, store, blank, digit, graph, step, at_end, ended, loop, range_parse, in_desc,
}

module _ (text : List ℕ) (size : ℕ) (strtoul : List ℕ → ℕ) (isgraph : ℕ → Bool) where
  -- What a result keeps within the array, an error or not.
  abbrev Fits : Scan × Bool → Type 0
  Fits (scan, ok) = length scan.stored ≤ size

  store-Fits :
      (p : ℕ) (next : State) (scan : Scan)
      → length scan.stored ≤ size
      → Fits (store text size strtoul isgraph p next scan)
  unfolding store
  store-Fits p next scan h = elim (Bool-cases (length scan.stored == size)) [
    | inl full ↦ rw (store, full) h
    | inr room ↦ rw (store, room, length-append scan.stored) (ground (arith, room, h))
  ]

  blank-Fits :
      (st : State) (scan : Scan)
      → length scan.stored ≤ size
      → Fits (blank text size strtoul isgraph st scan, true)
  unfolding blank
  blank-Fits start scan h = h
  blank-Fits range_start scan h = h
  blank-Fits range_start_space scan h = h
  blank-Fits range_end scan h = h
  blank-Fits range_end_space scan h = h
  blank-Fits range_desc scan h = h
  blank-Fits delimiter scan h = h

  digit-Fits :
      (st : State) (p : ℕ) (scan : Scan)
      → length scan.stored ≤ size
      → Fits (digit text size strtoul isgraph st p scan, true)
  unfolding digit
  digit-Fits start p scan h = h
  digit-Fits range_start p scan h = h
  digit-Fits range_start_space p scan h = h
  digit-Fits range_end p scan h = h
  digit-Fits range_end_space p scan h = h
  digit-Fits range_desc p scan h = h
  digit-Fits delimiter p scan h = h

  graph-Fits :
      (st : State) (p : ℕ) (scan : Scan)
      → length scan.stored ≤ size
      → Fits (graph text size strtoul isgraph st p scan)
  unfolding graph
  graph-Fits start p scan h = h
  graph-Fits range_start p scan h = h
  graph-Fits range_start_space p scan h = h
  graph-Fits range_end p scan h = h
  graph-Fits range_end_space p scan h = h
  graph-Fits range_desc p scan h = h
  graph-Fits delimiter p scan h = h

  at_end-Fits :
      (st : State) (p : ℕ) (scan : Scan)
      → length scan.stored ≤ size
      → Fits (at_end text size strtoul isgraph st p scan)
  unfolding at_end
  at_end-Fits start p scan h = h
  at_end-Fits range_start p scan h = h
  at_end-Fits range_start_space p scan h = h
  at_end-Fits range_end p scan h = h
  at_end-Fits range_end_space p scan h = h
  at_end-Fits range_desc p scan h = store-Fits p range_desc scan h
  at_end-Fits delimiter p scan h = store-Fits p range_desc scan h

  if-Fits : (b : Bool) (x y : Scan × Bool) → Fits x → Fits y → Fits (if b then x else y)
  if-Fits true x y hx hy = hx
  if-Fits false x y hx hy = hy

  step-Fits :
      (c p : ℕ) (scan : Scan)
      → length scan.stored ≤ size
      → Fits (step text size strtoul isgraph c p scan)
  unfolding step
  step-Fits c p scan h =
      if-Fits ((c == 32) || (c == 9) || (c == 10)) _ _ (blank-Fits scan.state scan h) (
        if-Fits (c == 44) _ _ (if-Fits (in_desc scan.state) _ _ (store-Fits p delimiter scan h) h) (
          if-Fits (leb c 57 && leb 48 c) _ _ (digit-Fits scan.state p scan h)
            (if-Fits (isgraph c) _ _ (graph-Fits scan.state p scan h) h)))

  -- The end of the loop from position `p`, with `rest` behind it.
  abbrev EndsAt : List ℕ → ℕ → Option ℕ → Type 0
  EndsAt rest p none = Unit
  EndsAt rest p (some q) = (p ≤ q) × ((q ≡ p + length rest) ⊎ (get_elem? rest (q - p) ≡ some 10))

  abbrev Stops : List ℕ → ℕ → List Range × Option ℕ → Type 0
  Stops rest p (entries, end) = (length entries ≤ size) × EndsAt rest p end

  ended-Stops :
      (rest : List ℕ) (p : ℕ) (r : Scan × Bool)
      → Fits r
      → EndsAt rest p (some p)
      → Stops rest p (ended text size strtoul isgraph p r)
  unfolding ended
  ended-Stops rest p (scan, true) h e = (h, e)
  ended-Stops rest p (scan, false) h e = (h, tt)

  loop-Stops :
      (rest : List ℕ) (p : ℕ) (scan : Scan)
      → length scan.stored ≤ size
      → Stops rest p (loop text size strtoul isgraph rest p scan)
  unfolding loop
  loop-Stops [] p scan h =
      ended-Stops [] p (at_end text size strtoul isgraph scan.state p scan)
        (at_end-Fits scan.state p scan h) (omega arith, inl (omega arith))
  loop-Stops (c ∷ cs) p scan h = elim (Bool-cases ((c == 10) && in_desc scan.state)) [
    | inl line_end ↦
        let here : 0 ≡ p - p = omega arith in
        let newline : c ≡ 10 = ground (arith, line_end) in
        rw (loop, line_end)
          (ended-Stops (c ∷ cs) p (store text size strtoul isgraph p range_desc scan)
            (store-Fits p range_desc scan h)
            (omega arith, inr (subst (λ k. get_elem? (c ∷ cs) k ≡ some 10) here (ap some newline))))
    | inr on ↦
        let next = step text size strtoul isgraph c p scan in
        let fits = step-Fits c p scan h in
        elim (Bool-cases next.1) [
          | inr error ↦ rw (loop, on, error) (fits, tt)
          | inl ok ↦
              rw (loop, on, ok)
                (later c cs p (loop text size strtoul isgraph cs (p + 1) next.0)
                  (loop-Stops cs (p + 1) next.0 fits))
        ]
  ]
    where
      later :
          (c : ℕ) (cs : List ℕ) (p : ℕ) (r : List Range × Option ℕ)
          → Stops cs (p + 1) r
          → Stops (c ∷ cs) p r
      later c cs p (entries, none) t = (t.0, tt)
      later c cs p (entries, some q) t =
          let step_back : suc (q - (p + 1)) ≡ q - p = omega (arith, t.1.0) in
          (
            t.0,
            (
              omega (arith, t.1.0),
              elim t.1.1 [
                | inl at_nul ↦ inl (omega (arith, at_nul))
                | inr newline ↦ inr (subst (λ k. get_elem? (c ∷ cs) k ≡ some 10) step_back newline)
              ],
            ),
          )

  -- Whether `range_parse` succeeds or returns -1, it has stored no more ranges than the array holds;
  -- and where it succeeds, the end that it reports is that of the text or a line end in it.
  pub range_parse-Stops :
      (length (range_parse text size strtoul isgraph).0 ≤ size)
      × ((q : ℕ)
          → (range_parse text size strtoul isgraph).1 ≡ some q
          → (q ≡ length text) ⊎ (get_elem? text q ≡ some 10))
  unfolding range_parse
  range_parse-Stops =
      let t =
        loop-Stops text 0 (record { state = start; s = 0; first = 0; last = 0; stored = [] })
          (omega arith) in
      (
        t.0,
        λ q e.
            let ends = subst (EndsAt text 0) e t.1 in
            let here : q - 0 ≡ q = omega arith in
            elim ends.1 [
              | inl at_nul ↦ inl (omega (arith, at_nul))
              | inr newline ↦ inr (subst (λ k. get_elem? text k ≡ some 10) here newline)
            ],
      )
