-- ===== src/Term/History/Ring.antt =====
-- The ring of cli-term.c as the sequence of its lines, the newest first.
use chaconne.Prelude.{
  ℕ, zero, suc, ◌+◌, ◌-◌, ◌%◌, ◌≤◌, ◌<◌, ◌≡◌, ◌≢◌, refl, sym, ap, ◌∙◌, Bool, true, false, List, [],
  ◌∷◌, ◌++◌, Option, some, arith, ◌==◌, Bool-cases, inl, inr, if◌then◌else◌,
}
use chaconne.Term.History.{
  History, max_hist, visit, history_previous, history_next, holds_line, history_add, slot_lines,
  print_loop, history_print,
}

pub record IsRing (h : History) : Type 0 where
  pub index_lt : h.index < max_hist
  pub cp_lt : h.cp < max_hist

-- The `k`-th newest line, from 1 on.
abbrev pub nth : History → ℕ → Option (List ℕ)
nth h k = h.buf ((h.index + max_hist - k) % max_hist)

-- How far back the current line is; 0 means none.
abbrev pub depth : History → ℕ
depth h = (h.index + max_hist - h.cp) % max_hist

pub history_add-IsRing :
    (memory : Bool) (h : History) (line : List ℕ) → IsRing h → IsRing (history_add memory h line)
unfolding history_add
history_add-IsRing memory h [] v = v
history_add-IsRing memory h (c ∷ line) v = ground arith

-- With indices in range, memory, and a nonempty line that is not the newest already: history_add
-- makes it the newest, each of the 31 lines before it moves back by one, and no older line is
-- current.
pub history_add-nth :
    (h : History) (c : ℕ) (line : List ℕ) (k : ℕ)
    → IsRing h
    → holds_line (nth h 1) (c ∷ line) ≡ false
    → 1 ≤ k
    → k < max_hist
    → (nth (history_add true h (c ∷ line)) 1 ≡ some (c ∷ line))
      × (nth (history_add true h (c ∷ line)) (k + 1) ≡ nth h k)
      × (depth (history_add true h (c ∷ line)) ≡ 0)
unfolding history_add
history_add-nth h c line k v fresh lo hi =
    let newest : (h.index + max_hist - 1) % max_hist
        ≡ (if h.index == 0 then max_hist - 1 else h.index - 1) =
      ground arith in
    rw (ap (λ x. holds_line (h.buf x) (c ∷ line)) (sym newest) ∙ fresh)
      (ground arith, ground arith, ground arith)

abbrev older_slot : History → ℕ
older_slot h = if h.cp == 0 then max_hist - 1 else h.cp - 1

previous_step :
    (h : History) (line : List ℕ)
    → older_slot h ≢ h.index
    → h.buf (older_slot h) ≡ some line
    → history_previous h ≡ (some line, record h { cp = older_slot h })
unfolding history_previous
previous_step h line ne e =
    let differ : (older_slot h == h.index) ≡ false = ground arith in rw (differ, e, visit)

back_up :
    (h : History)
    → h.cp < max_hist
    → (if older_slot h == max_hist - 1 then 0 else older_slot h + 1) ≡ h.cp
back_up h lt = ground arith

next_step :
    (h : History) (current : List ℕ)
    → h.cp < max_hist
    → older_slot h ≢ h.index
    → (if h.cp == h.index then some [] else h.buf h.cp) ≡ some current
    → history_next (record h { cp = older_slot h }) ≡ (some current, h)
unfolding history_next
next_step h current lt ne e =
    let differ : (older_slot h == h.index) ≡ false = ground arith in
    rw (differ, back_up h lt)
      (elim (Bool-cases (h.cp == h.index)) [
        | inl same ↦
            let at : h.index ≡ h.cp = ground arith in
            rw (same, at)
              (ap (λ (x : Option (List ℕ)). (x, record h { index = h.cp })) (rw same at e))
        | inr other ↦ rw (other, rw other at e, visit)
      ])

-- With indices in range, where the next older line exists and does not lie beyond the ring:
-- history_previous answers it and makes it current, and history_next then goes back to the line
-- left, or to the empty line if there was none, and restores the history as it was.
pub history_previous-nth :
    (h : History) (line current : List ℕ)
    → IsRing h
    → depth h + 1 < max_hist
    → nth h (depth h + 1) ≡ some line
    → (if depth h == 0 then some [] else nth h (depth h)) ≡ some current
    → ((history_previous h).0 ≡ some line)
      × (depth (history_previous h).1 ≡ depth h + 1)
      × (history_next (history_previous h).1 ≡ (some current, h))
unfolding history_previous history_next
history_previous-nth h line current v room older here =
    let cp_lt = v.cp_lt in
    let index_lt = v.index_lt in
    let back : (h.index + max_hist - (depth h + 1)) % max_hist
        ≡ (if h.cp == 0 then max_hist - 1 else h.cp - 1) =
      ground arith in
    let now : (h.index + max_hist - depth h) % max_hist ≡ h.cp = ground arith in
    let moved = sym (ap h.buf back) ∙ older in
    let old = ap (λ x. if depth h == 0 then some [] else h.buf x) (sym now) ∙ here in
    let differ : older_slot h ≢ h.index = ground arith in
    let zero_depth : (h.cp == h.index) ≡ (depth h == 0) = ground arith in
    let first = previous_step h line differ moved in
    rw first (refl, ground arith, next_step h current v.cp_lt differ (rw (← zero_depth) at old))

-- The `k` newest lines, the oldest of them first.
pub newest_lines : History → ℕ → List (List ℕ)
newest_lines h zero = []
newest_lines h (suc k) = slot_lines (nth h (suc k)) ++ newest_lines h k

-- Below the write index the loop counts up to it.
print_below :
    (h : History) (n index f : ℕ)
    → IsRing h
    → index + n ≡ h.index
    → n < f
    → print_loop f h index ≡ some (newest_lines h n)
unfolding print_loop newest_lines
print_below h zero index zero v e lt = absurd (omega arith)
print_below h zero index (suc f) v e lt =
    let stop : (index == h.index) ≡ true = ground arith in rw (stop, print_loop)
print_below h (suc n) index zero v e lt = absurd (omega arith)
print_below h (suc n) index (suc f) v e lt =
    let go : (index == h.index) ≡ false = ground arith in
    let no_wrap : (index == max_hist) ≡ false = ground (arith, v.index_lt) in
    let slot : (h.index + max_hist - suc n) % max_hist ≡ index = omega (arith, v.index_lt) in
    rw (go, no_wrap, print_below h n (index + 1) f v (omega arith) (omega arith), print_loop)
      (ap (λ i. some (slot_lines (h.buf i) ++ newest_lines h n)) (sym slot))

-- Above it the loop wraps once.
print_above :
    (h : History) (n index f : ℕ)
    → IsRing h
    → h.index < index
    → index ≤ max_hist
    → index + n ≡ h.index + max_hist
    → n + 1 < f
    → print_loop f h index ≡ some (newest_lines h n)
unfolding print_loop newest_lines
print_above h n index zero v lo hi e lt = absurd (omega arith)
print_above h zero index (suc f) v lo hi e lt =
    let go : (index == h.index) ≡ false = ground arith in
    let wrap : (index == max_hist) ≡ true = ground (arith, v.index_lt) in
    rw (go, wrap, print_loop) (print_below h zero 0 f v (omega arith) (omega arith))
print_above h (suc n) index (suc f) v lo hi e lt =
    let go : (index == h.index) ≡ false = ground arith in
    elim (Bool-cases (index == max_hist)) [
      | inl wrap ↦
          rw (go, wrap, print_loop) (print_below h (suc n) 0 f v (ground arith) (omega arith))
      | inr no_wrap ↦
          let slot : (h.index + max_hist - suc n) % max_hist ≡ index = ground (arith, v.index_lt) in
          rw
            (
              go,
              no_wrap,
              print_above h n (index + 1) f v (omega arith) (ground arith) (omega arith)
                  (omega arith),
              print_loop,
            )
            (ap (λ i. some (slot_lines (h.buf i) ++ newest_lines h n)) (sym slot))
    ]

-- With indices in range the loop of history_print stops within 33 rounds, and prints the 31 lines
-- behind the write index that exist, the oldest first.
pub history_print-newest_lines :
    (h : History) → IsRing h → history_print h ≡ some (newest_lines h (max_hist - 1))
unfolding history_print
history_print-newest_lines h v =
    print_above h (max_hist - 1) (h.index + 1) (max_hist + 1) v (omega arith)
      (omega (arith, v.index_lt)) (omega arith) (omega arith)
