-- ===== src/Term/Screen.antt =====
-- What a terminal shows: an independent description of the device that the bytes which the line
-- editor of cli-term.c writes are meant for. Columns count from the end of the prompt.
use chaconne.Prelude.{
  ℕ, zero, suc, ◌+◌, ◌-◌, ◌≤◌, ◌<◌, ◌≡◌, ◌≢◌, refl, ◌∙◌, ◌&&◌, List, [], ◌∷◌, ◌++◌, arith, ltb, leb,
  ◌==◌, if◌then◌else◌, replicate,
}
use chaconne.Term.Buffer.{Editor, update, slice}

pub record Screen : Type 0 where
  pub shown : ℕ → ℕ
  pub col : ℕ

-- A backspace moves the cursor left; any other byte is drawn at the cursor, which moves right.
unfoldable pub draw : ℕ → Screen → Screen
draw c s =
    if c == 8
    then record s { col = s.col - 1 }
    else record { shown = update s.shown s.col c; col = s.col + 1 }

unfoldable pub play : List ℕ → Screen → Screen
unfolding draw
play [] s = s
play (c ∷ cs) s = play cs (draw c s)

-- The screen shows the line of `e`, blank behind its end, with the cursor where `e` has it.
pub record Shows (e : Editor) (s : Screen) : Type 0 where
  pub cursor : s.col ≡ e.cp
  pub text : (j : ℕ) → j < e.len → s.shown j ≡ e.cell j
  pub blank : (j : ℕ) → e.len ≤ j → s.shown j ≡ 32

pub play-append : (xs ys : List ℕ) (s : Screen) → play (xs ++ ys) s ≡ play ys (play xs s)
unfolding play
play-append [] ys s = refl
play-append (x ∷ xs) ys s = play-append xs ys (draw x s)

-- Drawn text replaces what stands from the cursor on.
pub play-slice :
    (f : ℕ → ℕ) (i n : ℕ) (s : Screen)
    → ((j : ℕ) → j < n → f (i + j) ≢ 8)
    → ((play (slice f i n) s).col ≡ s.col + n)
      × ((j : ℕ)
          → (play (slice f i n) s).shown j
            ≡ (if leb s.col j && ltb j (s.col + n) then f (i + j - s.col) else s.shown j))
unfolding play
play-slice f i zero s ok = (ground arith, λ j. ground arith)
play-slice f i (suc n) s ok =
    let first : f i ≢ 8 = ground (arith, ok 0) in
    let rest = play-slice f (i + 1) n (draw (f i) s) (λ j l. ground (arith, ok (j + 1))) in
    (ground (arith, rest.0, first), λ j. ground (arith, rest.1 j, first))

-- Backspaces only move the cursor.
pub play-backspaces : (n : ℕ) (s : Screen) → play (replicate n 8) s ≡ record s { col = s.col - n }
unfolding play
play-backspaces zero s = ground arith
play-backspaces (suc n) s = play-backspaces n (draw 8 s) ∙ ground arith

-- The tail of a line, drawn again from the cursor on, with the cursor put back before it.
pub play-tail :
    (f : ℕ → ℕ) (i n : ℕ) (s : Screen)
    → ((j : ℕ) → j < n → f (i + j) ≢ 8)
    → ((play (slice f i n ++ replicate n 8) s).col ≡ s.col)
      × ((j : ℕ)
          → (play (slice f i n ++ replicate n 8) s).shown j
            ≡ (if leb s.col j && ltb j (s.col + n) then f (i + j - s.col) else s.shown j))
play-tail f i n s ok =
    let drawn = play-slice f i n s ok in
    rw (play-append, play-backspaces) (omega (arith, drawn.0), drawn.1)

-- The same with a blank behind the tail, which covers the column of a deleted byte.
pub play-tail_blank :
    (f : ℕ → ℕ) (i n : ℕ) (s : Screen)
    → ((j : ℕ) → j < n → f (i + j) ≢ 8)
    → ((play (slice f i n ++ 32 ∷ replicate (n + 1) 8) s).col ≡ s.col)
      × ((j : ℕ)
          → (play (slice f i n ++ 32 ∷ replicate (n + 1) 8) s).shown j ≡ (
              if leb s.col j && ltb j (s.col + n)
              then f (i + j - s.col)
              else if j == s.col + n
              then 32
              else s.shown j))
unfolding play
play-tail_blank f i n s ok =
    let drawn = play-slice f i n s ok in
    rw (play-append, play, play-backspaces)
      (ground (arith, drawn.0), λ j. ground (arith, drawn.0, drawn.1 j))

-- Drawing one byte `n` times.
pub play-replicate :
    (n c : ℕ) (s : Screen)
    → c ≢ 8
    → ((play (replicate n c) s).col ≡ s.col + n)
      × ((j : ℕ)
          → (play (replicate n c) s).shown j
            ≡ (if leb s.col j && ltb j (s.col + n) then c else s.shown j))
unfolding play
play-replicate zero c s ok = (ground arith, λ j. ground arith)
play-replicate (suc n) c s ok =
    let rest = play-replicate n c (draw c s) ok in
    (ground (arith, rest.0), λ j. ground (arith, rest.1 j))
