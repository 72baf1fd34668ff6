-- ===== src/Tree/Complete/Prefixes.antt =====
-- Keys of cli-tree.c that start with the same bytes, and what `cmd_lcd` says of them.
use mathlib.Core.Path.{subst}
use chaconne.Prelude.{
  ℕ, zero, suc, ◌≤◌, ◌≡◌, refl, sym, ap, ◌∙◌, true, List, [], ◌∷◌, arith, ltb, ◌==◌, if◌then◌else◌,
  length, take, Bool-cases, inl, inr,
}
use chaconne.Tree.Complete.{has_prefix, common, lcd_loop, cmd_lcd}

-- Every one of the keys starts with the word.
abbrev pub Extend : List ℕ → List (List ℕ) → Type 0
Extend word [] = Unit
Extend word (k ∷ ks) = (has_prefix word k ≡ true) × Extend word ks

-- The common front of two keys.
common-take : (n : ℕ) (a b : List ℕ) → n ≤ common a b → take n a ≡ take n b
unfolding common
common-take zero a b h = refl
common-take (suc n) [] b h = absurd (omega arith)
common-take (suc n) (c ∷ cs) [] h = absurd (omega arith)
common-take (suc n) (c ∷ cs) (k ∷ ks) h = elim (Bool-cases (c == k)) [
  | inl same ↦
      let e : c ≡ k = ground (arith, same) in
      let le : n ≤ common cs ks = ground (arith, same, h) in
      ap (λ x. x ∷ take n cs) e ∙ ap (λ l. k ∷ l) (common-take n cs ks le)
  | inr differ ↦ absurd (ground (arith, differ, h))
]

common_le : (a b : List ℕ) → common a b ≤ length a
unfolding common
common_le [] b = omega arith
common_le (c ∷ cs) [] = omega arith
common_le (c ∷ cs) (k ∷ ks) = elim (Bool-cases (c == k)) [
  | inl same ↦ rw (common, same) (omega (arith, common_le cs ks))
  | inr differ ↦ rw (common, differ) (omega arith)
]

pub has_prefix-take : (n : ℕ) (k : List ℕ) → has_prefix (take n k) k ≡ true
unfolding has_prefix
has_prefix-take zero k = refl
has_prefix-take (suc n) [] = refl
has_prefix-take (suc n) (c ∷ cs) = ground (arith, has_prefix-take n cs)

lcd_loop-le : (lcd : ℕ) (key : List ℕ) (ks : List (List ℕ)) → lcd_loop lcd key ks ≤ lcd
unfolding lcd_loop
lcd_loop-le lcd key [] = omega arith
lcd_loop-le lcd key (next ∷ ks) =
    let j = common key next in
    let m = if ltb j lcd then j else lcd in
    let smaller : m ≤ lcd = ground arith in omega (arith, lcd_loop-le m next ks, smaller)

-- All keys of the loop start with what the first of them has in common with the others.
lcd_loop-Extend :
    (n lcd : ℕ) (key : List ℕ) (ks : List (List ℕ))
    → n ≤ lcd_loop lcd key ks
    → Extend (take n key) (key ∷ ks)
unfolding lcd_loop
lcd_loop-Extend n lcd key [] h = (has_prefix-take n key, tt)
lcd_loop-Extend n lcd key (next ∷ ks) h =
    let j = common key next in
    let m = if ltb j lcd then j else lcd in
    let smaller : m ≤ j = ground arith in
    let le : n ≤ j = omega (arith, lcd_loop-le m next ks, smaller, h) in
    (
      has_prefix-take n key,
      subst (λ p. Extend p (next ∷ ks)) (sym (common-take n key next le))
          (lcd_loop-Extend n m next ks h),
    )

-- No front that all the keys share is longer than `n`.
abbrev pub SharesAtMost : ℕ → List (List ℕ) → Type 0
SharesAtMost n ks = (front : List ℕ) → Extend front ks → length front ≤ n

-- A front of two keys is no longer than what they have in common.
common-prefix :
    (p a b : List ℕ) → has_prefix p a ≡ true → has_prefix p b ≡ true → length p ≤ common a b
unfolding common has_prefix
common-prefix [] a b ha hb = omega arith
common-prefix (c ∷ cs) [] b ha hb = cc
common-prefix (c ∷ cs) (x ∷ xs) [] ha hb = cc
common-prefix (c ∷ cs) (x ∷ xs) (y ∷ ys) ha hb =
    let same : (x == y) ≡ true = ground (arith, ha, hb) in
    rw (common, same)
      (omega (arith, common-prefix cs xs ys (ground (arith, ha)) (ground (arith, hb))))

lcd_loop-prefix :
    (p : List ℕ) (lcd : ℕ) (key : List ℕ) (ks : List (List ℕ))
    → length p ≤ lcd
    → Extend p (key ∷ ks)
    → length p ≤ lcd_loop lcd key ks
unfolding lcd_loop
lcd_loop-prefix p lcd key [] le h = le
lcd_loop-prefix p lcd key (next ∷ ks) le h =
    let j = common key next in
    let both = common-prefix p key next h.0 h.1.0 in
    let m = if ltb j lcd then j else lcd in
    let still : length p ≤ m = ground (arith, le, both) in lcd_loop-prefix p m next ks still h.1

pub cmd_lcd-SharesAtMost :
    (key next : List ℕ) (ks : List (List ℕ))
    → SharesAtMost (cmd_lcd (key ∷ next ∷ ks)) (key ∷ next ∷ ks)
unfolding cmd_lcd
cmd_lcd-SharesAtMost key next ks p h =
    lcd_loop-prefix p (common key next) next ks (common-prefix p key next h.0 h.1.0) h.1

pub cmd_lcd-Extend :
    (key : List ℕ) (ks : List (List ℕ))
    → Extend (take (cmd_lcd (key ∷ ks)) key) (key ∷ ks) × (cmd_lcd (key ∷ ks) ≤ length key)
unfolding cmd_lcd
cmd_lcd-Extend key [] = ((has_prefix-take 0 key, tt), omega arith)
cmd_lcd-Extend key (next ∷ ks) =
    let n = lcd_loop (common key next) next ks in
    let le : n ≤ common key next = lcd_loop-le (common key next) next ks in
    let more = lcd_loop-Extend n (common key next) next ks (omega arith) in
    (
      (
        has_prefix-take n key,
        subst (λ p. Extend p (next ∷ ks)) (sym (common-take n key next le)) more,
      ),
      omega (arith, le, common_le key next),
    )
