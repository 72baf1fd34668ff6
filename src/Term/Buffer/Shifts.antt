-- ===== src/Term/Buffer/Shifts.antt =====
-- What the loops over the line buffer of cli-term.c do to each byte, and what they leave alone.
use chaconne.Prelude.{
  ℕ, zero, suc, ◌+◌, ◌-◌, ◌≤◌, ◌<◌, ◌≡◌, refl, ◌∙◌, ap, ◌&&◌, List, [], ◌∷◌, ◌++◌, append-nil,
  append_assoc, arith, ltb, leb, if◌then◌else◌, length, get_or, replicate,
}
use chaconne.Term.Buffer.{
  Editor, slice, store, putc, putc_times, shift_left, shift_right, clear_cells, copy_in,
}

pub slice-eq :
    (f g : ℕ → ℕ) (i k n : ℕ)
    → ((j : ℕ) → j < n → f (i + j) ≡ g (k + j))
    → slice f i n ≡ slice g k n
slice-eq f g i k zero h = refl
slice-eq f g i k (suc n) h =
    let here : f i ≡ g k = ground (arith, h 0) in
    let rest = slice-eq f g (i + 1) (k + 1) n (λ j l. ground (arith, h (j + 1))) in
    ground (arith, here, rest)

pub slice-split : (f : ℕ → ℕ) (i n m : ℕ) → slice f i (n + m) ≡ slice f i n ++ slice f (i + n) m
slice-split f i zero m = ground arith
slice-split f i (suc n) m =
    let e : suc n + m ≡ suc (n + m) = omega arith in
    let k : i + suc n ≡ i + 1 + n = omega arith in
    rw (e, k) (ap (◌∷◌ (f i)) (slice-split f (i + 1) n m))

pub slice-snoc : (f : ℕ → ℕ) (i n : ℕ) → slice f i (n + 1) ≡ slice f i n ++ f (i + n) ∷ []
slice-snoc f i n = slice-split f i n 1

-- A slice taken apart at its first byte, and at its last.
pub slice-cons :
    (f : ℕ → ℕ) (i n c : ℕ) (r : List ℕ)
    → slice f i n ≡ c ∷ r
    → (0 < n) × (f i ≡ c) × (slice f (i + 1) (n - 1) ≡ r)
slice-cons f i zero c r h = cc
slice-cons f i (suc n) c r h =
    let e : suc n - 1 ≡ n = omega arith in (omega arith, cc, rw e (ground arith))

pub slice-last :
    (f : ℕ → ℕ) (i n : ℕ) (l : List ℕ) (c : ℕ)
    → slice f i n ≡ l ++ c ∷ []
    → (0 < n) × (slice f i (n - 1) ≡ l)
slice-last f i zero [] c h = cc
slice-last f i zero (x ∷ l) c h = cc
slice-last f i (suc zero) [] c h = (omega arith, refl)
slice-last f i (suc (suc n)) [] c h = cc
slice-last f i (suc zero) (x ∷ []) c h = cc
slice-last f i (suc zero) (x ∷ y ∷ l) c h = cc
slice-last f i (suc (suc n)) (x ∷ l) c h =
    let rest = slice-last f (i + 1) (suc n) l c (ground arith) in
    let e : suc (suc n) - 1 ≡ suc (suc n - 1) = omega arith in
    (omega arith, rw e (ground (arith, rest.1)))

pub slice-last_byte :
    (f : ℕ → ℕ) (i n : ℕ) (l : List ℕ) (c : ℕ) → slice f i n ≡ l ++ c ∷ [] → f (i + (n - 1)) ≡ c
slice-last_byte f i zero [] c h = cc
slice-last_byte f i zero (x ∷ l) c h = cc
slice-last_byte f i (suc zero) [] c h = ground arith
slice-last_byte f i (suc (suc n)) [] c h = cc
slice-last_byte f i (suc zero) (x ∷ []) c h = cc
slice-last_byte f i (suc zero) (x ∷ y ∷ l) c h = cc
slice-last_byte f i (suc (suc n)) (x ∷ l) c h =
    ground (arith, slice-last_byte f (i + 1) (suc n) l c (ground arith))

-- The bytes of a list, read back from a buffer that holds them.
pub slice-get_or : (line : List ℕ) → slice (λ j. get_or line j 0) 0 (length line) ≡ line
slice-get_or [] = refl
slice-get_or (c ∷ line) = ap (◌∷◌ c) (
    slice-eq (λ j. get_or (c ∷ line) j 0) (λ j. get_or line j 0) (0 + 1) 0 (length line) shifted
    ∙ slice-get_or line)
  where
    shifted : (j : ℕ) → j < length line → get_or (c ∷ line) (0 + 1 + j) 0 ≡ get_or line (0 + j) 0
    shifted j h = let e : 0 + 1 + j ≡ suc (0 + j) = omega arith in rw e

pub slice-nil : (f : ℕ → ℕ) (i n : ℕ) → slice f i n ≡ [] → n ≡ 0
slice-nil f i zero h = refl
slice-nil f i (suc n) h = cc

pub length-slice : (f : ℕ → ℕ) (i n : ℕ) → length (slice f i n) ≡ n
length-slice f i zero = refl
length-slice f i (suc n) = ap suc (length-slice f (i + 1) n)

get_or-before :
    (line : List ℕ) (c i j : ℕ) → i < j → get_or (c ∷ line) (j - i) 0 ≡ get_or line (j - (i + 1)) 0
get_or-before line c i j h = let e : j - i ≡ suc (j - (i + 1)) = omega arith in rw e

get_or-here : (line : List ℕ) (c i j : ℕ) → i ≡ j → get_or (c ∷ line) (j - i) 0 ≡ c
get_or-here line c i j h = let e : j - i ≡ 0 = omega arith in rw e

pub putc_times-out :
    (n c : ℕ) (e : Editor) → putc_times n c e ≡ record e { out = e.out ++ replicate n c }
unfolding putc_times putc
putc_times-out zero c e = ground (arith, append-nil e.out)
putc_times-out (suc n) c e =
    putc_times-out n c (putc e c) ∙ ground (arith, append_assoc e.out (c ∷ []) (replicate n c))

-- `e'` differs from `e` in the bytes of the buffer only.
pub record SameFrame (e e' : Editor) : Type 0 where
  pub cp : e'.cp ≡ e.cp
  pub len : e'.len ≡ e.len
  pub max : e'.max ≡ e.max
  pub out : e'.out ≡ e.out
  pub overrun : e'.overrun ≡ e.overrun

pub shift_left-SameFrame :
    (n i : ℕ) (e : Editor) → 0 < i → i + n ≤ e.max + 1 → SameFrame e (shift_left n i e)
unfolding shift_left store
shift_left-SameFrame zero i e pos fits = ground arith
shift_left-SameFrame (suc n) i e pos fits =
    let next =
      shift_left-SameFrame n (i + 1) (store e (i - 1) (e.cell i)) (omega arith) (ground arith) in
    ground arith

pub shift_left-cell :
    (n i : ℕ) (e : Editor) (j : ℕ)
    → 0 < i
    → (shift_left n i e).cell j
      ≡ (if leb i (j + 1) && ltb (j + 1) (i + n) then e.cell (j + 1) else e.cell j)
unfolding shift_left store
shift_left-cell zero i e j pos = ground arith
shift_left-cell (suc n) i e j pos =
    shift_left-cell n (i + 1) (store e (i - 1) (e.cell i)) j (omega arith) ∙ ground arith

pub shift_right-SameFrame :
    (n i : ℕ) (e : Editor) → n ≤ i → i < e.max → SameFrame e (shift_right n i e)
unfolding shift_right store
shift_right-SameFrame zero i e le fits = ground arith
shift_right-SameFrame (suc n) i e le fits =
    let next =
      shift_right-SameFrame n (i - 1) (store e i (e.cell (i - 1))) (omega arith) (ground arith) in
    ground arith

pub shift_right-cell :
    (n i : ℕ) (e : Editor) (j : ℕ)
    → n ≤ i
    → (shift_right n i e).cell j ≡ (if ltb (i - n) j && leb j i then e.cell (j - 1) else e.cell j)
unfolding shift_right store
shift_right-cell zero i e j le = ground arith
shift_right-cell (suc n) i e j le =
    shift_right-cell n (i - 1) (store e i (e.cell (i - 1))) j (omega arith) ∙ ground arith

pub clear_cells-SameFrame : (n i : ℕ) (e : Editor) → i + n ≤ e.max → SameFrame e (clear_cells n i e)
unfolding clear_cells store
clear_cells-SameFrame zero i e fits = ground arith
clear_cells-SameFrame (suc n) i e fits =
    let next = clear_cells-SameFrame n (i + 1) (store e i 0) (ground arith) in ground arith

pub clear_cells-cell :
    (n i : ℕ) (e : Editor) (j : ℕ)
    → (clear_cells n i e).cell j ≡ (if leb i j && ltb j (i + n) then 0 else e.cell j)
unfolding clear_cells store
clear_cells-cell zero i e j = ground arith
clear_cells-cell (suc n) i e j = clear_cells-cell n (i + 1) (store e i 0) j ∙ ground arith

pub copy_in-SameFrame :
    (line : List ℕ) (i : ℕ) (e : Editor) → i + length line ≤ e.max → SameFrame e (copy_in line i e)
unfolding copy_in store
copy_in-SameFrame [] i e fits = ground arith
copy_in-SameFrame (c ∷ line) i e fits =
    let next = copy_in-SameFrame line (i + 1) (store e i c) (ground arith) in ground arith

pub copy_in-cell :
    (line : List ℕ) (i : ℕ) (e : Editor) (j : ℕ)
    → (copy_in line i e).cell j
      ≡ (if leb i j && ltb j (i + length line) then get_or line (j - i) 0 else e.cell j)
unfolding copy_in store
copy_in-cell [] i e j = ground arith
copy_in-cell (c ∷ line) i e j =
    copy_in-cell line (i + 1) (store e i c) j
    ∙ ground (arith, get_or-before line c i j, get_or-here line c i j)

pub get_or-slice : (f : ℕ → ℕ) (i n j : ℕ) → j < n → get_or (slice f i n) j 0 ≡ f (i + j)
get_or-slice f i zero j h = absurd (omega arith)
get_or-slice f i (suc n) zero h = ground arith
get_or-slice f i (suc n) (suc j) h = get_or-slice f (i + 1) n j (omega arith) ∙ ground arith
