-- ===== src/Prelude/Strings.antt =====
-- Equality of strings, as the tests on `strcmp` and `strncmp` see it.
use Prim.Native.Nat.{ℕ}
use mathlib.Core.Path.{◌≡◌, refl, ap, ◌∙◌}
use mathlib.Core.Bool.{Bool, true, false, ◌&&◌}
use mathlib.Core.List.{List, [], ◌∷◌}
use native.Mathlib.Omega.{arith}
use chaconne.Prelude.Tests.{◌==◌}

-- `strcmp(a, b) == 0`
unfoldable pub same_key : List ℕ → List ℕ → Bool
same_key [] [] = true
same_key [] (b ∷ bs) = false
same_key (a ∷ as') [] = false
same_key (a ∷ as') (b ∷ bs) = (a == b) && same_key as' bs

pub same_key_refl : (k : List ℕ) → same_key k k ≡ true
unfolding same_key
same_key_refl [] = refl
same_key_refl (c ∷ cs) = ground (arith, same_key_refl cs)

pub same_key-eq : (a b : List ℕ) → same_key a b ≡ true → a ≡ b
unfolding same_key
same_key-eq [] [] h = refl
same_key-eq [] (b ∷ bs) h = cc
same_key-eq (a ∷ as') [] h = cc
same_key-eq (a ∷ as') (b ∷ bs) h =
    let first : a ≡ b = ground (arith, h) in
    let rest : same_key as' bs ≡ true = ground (arith, h) in
    ap (λ x. x ∷ as') first ∙ ap (λ l. b ∷ l) (same_key-eq as' bs rest)
