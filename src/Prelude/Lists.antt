-- ===== src/Prelude/Lists.antt =====
-- Lists by Boolean tests: the elements that pass, and how many they are.
use mathlib.Core.List.{List, [], ◌∷◌, ◌++◌, map}
use mathlib.Core.Path.{◌≡◌, refl}
use mathlib.Core.Bool.{Bool, ◌&&◌}
use Prim.Native.Nat.{ℕ, suc, ◌+◌}
use native.Mathlib.Omega.{arith}
use ms_auth_service.Prelude.Tests.{if◌then◌else◌}

module _ {A : Type 0} where
  -- `[x for x in xs if p(x)]`
  unfoldable pub those : (A → Bool) → List A → List A
  those p [] = []
  those p (x ∷ xs) = let rest = those p xs in if p x then x ∷ rest else rest

  -- `sum(1 for x in xs if p(x))`
  unfoldable pub count : (A → Bool) → List A → ℕ
  count p [] = 0
  count p (x ∷ xs) = if p x then suc (count p xs) else count p xs

  pub count-++ : (p : A → Bool) (xs ys : List A) → count p (xs ++ ys) ≡ count p xs + count p ys
  unfolding count
  count-++ p [] ys = omega arith
  count-++ p (x ∷ xs) ys = ground (arith, count-++ p xs ys)

  pub count-those :
      (p q : A → Bool) (xs : List A) → count p (those q xs) ≡ count (λ x. q x && p x) xs
  unfolding count those
  count-those p q [] = refl
  count-those p q (x ∷ xs) = ground (arith, count-those p q xs)

pub count-map :
    {A B : Type 0}
    → (p : B → Bool) (f : A → B) (xs : List A) → count p (map f xs) ≡ count (λ x. p (f x)) xs
unfolding count
count-map p f [] = refl
count-map p f (x ∷ xs) = ground (arith, count-map p f xs)
