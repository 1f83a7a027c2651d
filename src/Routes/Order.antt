-- ===== src/Routes/Order.antt =====
-- SortRoutes.Less is a strict weak order, which is what sort.Sort asks for.
use mathlib.Core.List.{Perm}
use an_app.Base.{◌≡◌, Bool, true, false, List, [], ◌∷◌, All, arith}
use an_app.Routes.{less}

pub record StrictWeak {ℓ} {A : Type ℓ} (lt : A → A → Bool) : Type ℓ where
  pub irrefl : (a : A) → lt a a ≡ false
  pub trans : (a b c : A) → lt a b ≡ true → lt b c ≡ true → lt a c ≡ true
  pub incomparable :
      (a b c : A)
      → lt a b ≡ false
      → lt b a ≡ false
      → lt b c ≡ false
      → lt c b ≡ false
      → (lt a c ≡ false) × (lt c a ≡ false)

-- No element is less than one that stands before it.
abbrev pub Ascending {ℓ} : {A : Type ℓ} → (A → A → Bool) → List A → Type 0
Ascending lt [] = Unit
Ascending lt (a ∷ xs) = All (λ b. lt b a ≡ false) xs × Ascending lt xs

-- What sort.Sort documents: it permutes, and orders by a strict weak order.
pub record Sorts {ℓ} {A : Type ℓ} (sort : (A → A → Bool) → List A → List A) : Type ℓ where
  pub permutes : (lt : A → A → Bool) (xs : List A) → Perm (sort lt xs) xs
  pub orders : (lt : A → A → Bool) (xs : List A) → StrictWeak lt → Ascending lt (sort lt xs)

-- Less is irreflexive and transitive, and incomparability under it is transitive.
pub less-StrictWeak : StrictWeak less
unfolding less
less-StrictWeak = record {
  irrefl = λ a. ground arith;
  trans = λ a b c p q. ground arith;
  incomparable = λ a b c p q r s. (ground arith, ground arith);
}
