-- ===== src/Routes/Insertion.antt =====
-- A sort that meets the contract of sort.Sort, for the runs and the concrete instances.
use mathlib.Core.List.{Perm}
use mathlib.Core.List.Perm
use an_app.Base.{◌≡◌, Bool, true, false, List, [], ◌∷◌, if◌then◌else◌, All, inl, inr, Bool-cases}
use an_app.Routes.Order.{StrictWeak, Ascending, Sorts}

module _ {ℓ} {A : Type ℓ} (lt : A → A → Bool) where
  pub insert : A → List A → List A
  insert a [] = a ∷ []
  insert a (x ∷ xs) = if lt x a then x ∷ insert a xs else a ∷ x ∷ xs

  unfoldable pub insertion_sort : List A → List A
  unfolding insert
  insertion_sort [] = []
  insertion_sort (x ∷ xs) = insert x (insertion_sort xs)

  insert-perm : (a : A) (xs : List A) → Perm (insert a xs) (a ∷ xs)
  unfolding insert
  insert-perm a [] = Perm.refl (a ∷ [])
  insert-perm a (x ∷ xs) = elim (Bool-cases (lt x a)) [
    | inl e ↦ rw e (Perm.trans (Perm.cons x (insert-perm a xs)) (Perm.swap a x xs))
    | inr e ↦ rw e (Perm.refl (a ∷ x ∷ xs))
  ]

  insertion_sort-perm : (xs : List A) → Perm (insertion_sort xs) xs
  unfolding insertion_sort
  insertion_sort-perm [] = Perm.refl []
  insertion_sort-perm (x ∷ xs) =
      Perm.trans (insert-perm x (insertion_sort xs)) (Perm.cons x (insertion_sort-perm xs))

  insert-All {κ} : (P : A → Type κ) (a : A) (xs : List A) → P a → All P xs → All P (insert a xs)
  unfolding insert
  insert-All P a [] p h = (p, tt)
  insert-All P a (x ∷ xs) p h = elim (Bool-cases (lt x a)) [
    | inl e ↦ rw e (h.0, insert-All P a xs p h.1)
    | inr e ↦ rw e (p, h)
  ]

  module _ (weak : StrictWeak lt) where
    after : (a x b : A) → lt x a ≡ false → lt b x ≡ false → lt b a ≡ false
    after a x b p q = elim (Bool-cases (lt b a)) [
      | inr f ↦ f
      | inl f ↦ elim (Bool-cases (lt a x)) [
        | inl g ↦ cc (weak.trans b a x f g)
        | inr g ↦ elim (Bool-cases (lt x b)) [
          | inl k ↦ cc (weak.trans x b a k f)
          | inr k ↦ (weak.incomparable a x b g p k q).1
        ]
      ]
    ]

    after-All :
        (a x : A) (xs : List A)
        → lt x a ≡ false
        → All (λ b. lt b x ≡ false) xs
        → All (λ b. lt b a ≡ false) xs
    after-All a x [] p h = tt
    after-All a x (b ∷ xs) p h = (after a x b p h.0, after-All a x xs p h.1)

    asymm : (x a : A) → lt x a ≡ true → lt a x ≡ false
    asymm x a e = elim (Bool-cases (lt a x)) [
      | inl f ↦ cc (weak.trans a x a f e, weak.irrefl a)
      | inr f ↦ f
    ]

    insert-Ascending : (a : A) (xs : List A) → Ascending lt xs → Ascending lt (insert a xs)
    unfolding insert
    insert-Ascending a [] h = (tt, tt)
    insert-Ascending a (x ∷ xs) h = elim (Bool-cases (lt x a)) [
      | inl e ↦
          rw e (insert-All (λ b. lt b x ≡ false) a xs (asymm x a e) h.0, insert-Ascending a xs h.1)
      | inr e ↦ rw e ((e, after-All a x xs e h.0), h)
    ]

    insertion_sort-Ascending : (xs : List A) → Ascending lt (insertion_sort xs)
    unfolding insertion_sort
    insertion_sort-Ascending [] = tt
    insertion_sort-Ascending (x ∷ xs) =
        insert-Ascending x (insertion_sort xs) (insertion_sort-Ascending xs)

pub insertion_sort-Sorts {ℓ} : {A : Type ℓ} → Sorts {A = A} insertion_sort
insertion_sort-Sorts = record {
  permutes = insertion_sort-perm;
  orders = λ lt xs weak. insertion_sort-Ascending lt weak xs;
}
