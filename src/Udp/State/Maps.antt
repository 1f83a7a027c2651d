-- ===== src/Udp/State/Maps.antt =====
-- The laws of the flow map.
use Prim.Native.String.{String}
use text.Mathlib.Text.{◌==◌ as str_eq}
use text.Mathlib.TextEquality.{eq_iff}
use an_app.Base.{
  ◌≡◌, ◌≢◌, refl, false, List, [], ◌∷◌, none, some, if◌then◌else◌, arith, inl, inr, Bool-cases,
}
use an_app.Udp.State.{lookup, insert, delete}

module _ {ℓ} {A : Type ℓ} where
  pub lookup-insert :
      (k j : String) (a : A) (m : List (String × A))
      → lookup j (insert k a m) ≡ (if str_eq k j then some a else lookup j m)
  unfolding lookup insert
  lookup-insert k j a [] = refl
  lookup-insert k j a ((i, b) ∷ m) =
      ground (arith, eq_iff k j, eq_iff i k, eq_iff i j, lookup-insert k j a m)

  pub lookup-delete :
      (k j : String) (m : List (String × A))
      → lookup j (delete k m) ≡ (if str_eq k j then none else lookup j m)
  unfolding lookup delete
  lookup-delete k j [] = ground arith
  lookup-delete k j ((i, b) ∷ m) =
      ground (arith, eq_iff k j, eq_iff i k, eq_iff i j, lookup-delete k j m)

pub str_ne : (k j : String) → k ≢ j → str_eq k j ≡ false
str_ne k j h = elim (Bool-cases (str_eq k j)) [ inl e ↦ absurd (h ((eq_iff k j).0 e)) | inr e ↦ e ]
