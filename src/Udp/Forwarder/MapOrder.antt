-- ===== src/Udp/Forwarder/MapOrder.antt =====
-- Go walks a map in an order of its own. The keys that the janitor of
-- handler/remoteSocketHandler/udp/forwardUtil.go has collected are in that order, and it does not
-- matter.
use Prim.Native.String.{String}
use text.Mathlib.Text.{◌==◌ as str_eq}
use text.Mathlib.TextEquality.{eq_iff}
use text.Mathlib.TextEquality.{IsScalar-prop}
use mathlib.Core.Logic.{∥∥₁_elim}
use mathlib.Core.List.{Perm, Permᴰ}
use mathlib.Core.Quot
use mathlib.Core.Quot.{Quot, Quot-set}
use an_app.Base.{
  ℕ, zero, suc, ◌≡◌, refl, sym, ap, ap₂, ◌∙◌, false, Bool-cases, List, [], ◌∷◌, Option, none, some,
  Option-cases, inl, inr, modify, arith, if◌then◌else◌,
}
use an_app.Udp.State.{Conn, lookup, delete}
use an_app.Udp.State.Maps.{lookup-delete}
use an_app.Udp.Forwarder.{Forwarder, close_socket, close_udp}
use an_app.Udp.Forwarder.Janitor.{udp_at, remove_at, janitor_remove}

delete_comm : (k j : String) (m : List (String × ℕ)) → delete k (delete j m) ≡ delete j (delete k m)
unfolding delete
delete_comm k j [] = refl
delete_comm k j ((i, b) ∷ m) = ground (arith, delete_comm k j m)

modify_comm {ℓ} :
    {A : Type ℓ} (xs : List A) (i j : ℕ) (f : A → A)
    → modify (modify xs i f) j f ≡ modify (modify xs j f) i f
modify_comm [] i j f = refl
modify_comm (x ∷ xs) zero zero f = refl
modify_comm (x ∷ xs) zero (suc j) f = refl
modify_comm (x ∷ xs) (suc i) zero f = refl
modify_comm (x ∷ xs) (suc i) (suc j) f = ap (λ t. x ∷ t) (modify_comm xs i j f)

close_udp_comm :
    (n m : Option ℕ) (cs : List Conn) → close_udp n (close_udp m cs) ≡ close_udp m (close_udp n cs)
close_udp_comm none m cs = refl
close_udp_comm (some n) none cs = refl
close_udp_comm (some n) (some m) cs = modify_comm cs m n close_socket

remove_at_comm :
    (f : Forwarder) (a b : String) (p q : ℕ)
    → remove_at (remove_at f a p) b q ≡ remove_at (remove_at f b q) a p
unfolding remove_at
remove_at_comm f a b p q =
    ap₂ (λ m cs. record f { connections = m; sockets = cs }) (delete_comm b a f.connections)
      (close_udp_comm (udp_at f.heap q) (udp_at f.heap p) f.sockets)

pub lookup-remove_at :
    (f : Forwarder) (a b : String) (p : ℕ)
    → lookup b (remove_at f a p).connections ≡ (if str_eq a b then none else lookup b f.connections)
unfolding remove_at
lookup-remove_at f a b p = lookup-delete a b f.connections

pub remove_miss :
    (f : Forwarder) (k : String) (ks : List String)
    → lookup k f.connections ≡ none
    → janitor_remove f (k ∷ ks) ≡ none
unfolding janitor_remove
remove_miss f k ks e = rw (e, janitor_remove) refl

pub remove_hit :
    (f : Forwarder) (k : String) (p : ℕ) (ks : List String)
    → lookup k f.connections ≡ some p
    → janitor_remove f (k ∷ ks) ≡ janitor_remove (remove_at f k p) ks
unfolding janitor_remove
remove_hit f k p ks e = rw (e, janitor_remove) refl

-- Another key is looked up as before.
pub lookup_kept :
    (f : Forwarder) (a b : String) (p : ℕ)
    → str_eq a b ≡ false
    → lookup b (remove_at f a p).connections ≡ lookup b f.connections
lookup_kept f a b p d = lookup-remove_at f a b p ∙ ground (arith, d)

pub lookup_missing :
    (f : Forwarder) (a b : String) (p : ℕ)
    → lookup b f.connections ≡ none
    → lookup b (remove_at f a p).connections ≡ none
lookup_missing f a b p e = lookup-remove_at f a b p ∙ ground (arith, e)

-- One key is missing: the program panics in either order.
swap_missing :
    (f : Forwarder) (a b : String) (ks : List String)
    → lookup a f.connections ≡ none
    → janitor_remove f (b ∷ a ∷ ks) ≡ none
swap_missing f a b ks e = elim (Option-cases (lookup b f.connections)) [
  | inl none_here ↦ remove_miss f b (a ∷ ks) none_here
  | inr (q, here) ↦
      remove_hit f b q (a ∷ ks) here ∙ remove_miss (remove_at f b q) a ks (lookup_missing f b a q e)
]

swap_both :
    (f : Forwarder) (a b : String) (p q : ℕ) (ks : List String)
    → str_eq a b ≡ false
    → lookup a f.connections ≡ some p
    → lookup b f.connections ≡ some q
    → janitor_remove f (a ∷ b ∷ ks) ≡ janitor_remove (remove_at (remove_at f a p) b q) ks
swap_both f a b p q ks d ea eb =
    remove_hit f a p (b ∷ ks) ea ∙ remove_hit (remove_at f a p) b q ks (lookup_kept f a b p d ∙ eb)

str_eq_sym : (a b : String) → str_eq a b ≡ false → str_eq b a ≡ false
str_eq_sym a b d = ground (arith, d, eq_iff a b, eq_iff b a)

janitor_remove_swap :
    (f : Forwarder) (a b : String) (ks : List String)
    → janitor_remove f (a ∷ b ∷ ks) ≡ janitor_remove f (b ∷ a ∷ ks)
janitor_remove_swap f a b ks = elim (Bool-cases (str_eq a b)) [
  | inl same ↦ let e = (eq_iff a b).0 same in ap₂ (λ x y. janitor_remove f (x ∷ y ∷ ks)) e (sym e)
  | inr d ↦ elim (Option-cases (lookup a f.connections)) [
    | inl na ↦ remove_miss f a (b ∷ ks) na ∙ sym (swap_missing f a b ks na)
    | inr (p, ea) ↦ elim (Option-cases (lookup b f.connections)) [
      | inl nb ↦ swap_missing f b a ks nb ∙ sym (remove_miss f b (a ∷ ks) nb)
      | inr (q, eb) ↦
          swap_both f a b p q ks d ea eb
          ∙ ap (λ t. janitor_remove t ks) (remove_at_comm f a b p q)
          ∙ sym (swap_both f b a q p ks (str_eq_sym a b d) eb ea)
    ]
  ]
]

remove_cons :
    (k : String) (ks js : List String)
    → ((f : Forwarder) → janitor_remove f ks ≡ janitor_remove f js)
    → (f : Forwarder) → janitor_remove f (k ∷ ks) ≡ janitor_remove f (k ∷ js)
remove_cons k ks js h f = elim (Option-cases (lookup k f.connections)) [
  | inl e ↦ remove_miss f k ks e ∙ sym (remove_miss f k js e)
  | inr (p, e) ↦ remove_hit f k p ks e ∙ h (remove_at f k p) ∙ sym (remove_hit f k p js e)
]

janitor_remove_perm :
    {ks js : List String}
    → Permᴰ ks js
    → (f : Forwarder) → janitor_remove f ks ≡ janitor_remove f js
janitor_remove_perm Permᴰ.nil f = refl
janitor_remove_perm (Permᴰ.cons {a} {b} {l₁} {l₂} e d) f =
    ap (λ t. janitor_remove f (t ∷ l₁)) e ∙ remove_cons b l₁ l₂ (λ g. janitor_remove_perm d g) f
janitor_remove_perm (Permᴰ.swap {a} {b} {a'} {b'} {l} e e') f =
    janitor_remove_swap f a b l ∙ ap₂ (λ x y. janitor_remove f (x ∷ y ∷ l)) e' e
janitor_remove_perm (Permᴰ.trans d d') f = janitor_remove_perm d f ∙ janitor_remove_perm d' f

Forwarder-set : IsSet (Option Forwarder)
Forwarder-set = hlevel IsScalar-prop

-- Keys without an order.
abbrev pub Keys : Type 0
Keys = Quot {α = List String} Perm

-- The janitor on them: what it deletes, what it closes, and whether it panics.
pub remove_keys : Forwarder → Keys → Option Forwarder
remove_keys f =
    Quot.lift Forwarder-set (janitor_remove f)
      (λ ks js p. ∥∥₁_elim p (Forwarder-set _ _) (λ d. janitor_remove_perm d f))

-- The janitor's write section is a function of the keys alone: however Go's map has ordered the keys
-- that it collected, it leaves the same connections in the map and the same sockets open, or panics in
-- every order.
pub janitor_remove-any_order :
    (f : Forwarder) (ks js : List String) → Perm ks js → janitor_remove f ks ≡ janitor_remove f js
unfolding remove_keys
janitor_remove-any_order f ks js p = ap (remove_keys f) (Quot.sound p)
