-- ===== src/Udp/Forwarder/Pointers.antt =====
-- The pointers of the Forwarder's map: each leads to an object.
use Prim.Native.String.{String}
use text.Mathlib.Text.{◌==◌ as str_eq}
use mathlib.Core.Option.{some-injective}
use an_app.Base.{
  ℕ, ◌<◌, ◌+◌, ◌≡◌, ◌≢◌, inl, inr, false, List, [], ◌∷◌, ◌++◌, none, some, length, length-modify,
  length-append, arith, Option-cases, Bool-cases,
}
use an_app.Udp.State.{lookup, insert, delete}
use an_app.Udp.State.Maps.{lookup-insert, lookup-delete}
use an_app.Udp.Forwarder.{
  Connection, Forwarder, forward, handle_enter, publish, dial_failed, write_udp, read_failed,
  set_active, change_time,
}
use an_app.Udp.Forwarder.Janitor.{remove_at, janitor_notify, close_forwarder}
use an_app.Udp.Forwarder.Waiting.{
  Step, enters, dials, dial_fails, writes, fails_to_read, touches, removes, notifies, closes, Reach,
  here, next, dial_succeeded-Published,
}

-- What is mapped after a deletion was mapped before.
pub lookup_of-delete :
    (k j : String) (m : List (String × ℕ)) (p : ℕ)
    → lookup j (delete k m) ≡ some p
    → lookup j m ≡ some p
lookup_of-delete k j m p h = elim (Bool-cases (str_eq k j)) [
  | inl e ↦ cc (rw (lookup-delete k j m, e) at h)
  | inr e ↦ rw (lookup-delete k j m, e) at h
]

-- What is mapped after an insertion is the new pointer or was mapped before.
pub lookup_of-insert :
    (k j : String) (q : ℕ) (m : List (String × ℕ)) (p : ℕ)
    → q ≢ p
    → lookup j (insert k q m) ≡ some p
    → lookup j m ≡ some p
lookup_of-insert k j q m p n h = elim (Bool-cases (str_eq k j)) [
  | inl e ↦ absurd (n (some-injective q p (rw (lookup-insert k j q m, e) at h)))
  | inr e ↦ rw (lookup-insert k j q m, e) at h
]

-- Every pointer of the map leads to an object.
abbrev pub IsBounded : Forwarder → Type 0
IsBounded f = (k : String) (p : ℕ) → lookup k f.connections ≡ some p → p < length f.heap

enter-IsBounded :
    (f : Forwarder) (addr : String) (now : ℕ) → IsBounded f → IsBounded (handle_enter f addr now).0
unfolding handle_enter
enter-IsBounded f addr now h = elim (Option-cases (lookup addr f.connections)) [
  | inr (p, e) ↦ rw (e, handle_enter) h
  | inl e ↦
      let made : List Connection =
        record { available_closed = false; udp = none; last_active = now } ∷ [] in
      rw (e, handle_enter)
        (λ k p m.
          let size : length (f.heap ++ made) ≡ length f.heap + 1 = length-append f.heap made in
          elim (Bool-cases (str_eq addr k)) [
            | inl s ↦
                let same =
                  some-injective _ p
                    (rw (lookup-insert addr k (length f.heap) f.connections, s) at m) in
                omega arith
            | inr s ↦
                let old = h k p (rw (lookup-insert addr k (length f.heap) f.connections, s) at m) in
                omega arith
          ])
]

change_time-IsBounded :
    (f : Forwarder) (addr : String) (now : ℕ) → IsBounded f → IsBounded (change_time f addr now)
unfolding change_time
change_time-IsBounded f addr now h = elim (Option-cases (lookup addr f.connections)) [
  | inl e ↦ rw (e, change_time) h
  | inr (p, e) ↦
      rw (e, change_time) (λ k q m. rw (length-modify f.heap p (set_active now)) (h k q m))
]

Step-IsBounded : {f g : Forwarder} → Step f g → IsBounded f → IsBounded g
unfolding dial_failed write_udp read_failed remove_at janitor_notify close_forwarder
Step-IsBounded (enters f addr now) h k p m = enter-IsBounded f addr now h k p m
Step-IsBounded (dials f g addr now e) h k p m =
    let d = dial_succeeded-Published f g addr now e in
    rw (d.heap, length-modify f.heap d.at (publish (length f.sockets) now)) (h k p (rw d.kept at m))
Step-IsBounded (dial_fails f addr) h k p m = h k p (lookup_of-delete addr k f.connections p m)
Step-IsBounded (writes f n buf) h k p m = h k p m
Step-IsBounded (fails_to_read f addr n) h k p m = h k p (lookup_of-delete addr k f.connections p m)
Step-IsBounded (touches f addr now) h k p m = change_time-IsBounded f addr now h k p m
Step-IsBounded (removes f addr q) h k p m = h k p (lookup_of-delete addr k f.connections p m)
Step-IsBounded (notifies f ks) h k p m = h k p m
Step-IsBounded (closes f) h k p m = h k p m

pub Reach-IsBounded : {f g : Forwarder} → Reach f g → IsBounded f → IsBounded g
Reach-IsBounded here h = h
Reach-IsBounded (next r s) h = Step-IsBounded s (Reach-IsBounded r h)

pub forward-IsBounded : (timeout : ℕ) → IsBounded (forward timeout)
unfolding forward lookup
forward-IsBounded timeout k p m = cc
