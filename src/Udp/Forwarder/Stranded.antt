-- ===== src/Udp/Forwarder/Stranded.antt =====
-- A goroutine that waits for a dial that has failed.
use Prim.Native.String.{String}
use text.Mathlib.Text.{◌==◌ as str_eq}
use an_app.Base.{
  ℕ, ◌<◌, ◌≡◌, ◌≢◌, refl, inl, inr, false, List, [], ◌∷◌, none, some, length, get_elem?,
  get_elem?-lt, get_elem?-length, get_elem?-append_left, get_elem?-modify_ne, arith, Option-cases,
  Bool-cases,
}
use an_app.Udp.State.{Datagram, lookup, insert, delete}
use an_app.Udp.State.Maps.{lookup-insert, lookup-delete}
use an_app.Udp.Forwarder.{
  Connection, Forwarder, forward, handle_enter, publish, dial_succeeded, dial_failed, write_udp,
  read_failed, blocked, handle_available, handle_found, set_active, change_time,
}
use an_app.Udp.Forwarder.Janitor.{remove_at, janitor_notify, close_forwarder}
use an_app.Udp.Forwarder.Pointers.{
  lookup_of-delete, lookup_of-insert, IsBounded, Reach-IsBounded, forward-IsBounded,
}
use an_app.Udp.Forwarder.Waiting.{
  Step, enters, dials, dial_fails, writes, fails_to_read, touches, removes, notifies, closes, Reach,
  here, next, dial_succeeded-Published,
}

-- The object's channel is open, and no address leads to it.
record IsStranded (p : ℕ) (f : Forwarder) : Type 0 where
  object : Connection
  has : get_elem? f.heap p ≡ some object
  waiting : object.available_closed ≡ false
  unmapped : (k : String) → lookup k f.connections ≢ some p

enter-IsStranded :
    (f : Forwarder) (addr : String) (now : ℕ) {p : ℕ}
    → IsStranded p f
    → IsStranded p (handle_enter f addr now).0
unfolding handle_enter
enter-IsStranded f addr now {p} h = elim (Option-cases (lookup addr f.connections)) [
  | inr (q, e) ↦ rw (e, handle_enter) h
  | inl e ↦
      let made : List Connection =
        record { available_closed = false; udp = none; last_active = now } ∷ [] in
      let inside : p < length f.heap = get_elem?-lt f.heap p h.object h.has in
      let other : length f.heap ≢ p = λ same. omega arith in
      rw (e, handle_enter)
        (record {
          object = h.object;
          has = get_elem?-append_left f.heap made p h.object h.has;
          waiting = h.waiting;
          unmapped =
              λ k m. h.unmapped k (lookup_of-insert addr k (length f.heap) f.connections p other m);
        })
]

change_time-IsStranded :
    (f : Forwarder) (addr : String) (now : ℕ) {p : ℕ}
    → IsStranded p f
    → IsStranded p (change_time f addr now)
unfolding change_time
change_time-IsStranded f addr now {p} h = elim (Option-cases (lookup addr f.connections)) [
  | inl e ↦ rw (e, change_time) h
  | inr (q, e) ↦
      let other : q ≢ p = λ same. h.unmapped addr (rw same at e) in
      rw (e, change_time)
        (record {
          object = h.object;
          has = rw (get_elem?-modify_ne f.heap (set_active now) other) h.has;
          waiting = h.waiting;
          unmapped = h.unmapped;
        })
]

dials-IsStranded :
    (f g : Forwarder) (addr : String) (now : ℕ) {p : ℕ}
    → dial_succeeded f addr now ≡ some g
    → IsStranded p f
    → IsStranded p g
dials-IsStranded f g addr now {p} e h =
    let d = dial_succeeded-Published f g addr now e in
    let mapped = d.mapped in
    let other : d.at ≢ p = λ same. h.unmapped addr (rw same at mapped) in
    record {
      object = h.object;
      has = rw (d.heap, get_elem?-modify_ne f.heap (publish (length f.sockets) now) other) h.has;
      waiting = h.waiting;
      unmapped = λ k m. h.unmapped k (rw d.kept at m);
    }

delete-IsStranded :
    (f g : Forwarder) (addr : String) {p : ℕ}
    → g.heap ≡ f.heap
    → g.connections ≡ delete addr f.connections
    → IsStranded p f
    → IsStranded p g
delete-IsStranded f g addr {p} same less h = record {
  object = h.object;
  has = rw same h.has;
  waiting = h.waiting;
  unmapped = λ k m. h.unmapped k (lookup_of-delete addr k f.connections p (rw less at m));
}

Step-IsStranded : {f g : Forwarder} {p : ℕ} → Step f g → IsStranded p f → IsStranded p g
unfolding dial_failed write_udp read_failed remove_at janitor_notify close_forwarder
Step-IsStranded (enters f addr now) h = enter-IsStranded f addr now h
Step-IsStranded (dials f g addr now e) h = dials-IsStranded f g addr now e h
Step-IsStranded (dial_fails f addr) h = delete-IsStranded f (dial_failed f addr) addr refl refl h
Step-IsStranded (writes f n buf) h = record {
  object = h.object;
  has = h.has;
  waiting = h.waiting;
  unmapped = h.unmapped;
}
Step-IsStranded (fails_to_read f addr n) h =
    delete-IsStranded f (read_failed f addr n) addr refl refl h
Step-IsStranded (touches f addr now) h = change_time-IsStranded f addr now h
Step-IsStranded (removes f addr q) h = delete-IsStranded f (remove_at f addr q) addr refl refl h
Step-IsStranded (notifies f ks) h = record {
  object = h.object;
  has = h.has;
  waiting = h.waiting;
  unmapped = h.unmapped;
}
Step-IsStranded (closes f) h = record {
  object = h.object;
  has = h.has;
  waiting = h.waiting;
  unmapped = h.unmapped;
}

Reach-IsStranded : {f g : Forwarder} {p : ℕ} → Reach f g → IsStranded p f → IsStranded p g
Reach-IsStranded here h = h
Reach-IsStranded (next r s) h = Step-IsStranded s (Reach-IsStranded r h)

failed_dial-IsStranded :
    (f : Forwarder) (addr : String) (now : ℕ)
    → IsBounded f
    → lookup addr f.connections ≡ none
    → IsStranded (handle_enter f addr now).1.1 (dial_failed (handle_enter f addr now).0 addr)
unfolding handle_enter dial_failed
failed_dial-IsStranded f addr now bounded new =
    let made : Connection = record { available_closed = false; udp = none; last_active = now } in
    rw (new, handle_enter)
      (record {
        object = made;
        has = get_elem?-length f.heap [] made;
        waiting = refl;
        unmapped = λ k m.
            only_old k
              (lookup_of-delete addr k (insert addr (length f.heap) f.connections) (length f.heap)
                m)
              m;
      })
  where
    only_old :
        (k : String)
        → lookup k (insert addr (length f.heap) f.connections) ≡ some (length f.heap)
        → lookup k (delete addr (insert addr (length f.heap) f.connections)) ≡ some (length f.heap)
        → ⊥
    only_old k i d = elim (Bool-cases (str_eq addr k)) [
      | inl s ↦ cc (rw (lookup-delete addr k (insert addr (length f.heap) f.connections), s) at d)
      | inr s ↦
          let old =
            bounded k (length f.heap)
              (rw (lookup-insert addr k (length f.heap) f.connections, s) at i) in
          omega arith
    ]

-- When the dial for a new client fails, a goroutine that has found the client's object in the
-- meantime waits for ever: the entry is deleted, the object's channel stays open, and after any
-- further steps of any goroutines its wait still blocks.
pub failed_dial_strands :
    (timeout : ℕ) (f h : Forwarder) (addr : String) (now : ℕ) (buf : Datagram)
    → Reach (forward timeout) f
    → lookup addr f.connections ≡ none
    → Reach (dial_failed (handle_enter f addr now).0 addr) h
    → handle_found h (handle_enter f addr now).1.1 buf ≡ blocked
unfolding handle_found handle_available
failed_dial_strands timeout f h addr now buf before new after =
    let bounded : IsBounded f = Reach-IsBounded before (forward-IsBounded timeout) in
    let stranded = Reach-IsStranded after (failed_dial-IsStranded f addr now bounded new) in
    rw (stranded.has, handle_found, stranded.waiting)
