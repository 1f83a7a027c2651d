-- ===== src/Udp/Forwarder/Readers.antt =====
-- The end of a client's read loop against the janitor and against the client's return.
use Prim.Native.String.{String}
use text.Mathlib.TextPositions.{eq_refl}
use mathlib.Core.List.{Mem, mem-cons, not-mem-nil}
use mathlib.Core.Logic.Or
use an_app.Base.{
  ℕ, ◌<◌, ◌≡◌, ◌≢◌, inl, inr, true, List, [], ◌∷◌, ◌++◌, none, some, length, get_elem?,
  get_elem?-length, get_elem?-modify_ne, length-modify, arith, Option-cases, ◌∙◌,
}
use an_app.Udp.Forwarder.Waiting.{dial_succeeded-Published}
use mathlib.Core.HLevel.{⊥_prop}
use an_app.Udp.State.{Conn, lookup, delete}
use an_app.Udp.State.Maps.{lookup-delete}
use an_app.Udp.Forwarder.{Forwarder, close_socket, handle_enter, dial_succeeded, read_failed}
use an_app.Udp.Forwarder.Janitor.{janitor_collect, udp_at, remove_at, janitor_remove}

lookup_of_deleted : (k : String) (m : List (String × ℕ)) → lookup k (delete k m) ≡ none
lookup_of_deleted k m = rw (lookup-delete k k m, eq_refl k)

remove_missing :
    (ks : List String) (g r : Forwarder) (addr : String)
    → Mem addr ks
    → lookup addr g.connections ≡ none
    → janitor_remove g ks ≢ some r
unfolding janitor_remove remove_at
remove_missing [] g r addr m n h = not-mem-nil m
remove_missing (k ∷ ks) g r addr m n h = elim (Option-cases (lookup k g.connections)) [
  | inl e ↦ cc (rw (e, janitor_remove) at h)
  | inr (p, e) ↦
      let gone : lookup addr (remove_at g k p).connections ≡ none =
        ground (arith, lookup-delete k addr g.connections, n) in
      Or.elim ⊥_prop (mem-cons.0 m) (λ same. cc (rw same at n))
        (λ later.
          remove_missing ks (remove_at g k p) r addr later gone (rw (e, janitor_remove) at h))
]

-- The janitor collects its keys under one lock and removes them under another. When the read loop of
-- a collected client ends in between, the janitor dereferences nil and the program panics.
pub janitor_race_panics :
    (f : Forwarder) (now : ℕ) (addr : String) (n : ℕ)
    → Mem addr (janitor_collect f now)
    → janitor_remove (read_failed f addr n) (janitor_collect f now) ≡ none
unfolding read_failed
janitor_race_panics f now addr n m =
    let ks : List String = janitor_collect f now in
    let g : Forwarder = read_failed f addr n in
    elim (Option-cases (janitor_remove g ks)) [
      | inl e ↦ e
      | inr (r, e) ↦ absurd (remove_missing ks g r addr m (lookup_of_deleted addr f.connections) e)
    ]

enter_then_dial :
    (f g : Forwarder) (addr : String) (now later : ℕ)
    → lookup addr f.connections ≡ none
    → dial_succeeded (handle_enter f addr now).0 addr later ≡ some g
    → g.sockets ≡ f.sockets ++ (record { is_open = true; wire = [] } ∷ [])
unfolding handle_enter
enter_then_dial f g addr now later new h =
    let d = dial_succeeded-Published (handle_enter f addr now).0 g addr later h in
    d.opened ∙ rw (new, handle_enter)

-- A client comes back after the janitor has removed it and before its old read loop has ended, and
-- its new dial succeeds. Then the end of the old loop, which closes only the old socket, deletes the
-- new entry: the client is not mapped, while its new socket stays open.
pub old_reader_deletes_new :
    (f h : Forwarder) (addr : String) (p old now later : ℕ)
    → udp_at f.heap p ≡ some old
    → old < length f.sockets
    → dial_succeeded (handle_enter (remove_at f addr p) addr now).0 addr later ≡ some h
    → (lookup addr (read_failed h addr old).connections ≡ none)
      × (get_elem? (read_failed h addr old).sockets (length f.sockets)
          ≡ some (record { is_open = true; wire = [] }))
unfolding read_failed remove_at
old_reader_deletes_new f h addr p old now later at_old bound dialled =
    let removed : Forwarder = remove_at f addr p in
    let fresh : Conn = record { is_open = true; wire = [] } in
    let sockets : h.sockets ≡ removed.sockets ++ (fresh ∷ []) =
      enter_then_dial removed h addr now later (lookup_of_deleted addr f.connections) dialled in
    let same : length removed.sockets ≡ length f.sockets =
      rw at_old (length-modify f.sockets old close_socket) in
    let other : old ≢ length f.sockets = λ e. omega arith in
    (
      lookup_of_deleted addr h.connections,
      get_elem?-modify_ne h.sockets close_socket other
          ∙ rw (sockets, ← same) (get_elem?-length removed.sockets [] fresh),
    )
