-- ===== src/Udp/State.antt =====
-- handler/remoteSocketHandler/udp/forwardState.go: one dialled connection for each UDP flow.
-- The `*connectionState` objects live on a heap, a list that a pointer indexes; the global
-- `forwardState.connections` maps a flow's identify to a pointer. A `conn` is what was handed to
-- the operating system, as long as it is open. attachConnect runs as one goroutine for each
-- datagram, so it is cut where others can run in between: `look` (the first map lookup), `enter`
-- (from lock.Lock() to the map insertion; the dialler's answer is an argument) and `write_found`
-- (Write under the writeLock, which `enter` also leads to). The global lock is released only after
-- that write; the model lets others in before it, which allows more interleavings. `stop` is the
-- deferred function of `run`, after io.Copy has ended for whatever reason. The recover() calls do
-- not matter: no step panics on states of the invariant.
pub mod Maps
pub mod Sockets
pub mod Steps
pub mod Order
pub mod Races
mod Tests
use Prim.Native.String.{String}
use text.Mathlib.Text.{◌==◌ as str_eq}
use an_app.Base.{
  ℕ, suc, ◌+◌, Bool, true, false, List, [], ◌∷◌, ◌++◌, Option, none, some, if◌then◌else◌, length,
  get_elem?, modify,
}

abbrev pub Datagram : Type 0
Datagram = List ℕ

-- A dialled socket: whether it is open, and what was written to it so far.
pub record Conn : Type 0 where
  pub is_open : Bool
  pub wire : List Datagram

-- The fields of connectionState that the code uses.
pub record ConnState : Type 0 where
  pub identify : String
  pub dst : String
  pub conn : Option Conn

pub record World : Type 0 where
  pub connections : List (String × ℕ)
  pub states : List ConnState

-- Where a goroutine of attachConnect stands, or how it ended. `lost` ends without a write, and
-- `dropped` with a write to a closed socket, whose error nobody reads.
pub data Pc : Type 0 where
  missed : Pc
  found : ℕ → Pc
  sent : ℕ → Pc
  dropped : ℕ → Pc
  lost : Pc
  failed : Pc

module _ {ℓ} {A : Type ℓ} where
  unfoldable pub lookup : String → List (String × A) → Option A
  lookup k [] = none
  lookup k ((j, a) ∷ m) = if str_eq j k then some a else lookup k m

  -- m[k] = a
  unfoldable pub insert : String → A → List (String × A) → List (String × A)
  insert k a [] = (k, a) ∷ []
  insert k a ((j, b) ∷ m) = if str_eq j k then (k, a) ∷ m else (j, b) ∷ insert k a m

  -- delete(m, k)
  unfoldable pub delete : String → List (String × A) → List (String × A)
  delete k [] = []
  delete k ((j, b) ∷ m) = if str_eq j k then delete k m else (j, b) ∷ delete k m

-- state, ok := forwardState.connections[identify]
pub look : World → String → Pc
look w identify = elim (lookup identify w.connections) [ none ↦ missed | some p ↦ found p ]

-- connState.conn = c
abbrev pub dialled : ConnState → ConnState
dialled s = record s { conn = some (record { is_open = true; wire = [] }) }

-- The second lookup, under the lock; a miss dials, and `none` as the dialler's answer is its error.
pub enter : Bool → World → String → ℕ → World × Pc
enter dial_ok w identify conn_state = elim (lookup identify w.connections) [
  | some p ↦ (w, lost)
  | none ↦
      if dial_ok
      then (
        record w {
          connections = insert identify conn_state w.connections;
          states = modify w.states conn_state dialled;
        },
        found conn_state,
      )
      else (w, failed)
]

abbrev pub write_conn : Datagram → Conn → Conn
write_conn buff c = if c.is_open then record c { wire = c.wire ++ (buff ∷ []) } else c

abbrev pub write_state : Datagram → ConnState → ConnState
write_state buff s = record s {
  conn = elim s.conn [ none ↦ none | some c ↦ some (write_conn buff c) ];
}

-- Whether the object's socket takes a write.
abbrev pub is_writable : List ConnState → ℕ → Bool
is_writable states p = elim (get_elem? states p) [
  | none ↦ false
  | some s ↦ elim s.conn [ none ↦ false | some c ↦ c.is_open ]
]

-- state.conn.Write(buff)
pub write_found : World → ℕ → Datagram → World × Pc
write_found w p buff = (
  record w { states = modify w.states p (write_state buff) },
  if is_writable w.states p then sent p else dropped p,
)

-- attachConnect, when nothing runs in between.
pub attach_connect : Bool → World → String → Datagram → ℕ → World × Pc
unfolding look enter write_found
attach_connect dial_ok w identify buff conn_state = elim (look w identify) [
  | found p ↦ write_found w p buff
  | _ ↦
      let (w', pc) = enter dial_ok w identify conn_state in
      elim pc [ found p ↦ write_found w' p buff | other ↦ (w', other) ]
]

abbrev pub close_state : ConnState → ConnState
close_state s = record s {
  conn = elim s.conn [ none ↦ none | some c ↦ some (record c { is_open = false }) ];
}

-- connState.conn.Close(); delete(forwardState.connections, connState.identify)
pub stop : World → ℕ → World
stop w p = elim (get_elem? w.states p) [
  | none ↦ w
  | some s ↦ record w {
    connections = delete s.identify w.connections;
    states = modify w.states p close_state;
  }
]

-- The `&connectionState{dst, dial, sendLocal}` that readRemoteDate makes: its identify is left "".
pub new_state : World → String → World × ℕ
new_state w dst = (
  record w { states = w.states ++ (record { identify = ""; dst = dst; conn = none } ∷ []) },
  length w.states,
)

-- The end of readRemoteDate: each datagram comes with an object of its own, and the dialler's answer,
-- should it be asked.
pub deliver : Bool → World → String → String → Datagram → World
unfolding new_state attach_connect
deliver dial_ok w identify dst buff =
    let (w', conn_state) = new_state w dst in (attach_connect dial_ok w' identify buff conn_state).0

-- connectionState.Write: hands the data to sendLocal, and its length or the error back.
pub write_local {ℓ} : {E : Type ℓ} → (Datagram → Option E) → Datagram → ℕ × Option E
write_local send_local p = elim (send_local p) [
  | some err ↦ (0, some err)
  | none ↦ (length p, none)
]
