-- ===== src/Udp/Forwarder/Removal.antt =====
-- What the write section of the janitor of handler/remoteSocketHandler/udp/forwardUtil.go leaves, in
-- whatever order Go's map has given it its keys.
use Prim.Native.String.{String}
use text.Mathlib.Text.{◌==◌ as str_eq}
use an_app.Base.{ℕ, ◌≡◌, false, List, none, some, get_elem?}
use an_app.Udp.State.{Conn, lookup}
use an_app.Udp.Forwarder.{Forwarder}
use an_app.Udp.Forwarder.Janitor.{udp_at}

-- The socket n is not open.
abbrev pub IsClosed : ℕ → List Conn → Type 0
IsClosed n cs = (c : Conn) → get_elem? cs n ≡ some c → c.is_open ≡ false

-- A client that is gone, with its socket closed.
pub record IsRemoved (f g : Forwarder) (k : String) : Type 0 where
  pub unmapped : lookup k g.connections ≡ none
  pub closed :
      (p n : ℕ) → lookup k f.connections ≡ some p → udp_at f.heap p ≡ some n → IsClosed n g.sockets
