-- ===== src/Dns.antt =====
-- protocol/dns/dohTools.go: SendDoh, a DNS query over HTTPS.
-- The HTTP client and base64 are parameters. A panic in the body is recovered by a deferred
-- function whose `err` is its own, so the named results stay nil. msg.Unpack only feeds the log.
use Prim.Native.String.{String, ◌++◌}
use an_app.Base.{ℕ, List, [], ◌∷◌, Option, none, some}

-- An error value of the program: its own, or one that a library handed back.
pub data Error : Type 0 where
  source_data : Error
  foreign : ℕ → Error

-- What http.Get and the reading of the body come to.
pub data Fetched : Type 0 where
  panicked : Fetched
  refused : Error → Fetched
  body : List ℕ → Option Error → Fetched

-- The request's URL.
abbrev pub doh_query : (List ℕ → String) → String → List ℕ → String
doh_query encode doh_url source = doh_url ++ ("?dns=" ++ encode source)

-- The buffer and the error that SendDoh returns; a nil source is the empty one.
unfoldable pub send_doh :
    (List ℕ → String) → (String → Fetched) → String → List ℕ → Option (List ℕ) × Option Error
send_doh encode fetch doh_url [] = (none, some source_data)
send_doh encode fetch doh_url (b ∷ bs) = elim (fetch (doh_query encode doh_url (b ∷ bs))) [
  | panicked ↦ (none, none)
  | refused e ↦ (none, some e)
  | body buff e ↦ (some buff, e)
]
