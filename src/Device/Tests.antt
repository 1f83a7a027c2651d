-- ===== src/Device/Tests.antt =====
-- Runs of AddRouteEntry.
use text.Mathlib.Text.{◌==◌ as str_eq}
use an_app.Base.{refl, [], ◌∷◌, none, some, if◌then◌else◌}
use an_app.Net.{Ip, IpNet}
use an_app.Device.{NetCalls}
use an_app.Device.Entries.{Parses, nothing, item}

abbrev network : IpNet
network = record { ip = 10 ∷ 0 ∷ 0 ∷ 0 ∷ []; mask = 255 ∷ 0 ∷ 0 ∷ 0 ∷ [] }

-- Three entries parse: an IPv4 address is given in one byte here, and an IPv6 address in two.
abbrev calls : NetCalls
calls = record {
  parse_cidr = λ s.
      if str_eq s "fe80::/10"
      then some (1 ∷ 2 ∷ [], network)
      else if str_eq s "10.0.0.0/8"
      then some (1 ∷ [], network)
      else none;
  to4 = short;
  to16 = λ ip. ip;
}
  where
    short : Ip → Ip
    short [] = []
    short (a ∷ []) = a ∷ []
    short (a ∷ b ∷ rest) = []

abbrev mixed : Parses calls ("fe80::/10" ∷ "10.0.0.0/8" ∷ [])
mixed = item (1 ∷ 2 ∷ [], network) refl (item (1 ∷ [], network) refl nothing)
