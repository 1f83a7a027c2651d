-- ===== src/Net.antt =====
-- The types of Go's net package that the program builds and takes apart by itself. What the package
-- computes (ParseCIDR, Contains, To4, ...) is a parameter of the definitions that call it.
use an_app.Base.{ℕ, List}

-- `type IP []byte`; nil is the empty list.
abbrev pub Ip : Type 0
Ip = List ℕ

-- `type IPNet struct { IP IP; Mask IPMask }`
pub record IpNet : Type 0 where
  pub ip : Ip
  pub mask : List ℕ
