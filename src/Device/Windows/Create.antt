-- ===== src/Device/Windows/Create.antt =====
-- device/device_windows.go: CreateTUN, and determineGUID, which makes the adapter's GUID out of its
-- name, so that the same name names the same adapter. wireguard's tun and the bytes that hkdf makes of
-- a name are parameters.
use Prim.Native.String.{String}
use an_app.Base.{ℕ, ◌⊎◌, inl, inr, List, Option, none, some}

-- unsafe.Sizeof(windows.GUID{})
abbrev pub guid_size : ℕ
guid_size = 16

-- CreateTUNWithRequestedGUID with the name, the GUID or nil, and the MTU; NativeTun.Name; and ReadFull
-- from hkdf.New of a name.
pub record Tun (D E : Type 0) : Type 0 where
  pub create : String → Option (List ℕ) → ℕ → E ⊎ D
  pub name_of : D → String × Option E
  pub read_full : String → ℕ → E ⊎ List ℕ

unfoldable pub determine_guid : {D E : Type 0} → Tun D E → String → Option (List ℕ)
determine_guid tun name = elim (tun.read_full name guid_size) [ inl e ↦ none | inr b ↦ some b ]

-- The device that is returned beside the error.
pub record Created (D E : Type 0) : Type 0 where
  pub native_tun : Option D
  pub name : String
  pub err : Option E

unfoldable pub create_tun : {D E : Type 0} → Tun D E → String → ℕ → Created D E
create_tun tun name mtu = elim (tun.create name (determine_guid tun name) mtu) [
  | inl e ↦ record { native_tun = none; name = ""; err = some e }
  | inr d ↦ record { native_tun = some d; name = (tun.name_of d).0; err = (tun.name_of d).1 }
]
