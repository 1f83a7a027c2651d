-- ===== src/Routes/Windows.antt =====
-- model/route_windows.go: the route table read from Windows.
-- winipcfg and the net package are parameters: the forwarding table, the interface rows that
-- GtIfEntry2 and LUID.IPInterface fill in, the map of the adapters' addresses (Adapters has
-- adapterAddresses, which makes it), net.ParseCIDR, IPMask.Size and IP.To4. `none` as a result is the nil
-- dereference of `row2.Metric`. The two caches are association lists; strings are compared by `==`.
pub mod Bits
pub mod Cache
pub mod Adapters
pub mod Changes
use Prim.Native.Nat.{bit_and}
use Prim.Native.String.{String}
use text.Mathlib.Text.{◌==◌ as str_eq}
use an_app.Base.{
  ℕ, zero, suc, ◌+◌, ◌/◌, ◌%◌, ◌^◌, Bool, true, false, not, ◌&&◌, List, [], ◌∷◌, ◌++◌, Option, none,
  some, if◌then◌else◌, ltb, leb, ◌==◌,
}
use an_app.Base.Int.{ℤ, pos, negsuc, is_ℕ}
use an_app.Base.Words.{add32}
use an_app.Net.{Ip, IpNet}
use an_app.Routes.{CustomRoute}

unfoldable pub get_bit : ℕ → ℤ → ℤ
get_bit b (negsuc n) = negsuc 0
get_bit b (pos n) = if ltb 7 n then negsuc 0 else pos (bit_and (b / 2 ^ n) 1)

-- for i := 0; i < 8 && recJ <= mask; i++: `k` rounds are left, and the pair is (recJ, count).
unfoldable pub count_byte : ℕ → ℕ → ℕ → ℕ → ℕ × ℕ → ℕ × ℕ
count_byte zero i b mask (rec_j, count) = (rec_j, count)
count_byte (suc k) i b mask (rec_j, count) =
    let rest =
      count_byte k (i + 1) b mask
        (rec_j + 1, if is_ℕ (get_bit b (pos i)) 1 then count + 1 else count) in
    if leb rec_j mask then rest else (rec_j, count)

-- for _, b := range ip4
unfoldable pub count_bytes : List ℕ → ℕ → ℕ × ℕ → ℕ × ℕ
count_bytes [] mask st = st
count_bytes (b ∷ bs) mask st = count_bytes bs mask (count_byte 8 0 b mask st)

-- `ip == nil` is the empty list.
unfoldable pub count_bits : (Ip → Option Ip) → Ip → ℕ → ℕ
count_bits to4 [] mask = 0
count_bits to4 (b ∷ bs) mask = elim (to4 (b ∷ bs)) [
  | none ↦ 0
  | some ip4 ↦ (count_bytes ip4 mask (1, 0)).1
]

-- The fields of winipcfg.MibIPforwardRow2 that FindRoutes reads; the prefix is its text.
pub record ForwardRow : Type 0 where
  pub interface_luid : ℕ
  pub interface_index : ℕ
  pub prefix : String
  pub metric : ℕ

-- The fields of winipcfg.MibIfRow2, with its Alias.
pub record IfRow : Type 0 where
  pub interface_index : ℕ
  pub interface_luid : ℕ
  pub connected : Bool
  pub alias : String

-- The zero value that `var row` and a missing map entry give.
abbrev pub zero_row : IfRow
zero_row = record { interface_index = 0; interface_luid = 0; connected = false; alias = "" }

-- A Go map keyed by LUIDs.
abbrev pub LuidMap {ℓ} : Type ℓ → Type ℓ
LuidMap A = List (ℕ × A)

module _ {ℓ} {A : Type ℓ} where
  unfoldable pub lookup : ℕ → LuidMap A → Option A
  lookup k [] = none
  lookup k ((j, a) ∷ m) = if j == k then some a else lookup k m

-- What a run of FindRoutes asks of Windows and of the net package.
pub record Host : Type 0 where
  pub gt_if_entry2 : IfRow → IfRow
  pub ip_interface : ℕ → Option ℕ
  pub addresses : ℕ → Ip
  pub parse_cidr : String → Option (Ip × IpNet)
  pub mask_size : IpNet → ℕ
  pub to4 : Ip → Option Ip
  pub tun_name : String

-- The two maps and the slice that the loop updates; of `row2` the metric alone is read.
pub record Scan : Type 0 where
  pub if_rows : LuidMap IfRow
  pub ip_if_rows : LuidMap (Option ℕ)
  pub routes : List CustomRoute

module _ (h : Host) where
  -- A miss asks Windows for both rows and stores them.
  pub miss_rows : Scan → ForwardRow → IfRow → Scan × IfRow × Option ℕ
  miss_rows s t row =
      let filled = h.gt_if_entry2 (record row { interface_index = t.interface_index }) in
      let row2 = h.ip_interface filled.interface_luid in
      (
        record s {
          if_rows = (t.interface_luid, filled) ∷ s.if_rows;
          ip_if_rows = (t.interface_luid, row2) ∷ s.ip_if_rows;
        },
        filled,
        row2,
      )

  -- The two map lookups of the loop, and what they lead to.
  unfoldable pub interface_rows : Scan → ForwardRow → Scan × IfRow × Option ℕ
  unfolding miss_rows lookup
  interface_rows s t = elim (lookup t.interface_luid s.if_rows) [
    | none ↦ miss_rows s t zero_row
    | some row ↦ elim (lookup t.interface_luid s.ip_if_rows) [
      | none ↦ miss_rows s t row
      | some row2 ↦ (s, row, row2)
    ]
  ]

  -- The route of one row, if it makes one.
  unfoldable pub row_route : ForwardRow → IfRow → Option ℕ → Option (List CustomRoute)
  row_route t row row2 =
      if row.connected && not (str_eq row.alias h.tun_name)
      then elim (h.parse_cidr t.prefix) [
        | none ↦ some []
        | some (_, ip_net) ↦ elim row2 [
          | none ↦ none
          | some metric2 ↦ some (
              record {
                if_name = row.alias;
                subnet = some ip_net;
                ip = h.addresses row.interface_index;
                metric = add32 t.metric metric2;
                if_index = t.interface_index;
                bit_count =
                    if ltb 0 (h.mask_size ip_net)
                    then count_bits h.to4 (h.addresses row.interface_index) (h.mask_size ip_net)
                    else 0;
              }
              ∷ [])
        ]
      ]
      else some []

  -- for i := range table2
  unfoldable pub scan_rows : List ForwardRow → Scan → Option Scan
  scan_rows [] s = some s
  scan_rows (t ∷ ts) s =
      let (s', row, row2) = interface_rows s t in
      elim (row_route t row row2) [
        | none ↦ none
        | some rs ↦ scan_rows ts (record s' { routes = s'.routes ++ rs })
      ]

  -- A failed GetIPForwardTable2 is `none`, and gives a nil slice.
  unfoldable pub find_routes : Option (List ForwardRow) → Option (List CustomRoute)
  find_routes none = some []
  find_routes (some table2) =
      elim (scan_rows table2 (record { if_rows = []; ip_if_rows = []; routes = [] })) [
        | none ↦ none
        | some s ↦ some s.routes
      ]
