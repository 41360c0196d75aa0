-- ===== src/Kea.antt =====
-- What the program takes from Kea: leases, addresses, hardware addresses and the lease database are
-- parameters. src/lease_utils.cpp stands on them.
use nxos_dhcp6_exporter.Prelude.{
  ℕ, ◌+◌, String, ◌≡◌, ◌↔◌, Bool, true, ◌||◌, Option, none, some, List, [], ◌∷◌, length,
  if◌then◌else◌,
}
use nxos_dhcp6_exporter.Outcome.{Outcome}

-- isc::asiolink::IOAddress, as the 128-bit number of the address
abbrev pub IoAddress : Type 0
IoAddress = ℕ

-- isc::dhcp::DUID, as its bytes
abbrev pub Duid : Type 0
Duid = List ℕ

-- isc::dhcp::HWAddr and the functions on addresses
pub record Kea : Type 1 where
  pub HwAddr : Type 0
  pub same_hwaddr : HwAddr → HwAddr → Bool  -- HWAddr::operator==
  pub same_hwaddr_iff : (a b : HwAddr) → (same_hwaddr a b ≡ true) ↔ (a ≡ b)
  pub hwaddr_from_text : List ℕ → Outcome HwAddr  -- HWAddr::fromText
  pub address_text : IoAddress → String  -- IOAddress::toText

-- isc::dhcp::Lease::Type
pub data LeaseType : Type 0 where
  type_na type_ta type_pd type_v4 : LeaseType

-- What the program reads of an isc::dhcp::Lease6.
pub record Lease (H : Type 0) : Type 0 where
  pub lease_type : LeaseType
  pub addr : IoAddress
  pub prefixlen : ℕ
  pub iaid : ℕ
  pub duid : Option Duid
  pub hwaddr : Option H
  pub expired_reclaimed : Bool  -- stateExpiredReclaimed()
  pub declined : Bool  -- stateDeclined()

-- The lease database at one moment: LeaseMgr::getLeases6 by client and by subnet.
pub record LeaseMgr (H : Type 0) : Type 0 where
  pub by_client : LeaseType → Duid → ℕ → List (Lease H)
  pub by_subnet : ℕ → List (Lease H)

module _ {H : Type 0} where
  -- The loop of findIA_NALeaseByDUID_IAID: the first lease that is in use.
  unfoldable pub first_active : List (Lease H) → Option (Lease H)
  first_active [] = none
  first_active (lease ∷ rest) =
      if lease.expired_reclaimed || lease.declined then first_active rest else some lease

  -- LeaseUtils::findIA_NALeaseByDUID_IAID
  unfoldable pub find_ia_na_lease : LeaseMgr H → Option Duid → ℕ → Option (Lease H)
  unfolding first_active
  find_ia_na_lease db none iaid = none
  find_ia_na_lease db (some duid) iaid = first_active (db.by_client type_na duid iaid)

  -- LeaseUtils::getActiveAndExpiredLeasesSize
  unfoldable pub leases_size : LeaseMgr H → LeaseType → Option Duid → ℕ → ℕ
  leases_size db type none iaid = 0
  leases_size db type (some duid) iaid = 0 + length (db.by_client type duid iaid)
