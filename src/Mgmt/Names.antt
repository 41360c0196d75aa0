-- ===== src/Mgmt/Names.antt =====
-- Texts that src/nxos_management_client.cpp walks through: names of VLAN interfaces, which a regular
-- expression tests, and hardware addresses in Cisco's notation.
use nxos_dhcp6_exporter.Prelude.{
  ℕ, ◌+◌, ◌%◌, String, Bool, true, false, ◌&&◌, ◌||◌, List, [], ◌∷◌, codes, leb, ltb, ◌==◌,
  if◌then◌else◌,
}
use nxos_dhcp6_exporter.Outcome.{Outcome}
use nxos_dhcp6_exporter.Kea.{Kea}

-- A letter of the pattern, matched without case: the pattern's letter is lower case.
abbrev pub is_letter : ℕ → ℕ → Bool
is_letter lower c = c == lower || c + 32 == lower

abbrev pub is_digit : ℕ → Bool
is_digit c = leb b'0' c && leb c b'9'

-- `\d*` up to the end of the text
unfoldable pub all_digits : List ℕ → Bool
all_digits [] = true
all_digits (c ∷ rest) = is_digit c && all_digits rest

-- `\d+`
unfoldable pub digits_one_or_more : List ℕ → Bool
unfolding all_digits
digits_one_or_more [] = false
digits_one_or_more (c ∷ rest) = is_digit c && all_digits rest

-- `(vlan)(\d+)` on the whole text
unfoldable pub matches_vlan : List ℕ → Bool
unfolding digits_one_or_more
matches_vlan (v ∷ l ∷ a ∷ n ∷ rest) =
    is_letter b'v' v
    && is_letter b'l' l
    && is_letter b'a' a
    && is_letter b'n' n
    && digits_one_or_more rest
matches_vlan _ = false

-- isValidVlanName
unfoldable pub is_valid_vlan_name : String → Bool
unfolding matches_vlan
is_valid_vlan_name if_name = matches_vlan (codes if_name)

-- The character that one round of the loop adds, after a colon if one is due.
abbrev pub with_colon : ℕ → ℕ → List ℕ → List ℕ
with_colon cnt c rest = if ltb 0 cnt && cnt % 2 == 0 then b':' ∷ c ∷ rest else c ∷ rest

-- The loop of fromRawCiscoString; `cnt` counts the characters that are no dot.
unfoldable pub mac_loop : ℕ → List ℕ → List ℕ
mac_loop cnt [] = []
mac_loop cnt (c ∷ raw) =
    let rest = mac_loop (if c == b'.' then cnt else cnt + 1) raw in
    if c == b'.' then rest else with_colon cnt c rest

-- fromRawCiscoString
unfoldable pub from_raw_cisco_string : (kea : Kea) → String → Outcome kea.HwAddr
unfolding mac_loop
from_raw_cisco_string kea raw_mac = kea.hwaddr_from_text (mac_loop 0 (codes raw_mac))
