-- ===== src/Mgmt/Spelling.antt =====
-- What the texts of Mgmt/Names are, described without loops and patterns.
use nxos_dhcp6_exporter.Prelude.{
  ℕ, ◌+◌, ◌%◌, ◌≤◌, ◌<◌, ◌≡◌, ◌↔◌, ◌⊎◌, refl, true, List, [], ◌∷◌, ◌==◌, All, arith, ap, ◌∙◌,
  if◌then◌else◌,
}
use nxos_dhcp6_exporter.Mgmt.Names.{all_digits, matches_vlan, mac_loop, with_colon}

-- A letter in lower or upper case.
abbrev pub IsLetter : ℕ → ℕ → Type 0
IsLetter lower c = (c ≡ lower) ⊎ (c + 32 ≡ lower)

abbrev pub IsDigit : ℕ → Type 0
IsDigit c = (b'0' ≤ c) × (c ≤ b'9')

-- "vlan" in any case, and one digit or more.
abbrev pub IsVlanName : List ℕ → Type 0
IsVlanName (v ∷ l ∷ a ∷ n ∷ d ∷ ds) =
    IsLetter b'v' v × IsLetter b'l' l × IsLetter b'a' a × IsLetter b'n' n × All IsDigit (d ∷ ds)
IsVlanName _ = ⊥

all_digits_iff : (l : List ℕ) → (all_digits l ≡ true) ↔ All IsDigit l
unfolding all_digits
all_digits_iff [] = (λ h. tt, λ h. refl)
all_digits_iff (c ∷ l) =
    let (there, back) = all_digits_iff l in (λ h. ground (arith, there), λ h. ground (arith, back))

-- The names that the regular expression accepts.
pub matches_vlan_iff : (s : List ℕ) → (matches_vlan s ≡ true) ↔ IsVlanName s
unfolding matches_vlan
matches_vlan_iff (v ∷ l ∷ a ∷ n ∷ d ∷ ds) =
    let (there, back) = all_digits_iff ds in (λ h. ground (arith, there), λ h. ground (arith, back))
matches_vlan_iff (v ∷ l ∷ a ∷ n ∷ []) = (λ h. ground arith, λ h. absurd h)
matches_vlan_iff (v ∷ l ∷ a ∷ []) = (λ h. cc, λ h. absurd h)
matches_vlan_iff (v ∷ l ∷ []) = (λ h. cc, λ h. absurd h)
matches_vlan_iff (v ∷ []) = (λ h. cc, λ h. absurd h)
matches_vlan_iff [] = (λ h. cc, λ h. absurd h)

-- The characters that are no dot.
abbrev pub without_dots : List ℕ → List ℕ
without_dots [] = []
without_dots (c ∷ l) = let rest = without_dots l in if c == b'.' then rest else c ∷ rest

-- Groups of two characters, with a colon between groups.
abbrev pub colon_pairs : List ℕ → List ℕ
colon_pairs [] = []
colon_pairs (a ∷ []) = a ∷ []
colon_pairs (a ∷ b ∷ []) = a ∷ b ∷ []
colon_pairs (a ∷ b ∷ c ∷ l) = a ∷ b ∷ b':' ∷ colon_pairs (c ∷ l)

abbrev colon_before : List ℕ → List ℕ
colon_before [] = []
colon_before (c ∷ l) = b':' ∷ colon_pairs (c ∷ l)

-- The loop over a text with no dot.
abbrev plain : ℕ → List ℕ → List ℕ
plain cnt [] = []
plain cnt (c ∷ l) = with_colon cnt c (plain (cnt + 1) l)

loop-plain : (cnt : ℕ) (raw : List ℕ) → mac_loop cnt raw ≡ plain cnt (without_dots raw)
unfolding mac_loop
loop-plain cnt [] = refl
loop-plain cnt (c ∷ raw) = ground (arith, loop-plain cnt raw, loop-plain (cnt + 1) raw)

plain-even : (cnt : ℕ) (l : List ℕ) → cnt % 2 ≡ 0 → 0 < cnt → plain cnt l ≡ colon_before l
plain-even cnt [] even pos = refl
plain-even cnt (a ∷ []) even pos = ground arith
plain-even cnt (a ∷ b ∷ []) even pos = ground arith
plain-even cnt (a ∷ b ∷ c ∷ l) even pos =
    let ih = plain-even (cnt + 1 + 1) (c ∷ l) (omega arith) (omega arith) in ground (arith, ih)

plain-start : (l : List ℕ) → plain 0 l ≡ colon_pairs l
plain-start [] = refl
plain-start (a ∷ []) = refl
plain-start (a ∷ b ∷ []) = refl
plain-start (a ∷ b ∷ c ∷ l) = ap (λ r. a ∷ b ∷ r) (plain-even 2 (c ∷ l) (omega arith) (omega arith))

-- The text given to Kea is the raw address without its dots, in groups of two with colons between.
pub mac_loop-pairs : (raw : List ℕ) → mac_loop 0 raw ≡ colon_pairs (without_dots raw)
mac_loop-pairs raw = loop-plain 0 raw ∙ plain-start (without_dots raw)
