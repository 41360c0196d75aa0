-- ===== src/System/Cases.antt =====
-- What holds of each branch holds of the whole, for the ways in which the handlers branch.
use nxos_dhcp6_exporter.Prelude.{Bool, true, false, Option, none, some, if◌then◌else◌}
use nxos_dhcp6_exporter.Kea.{LeaseType, type_na, type_ta, type_pd, type_v4}
use nxos_dhcp6_exporter.Run.{Run, done}

module _ {J : Type 0} (P : Run J → Type 0) where
  pub option_case {ℓ} :
      {A : Type ℓ} (o : Option A) (f : A → Run J) (r : Run J)
      → ((a : A) → P (f a))
      → P r
      → P (elim o [ some a ↦ f a | none ↦ r ])
  option_case none f r h hr = hr
  option_case (some a) f r h hr = h a

  pub type_case :
      (t : LeaseType) (na pd : Run J)
      → P na
      → P pd
      → P done
      → P (elim t [ type_na ↦ na | type_pd ↦ pd | type_ta ↦ done | type_v4 ↦ done ])
  type_case type_na na pd n p d = n
  type_case type_pd na pd n p d = p
  type_case type_ta na pd n p d = d
  type_case type_v4 na pd n p d = d

  pub if_case : (b : Bool) (r k : Run J) → P r → P k → P (if b then r else k)
  if_case true r k hr hk = hr
  if_case false r k hr hk = hk
