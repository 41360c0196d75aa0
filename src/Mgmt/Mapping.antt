-- ===== src/Mgmt/Mapping.antt =====
-- The map from hardware addresses to interfaces, as its clients see it.
use nxos_dhcp6_exporter.Prelude.{
  String, ◌≡◌, refl, Option, some, List, [], ◌∷◌, ap, ◌∙◌, arith, if◌then◌else◌,
}
use nxos_dhcp6_exporter.Outcome.{Outcome, ok, raised, fault, ◌>>=◌, >>=-ok}
use nxos_dhcp6_exporter.Kea.{Kea}
use nxos_dhcp6_exporter.Nxos.{AdjObject}
use nxos_dhcp6_exporter.Mgmt.Names.{is_valid_vlan_name, from_raw_cisco_string}
use nxos_dhcp6_exporter.Mgmt.Neighbor.{HwAddrMap, find_hwaddr, set_hwaddr, add_object, add_objects}

module _ (kea : Kea) where
  open kea use {HwAddr, same_hwaddr, same_hwaddr_iff}

  -- A lookup after an entry was set gives the new value for its key, and what it gave for every other.
  pub find-set :
      (key k : HwAddr) (v : String) (m : HwAddrMap kea)
      → find_hwaddr kea k (set_hwaddr kea key v m)
        ≡ (if same_hwaddr key k then some v else find_hwaddr kea k m)
  unfolding find_hwaddr set_hwaddr
  find-set key k v [] = refl
  find-set key k v ((j, w) ∷ m) =
      ground (
        arith,
        same_hwaddr_iff j key,
        same_hwaddr_iff j k,
        same_hwaddr_iff key k,
        find-set key k v m,
      )

  -- What one object says of an address, over what was said before: its interface is a VLAN and its
  -- address is this one.
  abbrev named : HwAddr → String → Option String → Outcome HwAddr → Option String
  named k interface last (ok key) = if same_hwaddr key k then some interface else last
  named k interface last _ = last

  abbrev pub reported_by : HwAddr → AdjObject → Option String → Option String
  reported_by k object last =
      if is_valid_vlan_name object.intf_out
      then named k object.intf_out last (from_raw_cisco_string kea object.mac)
      else last

  -- The last object that says something of the address.
  abbrev pub reported : HwAddr → List AdjObject → Option String → Option String
  reported k [] last = last
  reported k (object ∷ rest) last = reported k rest (reported_by k object last)

  set-named :
      (k : HwAddr) (interface : String) (r : Outcome HwAddr) (m n : HwAddrMap kea)
      → (do key ← r; ok (set_hwaddr kea key interface m)) ≡ ok n
      → find_hwaddr kea k n ≡ named k interface (find_hwaddr kea k m) r
  set-named k interface (ok key) m n h =
      let e : set_hwaddr kea key interface m ≡ n = cc in rw (← e) (find-set key k interface m)
  set-named k interface (raised x) m n h = cc
  set-named k interface (fault u) m n h = cc

  add-reported_by :
      (k : HwAddr) (object : AdjObject) (m n : HwAddrMap kea)
      → add_object kea object m ≡ ok n
      → find_hwaddr kea k n ≡ reported_by k object (find_hwaddr kea k m)
  unfolding add_object
  add-reported_by k object m n h =
      ground (arith, set-named k object.intf_out (from_raw_cisco_string kea object.mac) m n)

  -- Where the map is built, looking up an address in it gives what the last object with that address
  -- and a VLAN interface says, or what the map held before.
  pub add_objects-reported :
      (k : HwAddr) (objects : List AdjObject) (m n : HwAddrMap kea)
      → add_objects kea objects m ≡ ok n
      → find_hwaddr kea k n ≡ reported k objects (find_hwaddr kea k m)
  unfolding add_objects
  add_objects-reported k [] m n h = ap (find_hwaddr kea k) (cc)
  add_objects-reported k (object ∷ rest) m n h =
      let (m', more, step) = >>=-ok (add_object kea object m) (add_objects kea rest) h in
      add_objects-reported k rest m' n more
      ∙ ap (reported k rest) (add-reported_by k object m m' step)
