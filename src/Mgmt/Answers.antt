-- ===== src/Mgmt/Answers.antt =====
-- Which answers to a route lookup are accepted.
use nxos_dhcp6_exporter.Prelude.{
  ◌≡◌, ◌↔◌, refl, String, Bool, true, false, Option, none, some, List, [], ◌∷◌, ◌++◌, All,
}
use nxos_dhcp6_exporter.Outcome.{ok, raised, fault, bad_value, empty_optional, >>=-ok}
use nxos_dhcp6_exporter.Nxos.{RowPath, RowPrefix, RowAddr, RowVrf, RouteLookupResponse}
use nxos_dhcp6_exporter.Mgmt.Lookup.{only_row, first_prefix, single_path, find_value}

only_row-ok {ℓ} :
    {A : Type ℓ} (message : String) (l : List A) (x : A) → only_row message l ≡ ok x → l ≡ x ∷ []
unfolding only_row
only_row-ok message [] x h = cc
only_row-ok message (y ∷ []) x h = cc
only_row-ok message (y ∷ z ∷ l) x h = cc

first_prefix-ok :
    (o : Option (List RowPrefix)) (x : RowPrefix)
    → first_prefix o ≡ ok x
    → (others : List RowPrefix) × (o ≡ some (x ∷ others))
unfolding first_prefix
first_prefix-ok none x h = cc
first_prefix-ok (some []) x h = cc
first_prefix-ok (some (y ∷ l)) x h = (l, cc)

-- The rows on the way to the paths: one VRF, one address family, a table of prefixes whose first row
-- counts, and one path in it. There may be further rows of prefixes.
pub record IsAnswer (lookup : RouteLookupResponse) (path : RowPath) : Type 0 where
  pub vrf : RowVrf
  pub addrf : RowAddr
  pub prefix : RowPrefix
  pub other_prefixes : List RowPrefix
  pub one_vrf : lookup.table_vrf ≡ vrf ∷ []
  pub one_addrf : vrf.table_addrf ≡ addrf ∷ []
  pub some_prefix : addrf.table_prefix ≡ some (prefix ∷ other_prefixes)
  pub one_path : prefix.table_path ≡ path ∷ []

single_path-IsAnswer :
    (lookup : RouteLookupResponse) (path : RowPath)
    → single_path lookup ≡ ok path
    → IsAnswer lookup path
unfolding single_path
single_path-IsAnswer lookup path h =
    let (vrf, h1, v) = >>=-ok (only_row _ lookup.table_vrf) _ h in
    let (addrf, h2, a) = >>=-ok (only_row _ vrf.table_addrf) _ h1 in
    let (prefix, h3, p) = >>=-ok (first_prefix addrf.table_prefix) _ h2 in
    let (others, q) = first_prefix-ok addrf.table_prefix prefix p in
    record {
      vrf = vrf;
      addrf = addrf;
      prefix = prefix;
      other_prefixes = others;
      one_vrf = only_row-ok _ lookup.table_vrf vrf v;
      one_addrf = only_row-ok _ vrf.table_addrf addrf a;
      some_prefix = q;
      one_path = only_row-ok _ prefix.table_path path h3;
    }

-- The row of paths is read from the answers of `IsAnswer`, and from no other ones.
pub single_path_iff :
    (lookup : RouteLookupResponse) (path : RowPath)
    → (single_path lookup ≡ ok path) ↔ IsAnswer lookup path
unfolding single_path only_row first_prefix
single_path_iff lookup path =
    (single_path-IsAnswer lookup path, λ h. rw (h.one_vrf, h.one_addrf, h.some_prefix, h.one_path))

-- An answer of one VRF and one address family that has no table of prefixes is not refused: the empty
-- optional is read.
pub absent_prefix_faults :
    (lookup : RouteLookupResponse) (vrf : RowVrf) (addrf : RowAddr)
    → lookup.table_vrf ≡ vrf ∷ []
    → vrf.table_addrf ≡ addrf ∷ []
    → addrf.table_prefix ≡ none
    → single_path lookup ≡ fault empty_optional
unfolding single_path only_row first_prefix
absent_prefix_faults lookup vrf addrf v a p = rw (v, a, p)

-- A value that is found passes the test and is the first one that does; none is found where no value
-- passes it.
pub find_value-first :
    (test : String → Bool) (message s : String) (before after : List (Option String))
    → All (λ (o : Option String). (t : String) → o ≡ some t → test t ≡ false) before
    → (test s ≡ true → find_value test message (before ++ some s ∷ after) ≡ ok s)
      × (find_value test message before ≡ raised (bad_value message))
unfolding find_value
find_value-first test message s [] after h = (λ t. rw t, refl)
find_value-first test message s (none ∷ before) after (h, hs) =
    find_value-first test message s before after hs
find_value-first test message s (some r ∷ before) after (h, hs) =
    let no = h r refl in
    let rest = find_value-first test message s before after hs in
    (λ t. rw no (rest.0 t), rw no rest.1)
