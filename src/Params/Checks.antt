-- ===== src/Params/Checks.antt =====
-- What parseConfig accepts (src/nxos_connection_params.cpp).
use nxos_dhcp6_exporter.Prelude.{
  ℕ, ◌-◌, ◌^◌, ◌≤◌, ◌<◌, String, ◌≡◌, true, Option, none, some, arith,
}
use nxos_dhcp6_exporter.Prelude.Int.{negsuc}
use nxos_dhcp6_exporter.Outcome.{ok, fault, null_pointer}
use nxos_dhcp6_exporter.Params.{
  ConfigApi, integer, string_element, https, ConnectionParams, text_field, heartbeat_interval,
  check_tls, parse_config,
}

module _ (c : ConfigApi) where
  open c use {Element, get_type, string_value, int_value, find, parse_url, is_valid}

  -- A configuration with a valid host and no "heartbeat-interval" is not given the default of five
  -- seconds: the code dereferences the null pointer.
  pub default_interval_faults :
      (params : Element) (host : String)
      → text_field c params "host" ≡ ok host
      → is_valid (parse_url host) ≡ true
      → find params "heartbeat-interval" ≡ none
      → parse_config c (some params) ≡ fault null_pointer
  unfolding parse_config
  default_interval_faults params host h v i = simp (h, v, i)

  -- A negative interval is accepted as a very long one.
  pub negative_interval_accepted :
      (element : Element) (n : ℕ)
      → get_type element ≡ integer
      → int_value element ≡ ok (negsuc n)
      → n < 2 ^ 63
      → (heartbeat_interval c (some element) ≡ ok (2 ^ 64 - 1 - n)) × (2 ^ 63 ≤ 2 ^ 64 - 1 - n)
  unfolding heartbeat_interval
  negative_interval_accepted element n t v h = (ground arith, omega arith)

  -- Over HTTPS the type of "keyfile" is never looked at.
  pub keyfile_type_unchecked :
      (credentials certificate keyfile : Element)
      → find credentials "certificate" ≡ some certificate
      → get_type certificate ≡ string_element
      → find credentials "keyfile" ≡ some keyfile
      → check_tls c https credentials ≡ ok tt
  unfolding check_tls
  keyfile_type_unchecked credentials certificate keyfile hc t hk = simp (hc, hk, t)

  -- What was accepted has a valid URL and an interval that fits `size_t` and is not zero; the files of
  -- the TLS credentials are never kept.
  pub record IsUsable (p : ConnectionParams c) : Type 0 where
    pub valid_url : is_valid p.url ≡ true
    pub positive : 0 < p.heartbeat_interval_secs
    pub fits : p.heartbeat_interval_secs < 2 ^ 64
    pub no_cert : p.cert_file ≡ none
    pub no_key : p.key_file ≡ none

  heartbeat_interval-bounds :
      (e : Option Element) (n : ℕ) → heartbeat_interval c e ≡ ok n → (0 < n) × (n < 2 ^ 64)
  unfolding heartbeat_interval
  heartbeat_interval-bounds none n h = cc
  heartbeat_interval-bounds (some e) n h = ground arith

  -- A configuration that is accepted satisfies `IsUsable`.
  pub parse_config-IsUsable :
      (e : Option Element) (p : ConnectionParams c) → parse_config c e ≡ ok p → IsUsable p
  unfolding parse_config
  parse_config-IsUsable none p h = cc
  parse_config-IsUsable (some params) p h =
      ground (arith, heartbeat_interval-bounds (find params "heartbeat-interval"))
