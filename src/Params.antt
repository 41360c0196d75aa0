-- ===== src/Params.antt =====
-- src/nxos_connection_params.cpp: the parameters of the connection, read from Kea's configuration.
-- Kea's elements and URLs are parameters.
pub mod Checks
use nxos_dhcp6_exporter.Prelude.{
  ℕ, String, ◌≡◌, Bool, true, false, Option, none, some, ◌==◌, if◌then◌else◌,
}
use nxos_dhcp6_exporter.Prelude.Int.{ℤ, to_size_t}
use nxos_dhcp6_exporter.Outcome.{
  Outcome, ok, raised, fault, config_error, null_pointer, ◌>>=◌, ◌>>◌,
}

-- isc::data::Element::types, as far as the program names them
pub data ElementType : Type 0 where
  integer string_element map_element other_element : ElementType

-- isc::http::Url::Scheme
pub data Scheme : Type 0 where
  http https : Scheme

-- isc::data::Element and isc::http::Url
pub record ConfigApi : Type 1 where
  pub Element : Type 0
  pub get_type : Element → ElementType
  pub string_value : Element → Outcome String  -- stringValue()
  pub int_value : Element → Outcome ℤ  -- intValue()
  pub find : Element → String → Option Element  -- find(key) of a map; none is the null pointer
  pub Url : Type 0
  pub parse_url : String → Url  -- Url(text)
  pub is_valid : Url → Bool
  pub scheme : Url → Scheme

abbrev pub is_string_type : ElementType → Bool
is_string_type string_element = true
is_string_type _ = false

abbrev pub is_integer_type : ElementType → Bool
is_integer_type integer = true
is_integer_type _ = false

abbrev pub is_map_type : ElementType → Bool
is_map_type map_element = true
is_map_type _ = false

abbrev pub is_https : Scheme → Bool
is_https http = false
is_https https = true

-- `if (!test) isc_throw(ConfigError, ...)`
abbrev pub require : Bool → String → Outcome (Unit {0})
require true message = ok tt
require false message = raised (config_error message)

-- `if (!element) isc_throw(ConfigError, ...)`, else the element
abbrev pub require_some {ℓ} : {A : Type ℓ} → Option A → String → Outcome A
require_some none message = raised (config_error message)
require_some (some a) message = ok a

module _ (c : ConfigApi) where
  open c use {Element, get_type, string_value, int_value, find, Url, parse_url, is_valid, scheme}

  -- NXOSConnectionConfigParams, with the login and the password of BasicHttpAuth
  pub record ConnectionParams : Type 0 where
    pub url : Url
    pub login : String
    pub password : String
    pub cert_file : Option String
    pub key_file : Option String
    pub heartbeat_interval_secs : ℕ

  -- A field that must be there and be a string.
  unfoldable pub text_field : Element → String → Outcome String
  text_field map key = do
    element ← require_some (find map key) "must not be null"
    require (is_string_type (get_type element)) "must be a string"
    string_value element

  -- Lines 37 to 50: the test of the type is skipped for an absent element, and then it is read.
  unfoldable pub heartbeat_interval : Option Element → Outcome ℕ
  heartbeat_interval none = fault null_pointer
  heartbeat_interval (some element) = do
    require (is_integer_type (get_type element)) "must be a integer"
    n ← int_value element
    let interval = to_size_t n
    if interval == 0
        then raised (config_error "must be a non-zero non-negative integer")
        else ok interval

  -- Lines 89 to 113: the type of "keyfile" is tested on the element of "certificate".
  unfoldable pub check_tls : Scheme → Element → Outcome (Unit {0})
  check_tls http credentials = ok tt
  check_tls https credentials = do
    certificate ← require_some (find credentials "certificate") "must not be null"
    require (is_string_type (get_type certificate)) "must be a string"
    keyfile ← require_some (find credentials "keyfile") "must not be null"
    require (is_string_type (get_type certificate)) "must be a string"

  -- NXOSConnectionConfigParams::parseConfig
  unfoldable pub parse_config : Option Element → Outcome ConnectionParams
  unfolding text_field heartbeat_interval check_tls
  parse_config mgmt_conn_params = do
    params ← require_some mgmt_conn_params "NXOS DHCP6 Exporter configuration must not be null"
    host ← text_field params "host"
    let url = parse_url host
    require (is_valid url) "must be a valid URL"
    interval ← heartbeat_interval (find params "heartbeat-interval")
    credentials ← require_some (find params "credentials") "must not be null"
    require (is_map_type (get_type credentials)) "must be a map"
    login ← text_field credentials "login"
    password ← text_field credentials "password"
    check_tls (scheme url) credentials
    ok (record {
      url = url;
      login = login;
      password = password;
      cert_file = none;
      key_file = none;
      heartbeat_interval_secs = interval;
    })
