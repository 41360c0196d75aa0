-- ===== src/Post.antt =====
-- src/post_request_jsonrpc.cpp and include/post_request_jsonrpc.hpp: HTTP messages of Kea whose body is
-- a JSON-RPC document. Kea's messages, elements and status codes are parameters.
pub mod Request
pub mod Response
pub mod Bodies
pub mod Elements
use nxos_dhcp6_exporter.Prelude.{
  ℕ, String, ◌≡◌, ◌≢◌, Bool, true, false, Option, none, some, List, [], ◌∷◌, ◌++◌,
}
use nxos_dhcp6_exporter.Outcome.{Outcome, ok, raised, fault, Exn, ◌>>=◌}

-- What the classes read and write of the members of HttpRequest and HttpResponse.
pub record Parts : Type 0 where
  pub created : Bool
  pub finalized : Bool
  pub body : String  -- context_->body_
  pub headers : List (String × String)  -- context_->headers_
  pub required : List (String × String)  -- requireHeaderValue
  pub remote : String

-- isc::data::Element, HttpStatusCode, and the methods of the base classes
pub record HttpApi : Type 1 where
  pub Element : Type 0
  pub str : Element → String
  pub from_json : String → Outcome Element
  pub is_map : Element → Bool
  pub set : Element → String → Element → Element
  pub map_value : Element → Outcome (String → Option Element)
  pub map_of : List (String × Element) → Element  -- createMap() and setValue
  pub text_element : String → Element
  pub int_element : ℕ → Element
  pub StatusCode : Type 0
  pub is_client_error : StatusCode → Bool
  pub is_server_error : StatusCode → Bool
  pub status_number : StatusCode → ℕ
  pub status_text : StatusCode → String
  pub create : Parts → Parts × Outcome (Unit {0})
  pub base_reset : Parts → Parts
  pub check_finalized : (finalized : Bool) → Outcome (Unit {0})

-- What Kea documents of them: a reset message is neither created nor finalized, and only a finalized one
-- may be asked for its values.
pub record HttpLaws (api : HttpApi) : Type 0 where
  pub reset_created : (p : Parts) → (api.base_reset p).created ≡ false
  pub reset_finalized : (p : Parts) → (api.base_reset p).finalized ≡ false
  pub finalized_passes : api.check_finalized true ≡ ok tt
  pub unfinalized_throws : (e : Exn) × (api.check_finalized false ≡ raised e)

-- A message: the members of the base class and the parsed body, null or an element.
pub record Message (api : HttpApi) : Type 0 where
  pub parts : Parts
  pub json : Option api.Element

-- The name and the value of the header.
abbrev pub content_type : String × String
content_type = ("Content-Type", "application/json-rpc")

-- A try block whose handler throws another exception.
abbrev pub rethrow_as {ℓ} : {A : Type ℓ} → Exn → Outcome A → Outcome A
rethrow_as x (ok a) = ok a
rethrow_as x (raised e) = raised x
rethrow_as x (fault u) = fault u

module _ (api : HttpApi) where
  open api use {Element, map_value, create, check_finalized}

  -- finalized_ = true, unless an exception has left the method
  abbrev pub finish : Message api × Outcome (Unit {0}) → Message api × Outcome (Unit {0})
  finish (m, ok _) = (record m { parts = record m.parts { finalized = true } }, ok tt)
  finish (m, raised e) = (m, raised e)
  finish (m, fault u) = (m, fault u)

  -- The rest of a method after create().
  abbrev pub after_create :
      Message api
      → (Message api → Message api × Outcome (Unit {0}))
      → Parts × Outcome (Unit {0})
      → Message api × Outcome (Unit {0})
  after_create m rest (p, ok _) = rest (record m { parts = p })
  after_create m rest (p, raised e) = (record m { parts = p }, raised e)
  after_create m rest (p, fault u) = (record m { parts = p }, fault u)

  -- The search in the map of a body that may be null.
  abbrev pub find_in : String → Option Element → Outcome (Option Element)
  find_in name none = ok none
  find_in name (some body) = do members ← map_value body; ok (members name)
