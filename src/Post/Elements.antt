-- ===== src/Post/Elements.antt =====
-- The members of a body: getJsonElement, and the bodies of responses with an error status.
use nxos_dhcp6_exporter.Prelude.{
  String, ◌≡◌, ◌↔◌, refl, inl, inr, true, false, Option, none, some, [], ◌∷◌, ◌||◌, Bool-cases,
}
use nxos_dhcp6_exporter.Outcome.{
  Outcome, ok, raised, fault, Exn, http_request_json_rpc_error, ◌>>=◌, ◌>>◌,
}
use nxos_dhcp6_exporter.Post.{Parts, HttpApi, HttpLaws, Message, rethrow_as, find_in}
use nxos_dhcp6_exporter.Post.Request
use nxos_dhcp6_exporter.Post.Response

module _ (api : HttpApi) (laws : HttpLaws api) where
  open api use {
    Element, StatusCode, is_client_error, is_server_error, status_number, status_text, int_element,
    text_element, map_of, map_value, check_finalized,
  }

  -- The message is finalized, and its body is a map that has this element under the name.
  pub record HasElement (name : String) (m : Message api) (v : Element) : Type 0 where
    pub finalized : m.parts.finalized ≡ true
    pub body : Element
    pub has_body : m.json ≡ some body
    pub members : String → Option Element
    pub is_map : map_value body ≡ ok members
    pub found : members name ≡ some v

  -- What both methods do, with the exception of each.
  abbrev search : Exn → String → Message api → Outcome (Option Element)
  search x name m =
      rethrow_as x
        (do body ← (do check_finalized m.parts.finalized; ok m.json); find_in api name body)

  in_members :
      (name : String) (m : Message api) (v body : Element) (x : Exn)
      (o : Outcome (String → Option Element))
      → m.parts.finalized ≡ true
      → m.json ≡ some body
      → map_value body ≡ o
      → rethrow_as x (do members ← o; ok (members name)) ≡ ok (some v)
      → HasElement name m v
  in_members name m v body x (ok members) f j e h = record {
    finalized = f;
    body = body;
    has_body = j;
    members = members;
    is_map = e;
    found = cc h;
  }
  in_members name m v body x (raised y) f j e h = cc h
  in_members name m v body x (fault u) f j e h = cc h

  in_body :
      (name : String) (m : Message api) (v : Element) (x : Exn) (o : Option Element)
      → m.parts.finalized ≡ true
      → m.json ≡ o
      → rethrow_as x (find_in api name o) ≡ ok (some v)
      → HasElement name m v
  in_body name m v x none f j h = cc h
  in_body name m v x (some body) f j h = in_members name m v body x (map_value body) f j refl h

  search-HasElement :
      (x : Exn) (name : String) (m : Message api) (v : Element)
      → search x name m ≡ ok (some v)
      → HasElement name m v
  search-HasElement x name m v h =
      let (e, throws) = laws.unfinalized_throws in
      elim (Bool-cases m.parts.finalized) [
        | inl f ↦ in_body name m v x m.json f refl (rw (f, laws.finalized_passes) at h)
        | inr f ↦ let bad : raised x ≡ ok (some v) = rw (f, throws) at h in cc bad
      ]

  found_search :
      (x : Exn) (name : String) (m : Message api) (v : Element)
      → HasElement name m v
      → search x name m ≡ ok (some v)
  found_search x name m v h =
      rw (h.has_body, h.finalized, laws.finalized_passes, h.is_map, h.found) refl

  rethrown {ℓ} : {A : Type ℓ} (x e : Exn) (o : Outcome A) → rethrow_as x o ≡ raised e → e ≡ x
  rethrown x e (ok a) h = cc h
  rethrown x e (raised y) h = cc h
  rethrown x e (fault u) h = cc h

  -- getJsonElement of a request gives an element exactly where the request is finalized and its body is a
  -- map that has this element under the name. The only exception that leaves the method is
  -- HttpRequestJsonRpcError, also where the request is not finalized, for which it does leave.
  pub request_element_iff :
      (name : String) (m : Message api) (v : Element)
      → ((Request.get_json_element api name m ≡ ok (some v)) ↔ HasElement name m v)
        × ((e : Exn)
            → Request.get_json_element api name m ≡ raised e
            → e ≡ http_request_json_rpc_error)
        × (m.parts.finalized ≡ false
            → Request.get_json_element api name m ≡ raised http_request_json_rpc_error)
  unfolding Request.get_json_element Request.get_body_as_json
  request_element_iff name m v = (
    (
      search-HasElement http_request_json_rpc_error name m v,
      found_search http_request_json_rpc_error name m v,
    ),
    (λ e h. rethrown http_request_json_rpc_error e _ h),
    (λ f. rw (f, laws.unfinalized_throws.1) refl),
  )

  -- A response made with a status and its generic body, for an error of the client or of the server, is
  -- finalized where it is created, and then gives the number of the status under "result" and its text
  -- under "text". The conditions are that a map gives the members it was made of.
  pub generic_body_read :
      (base : Parts) (code : StatusCode) (members : String → Option Element)
      → base.created ≡ true
      → is_client_error code || is_server_error code ≡ true
      → map_value (
          map_of (
            ("result", int_element (status_number code))
            ∷ ("text", text_element (status_text code))
            ∷ []))
        ≡ ok members
      → members "result" ≡ some (int_element (status_number code))
      → members "text" ≡ some (text_element (status_text code))
      → let m = (Response.finalize api (Response.new_with_status api base code true)).0 in
        (Response.get_json_element api "result" m ≡ ok (some (int_element (status_number code))))
        × (Response.get_json_element api "text" m ≡ ok (some (text_element (status_text code))))
  unfolding Response.finalize Response.parse_body_as_json Response.new_with_status
      Response.set_generic_body Response.get_json_element Response.get_body_as_json
      Response.set_body_as_json Response.new_received
  generic_body_read base code members created error members_of result text =
      rw (error, created, laws.finalized_passes, members_of, result, text) (refl, refl)
