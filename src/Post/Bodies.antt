-- ===== src/Post/Bodies.antt =====
-- Bodies that are set in a message and cleared again.
use nxos_dhcp6_exporter.Prelude.{◌≡◌, refl, true, none, some}
use nxos_dhcp6_exporter.Outcome.{ok}
use nxos_dhcp6_exporter.Post.{HttpApi, HttpLaws, Message}
use nxos_dhcp6_exporter.Post.Request
use nxos_dhcp6_exporter.Post.Response

module _ (api : HttpApi) (laws : HttpLaws api) where
  open api use {
    Element, str, create, StatusCode, is_client_error, is_server_error, status_number, status_text,
    int_element, text_element, map_of,
  }

  -- A body that is set and then cleared, in a message that has been created: the text is empty in both
  -- classes, and finalizing passes; then the response has no body, while the request still gives the
  -- element that was cleared.
  pub cleared_body_kept :
      (m : Message api) (e : Element)
      → m.parts.created ≡ true
      → let request = Request.set_body_as_json api none (Request.set_body_as_json api (some e) m) in
        let response =
          Response.set_body_as_json api none (Response.set_body_as_json api (some e) m) in
        (request.parts.body ≡ "")
        × (response.parts.body ≡ "")
        × (Request.get_body_as_json api (Request.finalize api request).0 ≡ ok (some e))
        × (Response.get_body_as_json api (Response.finalize api response).0 ≡ ok none)
  unfolding Request.finalize Request.get_body_as_json Request.set_body_as_json
      Request.parse_body_as_json Response.finalize Response.get_body_as_json
      Response.set_body_as_json Response.parse_body_as_json
  cleared_body_kept m e created = rw (created, laws.finalized_passes) (refl, refl, refl, refl)
