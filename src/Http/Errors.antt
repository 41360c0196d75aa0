-- ===== src/Http/Errors.antt =====
-- httplib::Error, as far as src/nxos_http_client.cpp names its enumerators.
pub data HttplibError : Type 0 where
  success connection bind_ip_address read write exceed_redirect_count canceled : HttplibError
  ssl_connection ssl_loading_certs ssl_server_verification : HttplibError
  unsupported_multipart_boundary_chars compression connection_timeout : HttplibError
  proxy_connection other : HttplibError
