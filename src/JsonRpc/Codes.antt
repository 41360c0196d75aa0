-- ===== src/JsonRpc/Codes.antt =====
-- The classes of error codes (include/jsonrpc/utils.hpp).
use nxos_dhcp6_exporter.Prelude.{◌≤◌, ◌≡◌, ◌↔◌, ◌⊎◌, inl, some, arith}
use nxos_dhcp6_exporter.Prelude.Int.{ℤ, pos, negsuc}
use nxos_dhcp6_exporter.JsonRpc.{
  server_error, invalid, error_code, cast_error_type, error_type_string, exception_type,
}

-- From -32099 to -32000, the codes that JSON-RPC leaves to servers.
abbrev pub IsServerCode : ℤ → Type 0
IsServerCode (pos n) = ⊥
IsServerCode (negsuc n) = (31999 ≤ n) × (n ≤ 32098)

-- The five codes that JSON-RPC names.
abbrev pub IsNamedCode : ℤ → Type 0
IsNamedCode (pos n) = ⊥
IsNamedCode (negsuc n) = (n ≡ 32699) ⊎ ((32599 ≤ n) × (n ≤ 32602))

-- `type` gives "server error" exactly for the server's codes, "invalid" exactly for the codes that are
-- neither those nor named, and the named type of a named code.
pub exception_type_classes :
    (code : ℤ)
    → ((exception_type code ≡ some server_error) ↔ IsServerCode code)
      × ((exception_type code ≡ some invalid) ↔ (¬ IsServerCode code × ¬ IsNamedCode code))
      × ((¬ IsNamedCode code) ⊎ (exception_type code ≡ cast_error_type code))
unfolding exception_type cast_error_type error_code
exception_type_classes (pos n) =
    ((ground arith, ground arith), (ground arith, ground arith), inl (λ h. h))
exception_type_classes (negsuc n) =
    ((ground arith, ground arith), (ground arith, ground arith), ground arith)

-- For a server's code the text of the exception says "invalid_error", while `type` and the text of the
-- type that it gives say "server_error".
pub server_code_text :
    (code : ℤ)
    → IsServerCode code
    → (error_type_string (cast_error_type code) ≡ "invalid_error")
      × (error_type_string (exception_type code) ≡ "server_error")
unfolding exception_type cast_error_type error_code error_type_string
server_code_text (pos n) h = absurd h
server_code_text (negsuc n) h = (ground arith, ground arith)
