-- ===== src/Outcome.antt =====
-- What a call of the program does: it returns, it throws, or its behaviour is undefined.
use nxos_dhcp6_exporter.Prelude.{String, ◌≡◌, ◌≢◌, refl, ◌⊎◌, inl, inr, List, [], ◌∷◌, map}
use nxos_dhcp6_exporter.Prelude.Int.{ℤ}

-- The exceptions that the program throws or lets through. All derive from `std::exception`.
pub data Exn : Type 0 where
  bad_value : String → Exn  -- isc::BadValue
  unexpected : String → Exn  -- isc::Unexpected
  not_implemented : String → Exn  -- isc::NotImplemented
  invalid_parameter : String → Exn  -- isc::InvalidParameter
  config_error : String → Exn  -- isc::ConfigError
  type_error : Exn  -- isc::data::TypeError
  no_such_argument : Exn  -- isc::hooks::NoSuchArgument
  json_parse_error : Exn  -- nlohmann::json::parse_error
  json_type_error : Exn  -- nlohmann::json::type_error
  json_out_of_range : Exn  -- nlohmann::json::out_of_range
  json_rpc : (code : ℤ) → (message : String) → Exn  -- JsonRpcException
  http_request_json_rpc_error : Exn  -- HttpRequestJsonRpcError
  http_response_json_rpc_error : Exn  -- HttpResponseJsonRpcError

-- Undefined behaviour of C++ that the program can reach.
pub data Fault : Type 0 where
  null_pointer : Fault  -- a null shared_ptr is dereferenced
  empty_optional : Fault  -- an empty std::optional is dereferenced
  out_of_bounds : Fault  -- an element past the end of a vector
  missing_key : Fault  -- operator[] of a const object with no such key
  no_return : Fault  -- flowing off the end of a function with a result

pub data Outcome {ℓ} (A : Type ℓ) : Type ℓ where
  ok : A → Outcome A
  raised : Exn → Outcome A
  fault : Fault → Outcome A

infixl 5 ◌>>=◌
infixl 5 ◌>>◌
abbrev pub ◌>>=◌ {ℓ κ} : {X : Type ℓ} {Y : Type κ} → Outcome X → (X → Outcome Y) → Outcome Y
ok a >>= f = f a
raised e >>= f = raised e
fault u >>= f = fault u

abbrev pub ◌>>◌ {ℓ} : {B : Type ℓ} → Outcome (Unit {0}) → Outcome B → Outcome B
m >> k = m >>= λ _. k

-- A loop that collects the result of each round.
unfoldable pub traverse {ℓ κ} :
    {A : Type ℓ} {B : Type κ} → (A → Outcome B) → List A → Outcome (List B)
traverse f [] = ok []
traverse f (x ∷ xs) = do y ← f x; ys ← traverse f xs; ok (y ∷ ys)

-- A loop whose body succeeds on what `g` gives succeeds on all of it.
pub traverse-map {ℓ κ} :
    {A : Type ℓ} {B : Type κ} (f : B → Outcome A) (g : A → B)
    → ((a : A) → f (g a) ≡ ok a)
    → (xs : List A) → traverse f (map g xs) ≡ ok xs
unfolding traverse
traverse-map f g h [] = refl
traverse-map f g h (x ∷ xs) = rw (h x, traverse-map f g h xs)

-- Where the whole returns, so does its first part, and the rest does on what that gives.
pub >>=-ok {ℓ κ} :
    {X : Type ℓ} {Y : Type κ} (first : Outcome X) (next : X → Outcome Y) {y : Y}
    → (first >>= next) ≡ ok y
    → (x : X) × (next x ≡ ok y) × (first ≡ ok x)
>>=-ok (ok x) next returned = (x, returned, refl)
>>=-ok (raised e) next returned = cc
>>=-ok (fault u) next returned = cc

-- The behaviour is defined.
abbrev pub NoFault {ℓ} : {A : Type ℓ} → Outcome A → Type ℓ
NoFault r = (u : Fault) → r ≢ fault u

pub NoFault-bind {ℓ} :
    {A B : Type ℓ} (r : Outcome A) (f : A → Outcome B)
    → NoFault r
    → ((a : A) → NoFault (f a))
    → NoFault (r >>= f)
NoFault-bind (ok a) f hr hf u e = hf a u e
NoFault-bind (raised x) f hr hf u e = cc
NoFault-bind (fault v) f hr hf u e = absurd (hr v refl)

pub NoFault-cases {ℓ} :
    {A : Type ℓ} (r : Outcome A) → NoFault r → ((a : A) × (r ≡ ok a)) ⊎ ((e : Exn) × (r ≡ raised e))
NoFault-cases (ok a) h = inl (a, refl)
NoFault-cases (raised e) h = inr (e, refl)
NoFault-cases (fault u) h = absurd (h u refl)
