-- ===== src/Security.antt =====
-- src/llm_home_lab/security: key_store.py, models.py and rotate_keys.py. The clients with their keys,
-- and the rotation of a client's key; the new key is an argument, times are numbers.
pub mod Entitlement
mod Rotation
mod Examples
use llm_home_lab.Base.{
  ℕ, ◌+◌, ◌<◌, ◌≤◌, String, ◌≡◌, ◌≢◌, Bool, true, false, not, ◌&&◌, Option, none, some, List, [],
  ◌∷◌, ◌++◌, map, leb, any, if◌then◌else◌, ◌==◌, string_eq,
}
use Prim.Native.String.{String as Text}
use Prim.Native.Char.{code}
use llm_home_lab.Base.{nat_eq}
use llm_home_lab.Base.Text.{starts_with}

pub record ApiKey : Type 0 where
  pub key : String
  pub expires_at : Option ℕ

pub record ClientConfig : Type 0 where
  pub client_id : String
  pub allowed_path_prefixes : List String
  pub keys : List ApiKey

pub record ClientIdentity : Type 0 where
  pub client_id : String
  pub allowed_path_prefixes : List String

abbrev pub ApiKeyStore : Type 0
ApiKeyStore = List ClientConfig

abbrev pub expired : ℕ → Option ℕ → Bool
expired at none = false
expired at (some end) = leb end at

-- The key of the inner loop at which it returns.
abbrev pub opens : String → ℕ → ApiKey → Bool
opens bearer_token at k = k.key == bearer_token && not (expired at k.expires_at)

unfoldable pub authenticate : String → ℕ → ApiKeyStore → Option ClientIdentity
authenticate bearer_token at [] = none
authenticate bearer_token at (client ∷ clients) =
    let later = authenticate bearer_token at clients in
    if any (opens bearer_token at) client.keys
    then some (record {
      client_id = client.client_id;
      allowed_path_prefixes = client.allowed_path_prefixes;
    })
    else later

unfoldable pub is_authorized : ClientIdentity → String → Bool
is_authorized identity path = any (λ prefix. starts_with prefix path) identity.allowed_path_prefixes

-- A key without an end gets one.
abbrev pub expiring : ℕ → ApiKey → ApiKey
expiring end k = elim (k.expires_at) [ none ↦ record k { expires_at = some end } | some e ↦ k ]

abbrev pub rotated : String → ℕ → ClientConfig → ClientConfig
rotated new_key end client = record client {
  keys = map (expiring end) client.keys ++ record { key = new_key; expires_at = none } ∷ [];
}

unfoldable pub update_clients : String → String → ℕ → List ClientConfig → List ClientConfig
update_clients client_id new_key end [] = []
update_clients client_id new_key end (client ∷ clients) =
    (if client.client_id == client_id then rotated new_key end client else client)
    ∷ update_clients client_id new_key end clients

-- `none` is `ClientNotFoundError`.
unfoldable pub rotate_client_key :
    List ClientConfig → String → String → ℕ → ℕ → Option (List ClientConfig)
rotate_client_key clients client_id new_key now grace_period =
    if any (λ (client : ClientConfig). client.client_id == client_id) clients
    then some (update_clients client_id new_key (now + grace_period) clients)
    else none
