-- ===== src/Security/Examples.antt =====
-- The rotation of a key for one of two clients.
use llm_home_lab.Base.{
  ◌+◌, ◌<◌, String, ◌≡◌, ◌≢◌, ◌⊎◌, refl, false, none, some, List, [], ◌∷◌, any, All, ◌==◌,
  string_eq,
}
use llm_home_lab.Security.{ClientConfig, ClientIdentity, authenticate, rotate_client_key}
use llm_home_lab.Security.Rotation.{Lacks, rotate_client_key-graceful}

abbrev clients : List ClientConfig
clients =
    record {
      client_id = "tui";
      allowed_path_prefixes = "/v1" ∷ [];
      keys = record { key = "k1"; expires_at = none } ∷ [];
    }
    ∷ record {
      client_id = "ide";
      allowed_path_prefixes = "/v1" ∷ [];
      keys = record { key = "k2"; expires_at = some 5 } ∷ [];
    }
    ∷ []

clients-Lacks : All (Lacks "k3") clients
unfolding any
clients-Lacks = (λ at. refl, (λ at. refl, tt))

rotate_client_key-graceful_example :
    ((rotate_client_key clients "tui" "k3" 10 20 ≡ none)
      × (any (λ (c : ClientConfig). c.client_id == "tui") clients ≡ false))
    ⊎ ((updated : List ClientConfig) × (rotate_client_key clients "tui" "k3" 10 20 ≡ some updated)
        × ((token : String)
            → "k3" ≢ token
            → 15 < 10 + 20
            → authenticate token 15 updated ≡ authenticate token 15 clients)
        × ((i : ClientIdentity) × (authenticate "k3" 15 updated ≡ some i) × (i.client_id ≡ "tui")))
rotate_client_key-graceful_example =
    rotate_client_key-graceful clients "tui" "k3" 10 20 15 clients-Lacks
