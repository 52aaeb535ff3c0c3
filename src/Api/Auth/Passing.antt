-- ===== src/Api/Auth/Passing.antt =====
-- Which requests the middleware `enforce_auth` of src/llm_home_lab/api/app.py lets pass, and as which
-- client.
use llm_home_lab.Base.{
  ℕ, String, ◌≡◌, ◌↔◌, ◌⊎◌, inl, inr, refl, ap, ◌∙◌, true, false, none, some, ◌==◌, string_eq,
  contains, Bool-cases,
}
use llm_home_lab.Base.Text.{
  append_text, starts_with, drop_prefix, starts_with-split, starts_with-append, drop_prefix-append,
}
use llm_home_lab.Security.{ApiKeyStore, ClientConfig, ClientIdentity}
use llm_home_lab.Security.Entitlement.{
  First, of_client, MayUse, authenticate_iff, is_authorized_iff,
}
use llm_home_lab.Api.Errors.{ErrorResponse}
use llm_home_lab.Api.Auth.{
  auth_exempt_paths, bearer_token, passed_on, blocked, enforce_auth, enforce_auth-admits,
}

-- The request carries a token, not empty, for which this is the first client in the store with it as a
-- key that has not expired, and the path starts with one of the client's prefixes.
abbrev pub Entitled : ApiKeyStore → String → String → ℕ → ClientIdentity → Type 0
Entitled store path auth_header at identity =
    (token : String) × (auth_header ≡ append_text "Bearer " token)
    × (token == "" ≡ false)
    × ((client : ClientConfig) × First token at store client × (identity ≡ of_client client))
    × MayUse identity path

bearer_token_iff :
    (auth_header token : String)
    → (bearer_token auth_header ≡ some token) ↔ (auth_header ≡ append_text "Bearer " token)
unfolding bearer_token
bearer_token_iff auth_header token = (
  (λ e. elim (Bool-cases (starts_with "Bearer " auth_header)) [
    | inl bears ↦
        let given : some (drop_prefix "Bearer " auth_header) ≡ some token = rw bears at e in
        let same : drop_prefix "Bearer " auth_header ≡ token = cc in
        starts_with-split "Bearer " auth_header bears ∙ ap (append_text "Bearer ") same
    | inr bare ↦ let gone : none ≡ some token = rw bare at e in absurd (cc)
  ]),
  (λ same. rw (same, starts_with-append "Bearer " token, drop_prefix-append "Bearer " token) refl),
)

-- With authentication on and a path that is not exempt, a request passes as a client exactly when its
-- header is `Bearer ` and a token, not empty, the client is the first in the key store that has the token
-- as a key that has not expired, and the path starts with one of the client's prefixes; a request that
-- does not pass as a client is answered with 401 or 403.
pub enforce_auth-passes :
    (store : ApiKeyStore) (path auth_header : String) (at : ℕ)
    → contains auth_exempt_paths path ≡ false
    → ((identity : ClientIdentity)
        → (enforce_auth true store path auth_header at ≡ passed_on (some identity))
          ↔ Entitled store path auth_header at identity)
      × (((identity : ClientIdentity) × (enforce_auth true store path auth_header at
              ≡ passed_on (some identity)))
          ⊎ ((r : ErrorResponse) × (enforce_auth true store path auth_header at ≡ blocked r)
              × ((r.status_code ≡ 401) ⊎ (r.status_code ≡ 403))))
enforce_auth-passes store path auth_header at e =
    let (admits, ends) = enforce_auth-admits store path auth_header at e in
    (
      (λ identity. (
        (λ p.
            let (token, given, named, known, may) = (admits identity).0 p in
            (
              token,
              (bearer_token_iff auth_header token).0 given,
              named,
              (authenticate_iff token at store identity).0 known,
              (is_authorized_iff identity path).0 may,
            )),
        (λ (token, given, named, known, may). (admits identity).1 (
          token,
          (bearer_token_iff auth_header token).1 given,
          named,
          (authenticate_iff token at store identity).1 known,
          (is_authorized_iff identity path).1 may,
        )),
      )),
      ends,
    )
