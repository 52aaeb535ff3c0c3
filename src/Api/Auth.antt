-- ===== src/Api/Auth.antt =====
-- The middleware `enforce_auth` of src/llm_home_lab/api/app.py, over the key store of Security. An HTTP
-- header that is missing is the empty text, as in the source.
pub mod Passing
use llm_home_lab.Base.{
  ℕ, String, ◌≡◌, ◌↔◌, ◌⊎◌, inl, inr, refl, sym, ap, subst, Bool, true, false, not, Option, none,
  some, List, [], ◌∷◌, arith, if◌then◌else◌, ◌==◌, string_eq, contains, Bool-cases,
}
use llm_home_lab.Base.Text.{starts_with, drop_prefix}
use llm_home_lab.Security.{ApiKeyStore, ClientIdentity, authenticate, is_authorized}
use llm_home_lab.Api.Errors.{ErrorResponse, error_response}

abbrev pub auth_exempt_paths : List String
auth_exempt_paths = "/health/live" ∷ "/health/ready" ∷ "/metrics" ∷ []

pub data Auth : Type 0 where
  passed_on : Option ClientIdentity → Auth
  blocked : ErrorResponse → Auth

unfoldable pub bearer_token : String → Option String
bearer_token auth_header =
    if starts_with "Bearer " auth_header then some (drop_prefix "Bearer " auth_header) else none

-- `key_store.authenticate(token, at) if token else None`
unfoldable pub identity_of : Option String → ℕ → ApiKeyStore → Option ClientIdentity
identity_of none at store = none
identity_of (some token) at store = if token == "" then none else authenticate token at store

abbrev pub reason_of : Option String → String
reason_of none = "missing_token"
reason_of (some token) = "invalid_token"

unfoldable pub authorize : Option ClientIdentity → Option String → String → Auth
authorize none token path = blocked (error_response 401 "invalid_request_error" (reason_of token))
authorize (some identity) token path =
    if is_authorized identity path
    then passed_on (some identity)
    else blocked (error_response 403 "invalid_request_error" "path_not_allowed")

unfoldable pub enforce_auth : Bool → ApiKeyStore → String → String → ℕ → Auth
enforce_auth auth_enabled store path auth_header at =
    if not auth_enabled
    then passed_on none
    else if contains auth_exempt_paths path
    then passed_on none
    else let token = bearer_token auth_header in authorize (identity_of token at store) token path

-- A request whose header has a token that is a client's key, with a path that the client may use.
abbrev pub Admitted : ApiKeyStore → String → String → ℕ → ClientIdentity → Type 0
Admitted store path auth_header at identity =
    (token : String) × (bearer_token auth_header ≡ some token)
    × (token == "" ≡ false)
    × (authenticate token at store ≡ some identity)
    × (is_authorized identity path ≡ true)

identity_of-some :
    (t : Option String) (at : ℕ) (store : ApiKeyStore) (identity : ClientIdentity)
    → identity_of t at store ≡ some identity
    → (token : String) × (t ≡ some token)
      × (token == "" ≡ false)
      × (authenticate token at store ≡ some identity)
unfolding identity_of
identity_of-some none at store identity e = absurd (cc)
identity_of-some (some token) at store identity e = elim (Bool-cases (token == "")) [
  | inl blank ↦ absurd (ground arith)
  | inr named ↦ (token, refl, named, rw (identity_of, named) at e)
]

identity_of-named :
    (token : String) (at : ℕ) (store : ApiKeyStore) (identity : ClientIdentity)
    → token == "" ≡ false
    → authenticate token at store ≡ some identity
    → identity_of (some token) at store ≡ some identity
unfolding identity_of
identity_of-named token at store identity named known = rw (identity_of, named) known

authorize-total :
    (o : Option ClientIdentity) (t : Option String) (path : String)
    → ((identity : ClientIdentity) × (authorize o t path ≡ passed_on (some identity)))
      ⊎ ((r : ErrorResponse) × (authorize o t path ≡ blocked r)
          × ((r.status_code ≡ 401) ⊎ (r.status_code ≡ 403)))
unfolding authorize
authorize-total none t path = inr (_, refl, inl refl)
authorize-total (some i) t path = elim (Bool-cases (is_authorized i path)) [
  | inl may ↦ inl (i, rw (authorize, may) refl)
  | inr may_not ↦ inr (
    error_response 403 "invalid_request_error" "path_not_allowed",
    rw (authorize, may_not) refl,
    inr refl,
  )
]

authorize-passed :
    (o : Option ClientIdentity) (t : Option String) (path : String) (identity : ClientIdentity)
    → (authorize o t path ≡ passed_on (some identity))
      ↔ ((o ≡ some identity) × (is_authorized identity path ≡ true))
unfolding authorize
authorize-passed none t path identity = (λ e. cc, λ e. cc)
authorize-passed (some i) t path identity = elim (Bool-cases (is_authorized i path)) [
  | inl may ↦
      rw (authorize, may)
        (
          (λ e.
              let same : i ≡ identity = cc in
              (ap some same, subst (λ x. is_authorized x path ≡ true) same may)),
          λ h. ap passed_on h.0,
        )
  | inr may_not ↦
      rw (authorize, may_not)
        (
          (λ e. cc),
          λ h.
              let same : i ≡ identity = cc in
              let may = subst (λ x. is_authorized x path ≡ false) same may_not in absurd (cc),
        )
]

-- The requests that pass as a client, by the branches of the code, and what the others get.
pub enforce_auth-admits :
    (store : ApiKeyStore) (path auth_header : String) (at : ℕ)
    → contains auth_exempt_paths path ≡ false
    → ((identity : ClientIdentity)
        → (enforce_auth true store path auth_header at ≡ passed_on (some identity))
          ↔ Admitted store path auth_header at identity)
      × (((identity : ClientIdentity) × (enforce_auth true store path auth_header at
              ≡ passed_on (some identity)))
          ⊎ ((r : ErrorResponse) × (enforce_auth true store path auth_header at ≡ blocked r)
              × ((r.status_code ≡ 401) ⊎ (r.status_code ≡ 403))))
unfolding enforce_auth
enforce_auth-admits store path auth_header at e =
    let token = bearer_token auth_header in
    rw (enforce_auth, e)
      (
        (λ identity. (
          (λ p.
              let (found, may) =
                (authorize-passed (identity_of token at store) token path identity).0 p in
              let (t, given, named, known) = identity_of-some token at store identity found in
              (t, given, named, known, may)),
          λ (t, given, named, known, may).
              (authorize-passed (identity_of token at store) token path identity).1 (
                subst (λ o. identity_of o at store ≡ some identity) (sym given)
                    (identity_of-named t at store identity named known),
                may,
              ),
        )),
        authorize-total (identity_of token at store) token path,
      )
