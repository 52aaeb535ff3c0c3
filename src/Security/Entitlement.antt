-- ===== src/Security/Entitlement.antt =====
-- Which client a bearer token stands for, and which paths it may use, without the loops of
-- src/llm_home_lab/security/key_store.py.
use llm_home_lab.Base.{
  ℕ, ◌<◌, String, ◌≡◌, ◌↔◌, refl, ap, true, not, inl, inr, Option, none, some, List, [], ◌∷◌, ◌++◌,
  arith, string_eq, eq_iff, any, any_iff, All, In, Bool-cases,
}
use llm_home_lab.Base.Text.{
  append_text, starts_with, drop_prefix, starts_with-split, starts_with-append,
}
use llm_home_lab.Security.{
  ApiKey, ClientConfig, ClientIdentity, ApiKeyStore, opens, expired, authenticate, is_authorized,
}

abbrev pub Unexpired : ℕ → Option ℕ → Type 0
Unexpired at none = Unit
Unexpired at (some end) = at < end

-- The client has this token as a key that has not expired.
abbrev pub HasKey : String → ℕ → ClientConfig → Type 0
HasKey token at client =
    (k : ApiKey) × In k client.keys × (k.key ≡ token) × Unexpired at k.expires_at

abbrev pub of_client : ClientConfig → ClientIdentity
of_client client = record {
  client_id = client.client_id;
  allowed_path_prefixes = client.allowed_path_prefixes;
}

-- The client is the first in the store that has the token.
abbrev pub First : String → ℕ → ApiKeyStore → ClientConfig → Type 0
First token at store client =
    (before : List ClientConfig) × (after : List ClientConfig) × (store ≡ before ++ client ∷ after)
    × All (λ c. ¬ (HasKey token at c)) before
    × HasKey token at client

-- The path starts with one of the client's prefixes.
abbrev pub MayUse : ClientIdentity → String → Type 0
MayUse identity path =
    (prefix : String) × In prefix identity.allowed_path_prefixes
    × ((rest : String) × (path ≡ append_text prefix rest))

expired_iff : (at : ℕ) (end : Option ℕ) → (not (expired at end) ≡ true) ↔ Unexpired at end
expired_iff at none = (λ e. tt, λ u. refl)
expired_iff at (some end) = (λ e. ground arith, λ u. ground arith)

opens_iff :
    (token : String) (at : ℕ) (k : ApiKey)
    → (opens token at k ≡ true) ↔ ((k.key ≡ token) × Unexpired at k.expires_at)
opens_iff token at k = (
  (λ e. (
    (eq_iff k.key token).0 (ground (arith, e)),
    (expired_iff at k.expires_at).0 (ground (arith, e)),
  )),
  (λ (same, live). rw ((eq_iff k.key token).1 same, (expired_iff at k.expires_at).1 live) refl),
)

HasKey-iff :
    (token : String) (at : ℕ) (client : ClientConfig)
    → (any (opens token at) client.keys ≡ true) ↔ HasKey token at client
HasKey-iff token at client = (
  (λ e.
      let (k, i, h) = (any_iff (opens token at) client.keys).0 e in
      let (same, live) = (opens_iff token at k).0 h in (k, i, same, live)),
  (λ (k, i, same, live).
      (any_iff (opens token at) client.keys).1 (k, i, (opens_iff token at k).1 (same, live))),
)

authenticate-first :
    (token : String) (at : ℕ) (before after : List ClientConfig) (client : ClientConfig)
    → All (λ c. ¬ (HasKey token at c)) before
    → HasKey token at client
    → authenticate token at (before ++ client ∷ after) ≡ some (of_client client)
unfolding authenticate
authenticate-first token at [] after client lack has =
    rw (authenticate, (HasKey-iff token at client).1 has) refl
authenticate-first token at (c ∷ before) after client lack has =
    elim (Bool-cases (any (opens token at) c.keys)) [
      | inl own ↦ absurd (lack.0 ((HasKey-iff token at c).0 own))
      | inr other ↦
          rw (authenticate, other) (authenticate-first token at before after client lack.1 has)
    ]

authenticate-found :
    (token : String) (at : ℕ) (store : ApiKeyStore) (identity : ClientIdentity)
    → authenticate token at store ≡ some identity
    → (client : ClientConfig) × First token at store client × (identity ≡ of_client client)
unfolding authenticate
authenticate-found token at [] identity e = absurd (cc)
authenticate-found token at (c ∷ store) identity e =
    elim (Bool-cases (any (opens token at) c.keys)) [
      | inl own ↦
          let found : some (of_client c) ≡ some identity = rw own at e in
          (c, ([], store, refl, tt, (HasKey-iff token at c).0 own), cc)
      | inr other ↦
          let (client, (before, after, parts, lack, has), same) =
            authenticate-found token at store identity (rw other at e) in
          let lacks : ¬ (HasKey token at c) =
            λ h. let own = (HasKey-iff token at c).1 h in absurd (cc) in
          (client, (c ∷ before, after, ap (λ cs. c ∷ cs) parts, (lacks, lack), has), same)
    ]

pub authenticate_iff :
    (token : String) (at : ℕ) (store : ApiKeyStore) (identity : ClientIdentity)
    → (authenticate token at store ≡ some identity)
      ↔ ((client : ClientConfig) × First token at store client × (identity ≡ of_client client))
authenticate_iff token at store identity = (
  authenticate-found token at store identity,
  (λ (client, (before, after, parts, lack, has), same).
      rw (parts, same) (authenticate-first token at before after client lack has)),
)

pub is_authorized_iff :
    (identity : ClientIdentity) (path : String)
    → (is_authorized identity path ≡ true) ↔ MayUse identity path
unfolding is_authorized
is_authorized_iff identity path =
    let tests = any_iff (λ prefix. starts_with prefix path) identity.allowed_path_prefixes in
    (
      (λ e.
          let (prefix, i, h) = tests.0 e in
          (prefix, i, (drop_prefix prefix path, starts_with-split prefix path h))),
      (λ (prefix, i, (rest, same)). tests.1 (prefix, i, rw same (starts_with-append prefix rest))),
    )
