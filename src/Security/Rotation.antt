-- ===== src/Security/Rotation.antt =====
-- What a rotation of a client's key leaves and what it ends.
use llm_home_lab.Base.{
  ℕ, ◌+◌, ◌<◌, String, ◌≡◌, ◌≢◌, refl, Bool, true, false, ◌||◌, none, some, List, [], ◌∷◌, ◌++◌,
  map, arith, any, All, ◌==◌, string_eq, eq_iff, Bool-cases, ◌⊎◌, inl, inr,
}
use llm_home_lab.Security.{
  ApiKey, ClientConfig, ClientIdentity, opens, authenticate, expiring, rotated, update_clients,
  rotate_client_key,
}

any-append :
    {A : Type 0} (p : A → Bool) (xs ys : List A) → any p (xs ++ ys) ≡ (any p xs || any p ys)
unfolding any
any-append p [] ys = refl
any-append p (x ∷ xs) ys = ground (arith, any-append p xs ys)

opens-expiring :
    (token : String) (at end : ℕ) (k : ApiKey)
    → at < end
    → opens token at (expiring end k) ≡ opens token at k
opens-expiring token at end k h = ground arith

any-expiring :
    (token : String) (at end : ℕ) (ks : List ApiKey)
    → at < end
    → any (opens token at) (map (expiring end) ks) ≡ any (opens token at) ks
unfolding any
any-expiring token at end [] h = refl
any-expiring token at end (k ∷ ks) h =
    ground (arith, any-expiring token at end ks h, opens-expiring token at end k h)

any-rotated :
    (token new_key : String) (at end : ℕ) (c : ClientConfig)
    → at < end
    → new_key ≢ token
    → any (opens token at) (rotated new_key end c).keys ≡ any (opens token at) c.keys
unfolding any
any-rotated token new_key at end c h other = ground (
  arith,
  any-append (opens token at) (map (expiring end) c.keys)
      (record { key = new_key; expires_at = none } ∷ []),
  any-expiring token at end c.keys h,
  eq_iff new_key token,
  other,
)

authenticate-update :
    (client_id new_key token : String) (at end : ℕ) (clients : List ClientConfig)
    → at < end
    → new_key ≢ token
    → authenticate token at (update_clients client_id new_key end clients)
      ≡ authenticate token at clients
unfolding authenticate update_clients
authenticate-update client_id new_key token at end [] h other = refl
authenticate-update client_id new_key token at end (c ∷ cs) h other = ground (
  arith,
  authenticate-update client_id new_key token at end cs h other,
  any-rotated token new_key at end c h other,
)

any-new :
    (new_key : String) (at end : ℕ) (c : ClientConfig)
    → any (opens new_key at) (rotated new_key end c).keys ≡ true
unfolding any
any-new new_key at end c = ground (
  arith,
  any-append (opens new_key at) (map (expiring end) c.keys)
      (record { key = new_key; expires_at = none } ∷ []),
  eq_iff new_key new_key,
)

-- No key of the client is the given one.
abbrev pub Lacks : String → ClientConfig → Type 0
Lacks new_key c = (at : ℕ) → any (opens new_key at) c.keys ≡ false

authenticate-new :
    (client_id new_key : String) (at end : ℕ) (clients : List ClientConfig)
    → any (λ (c : ClientConfig). c.client_id == client_id) clients ≡ true
    → All (Lacks new_key) clients
    → (i : ClientIdentity) × (authenticate new_key at (update_clients client_id new_key end clients)
        ≡ some i)
      × (i.client_id ≡ client_id)
unfolding authenticate update_clients any
authenticate-new client_id new_key at end [] h l = absurd (cc)
authenticate-new client_id new_key at end (c ∷ cs) h l =
    elim (Bool-cases (c.client_id == client_id)) [
      | inl own ↦ (
        record { client_id = c.client_id; allowed_path_prefixes = c.allowed_path_prefixes },
        rw own (rw (any-new new_key at end c) refl),
        (eq_iff c.client_id client_id).0 own,
      )
      | inr other ↦
          let (i, found, named) =
            authenticate-new client_id new_key at end cs (ground (arith, other)) l.1 in
          (i, rw other (rw (l.0 at) found), named)
    ]

-- A rotation fails exactly for an unknown client. Until the grace period ends, every token but the
-- new key is accepted and refused as before; and at any time the new key, if no client had it, is
-- accepted as the client's.
pub rotate_client_key-graceful :
    (clients : List ClientConfig) (client_id new_key : String) (now grace_period at : ℕ)
    → All (Lacks new_key) clients
    → ((rotate_client_key clients client_id new_key now grace_period ≡ none)
        × (any (λ (c : ClientConfig). c.client_id == client_id) clients ≡ false))
      ⊎ ((updated : List ClientConfig) × (rotate_client_key clients client_id new_key now
              grace_period
            ≡ some updated)
          × ((token : String)
              → new_key ≢ token
              → at < now + grace_period
              → authenticate token at updated ≡ authenticate token at clients)
          × ((i : ClientIdentity) × (authenticate new_key at updated ≡ some i)
              × (i.client_id ≡ client_id)))
unfolding rotate_client_key
rotate_client_key-graceful clients client_id new_key now grace_period at l =
    elim (Bool-cases (any (λ (c : ClientConfig). c.client_id == client_id) clients)) [
      | inl known ↦ inr (
        update_clients client_id new_key (now + grace_period) clients,
        rw known refl,
        (λ token other h.
            authenticate-update client_id new_key token at (now + grace_period) clients h other),
        authenticate-new client_id new_key at (now + grace_period) clients known l,
      )
      | inr unknown ↦ inl (rw unknown refl, unknown)
    ]
