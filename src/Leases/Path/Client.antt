-- ===== src/Leases/Path/Client.antt =====
-- A client of the base that `leased_client_base` of src/llm_home_lab/leases/runner.py makes, against the
-- rewriting of src/llm_home_lab/leases/path.py.
use Prim.Native.Char.{code}
use llm_home_lab.Base.{
  ℕ, Bool, leb, ◌&&◌, ◌||◌, String, ◌≡◌, refl, ap, ◌∙◌, true, false, none, some, List, [], ◌∷◌,
  ◌++◌, arith, ◌==◌, string_eq, Bool-cases, nat_beq, inl, inr,
}
use llm_home_lab.Base.Text.{append_text, starts_with, drop_prefix, append-append}
use llm_home_lab.Leases.Path.Origin.{IsOrigin, Spelling, spelled, orchestrator_origin-spelled}
use llm_home_lab.Leases.Path.{
  handed, request, lease_header, before_slash, after_slash, rest_of, split_token, match_prefix,
  rewritten, rewrite_lease_path, lease_path_middleware, has_header, pin, orchestrator_origin,
  leased_client_base, accepts, dot_star,
}

before_slash-append :
    (t s : String) → after_slash t ≡ none → before_slash s ≡ "" → before_slash (append_text t s) ≡ t
unfolding append_text before_slash after_slash
before_slash-append String.[] s e k = k
before_slash-append (String.◌∷◌ c t) s e k = elim (Bool-cases (nat_beq (code c) 47)) [
  | inl slash ↦ absurd (ground arith)
  | inr other ↦
      let ih = before_slash-append t s (ground arith) k in
      rw (append_text, before_slash, other) (ap (String.◌∷◌ c) ih)
]

after_slash-append :
    (t s u : String)
    → after_slash t ≡ none
    → after_slash s ≡ some u
    → after_slash (append_text t s) ≡ some u
unfolding append_text after_slash
after_slash-append String.[] s u e k = k
after_slash-append (String.◌∷◌ c t) s u e k = elim (Bool-cases (nat_beq (code c) 47)) [
  | inl slash ↦ absurd (ground arith)
  | inr other ↦
      let ih = after_slash-append t s u (ground arith) k in rw (append_text, after_slash, other) ih
]

split_token-token :
    (token s u rest : String)
    → after_slash token ≡ none
    → token == "" ≡ false
    → before_slash s ≡ ""
    → after_slash s ≡ some u
    → rest_of (some u) ≡ some rest
    → split_token (append_text token s) ≡ some (token, rest)
unfolding split_token
split_token-token token s u rest e named k l m =
    rw (split_token, before_slash-append token s e k, named, after_slash-append token s u e l, m)
      (ap (λ t. some (t, rest)) (before_slash-append token s e k))

-- The address that a client of the leased base posts its chat completions to.
abbrev pub leased_url : String → String → String
leased_url base_url token = append_text (leased_client_base base_url token) "/chat/completions"

leased_url-path :
    (base_url token : String)
    → leased_url base_url token
      ≡ append_text
          (orchestrator_origin base_url)
          (append_text "/lease/" (append_text token "/v1/chat/completions"))
unfolding leased_client_base append_text
leased_url-path base_url token =
    append-append (orchestrator_origin base_url) _ "/chat/completions"
    ∙ ap (λ t. append_text (orchestrator_origin base_url) (append_text "/lease/" t))
        (append-append token "/v1" "/chat/completions")

match_prefix-leased :
    (token : String)
    → after_slash token ≡ none
    → token == "" ≡ false
    → match_prefix (append_text "/lease/" (append_text token "/v1/chat/completions"))
      ≡ some (token, "/v1/chat/completions")
unfolding match_prefix starts_with drop_prefix append_text before_slash after_slash rest_of dot_star
match_prefix-leased token e named =
    split_token-token token "/v1/chat/completions" _ _ e named refl refl refl

middleware-leased :
    (token : String) (headers : List (String × String))
    → after_slash token ≡ none
    → token == "" ≡ false
    → has_header headers ≡ false
    → lease_path_middleware
        (request "POST" (append_text "/lease/" (append_text token "/v1/chat/completions")) headers)
      ≡ handed (request "POST" "/v1/chat/completions" (headers ++ ((lease_header, token) ∷ [])))
unfolding lease_path_middleware rewrite_lease_path rewritten accepts pin starts_with
middleware-leased token headers e named bare =
    rw (lease_path_middleware, rewrite_lease_path, match_prefix-leased token e named, pin, bare)
      refl

-- The characters of `secrets.token_urlsafe`.
abbrev pub is_url_safe : ℕ → Bool
is_url_safe c =
    leb 48 c && leb c 57
    || leb 65 c && leb c 90
    || leb 97 c && leb c 122
    || nat_beq c 45
    || nat_beq c 95

unfoldable pub all_url_safe : String → Bool
all_url_safe String.[] = true
all_url_safe (String.◌∷◌ c s) = is_url_safe (code c) && all_url_safe s

url_safe-slashless : (s : String) → all_url_safe s ≡ true → after_slash s ≡ none
unfolding all_url_safe after_slash
url_safe-slashless String.[] h = refl
url_safe-slashless (String.◌∷◌ c s) h =
    let other : nat_beq (code c) 47 ≡ false = ground (arith, h) in
    rw (after_slash, other) (url_safe-slashless s (ground (arith, h)))

-- An origin is a scheme and a host without spaces that end neither with a slash nor with `/v1`. A client
-- whose base the wrapper makes of an origin, written with or without `/v1` and a last slash, and of a
-- URL-safe token, not empty, posts its chat completions to the origin under the path of the token; the
-- middleware hands such a request without a lease header on as the chat completions of the API, with
-- the token as the lease header.
pub leased_client-pinned :
    (k : Spelling) (origin token : String) (headers : List (String × String))
    → IsOrigin origin
    → all_url_safe token ≡ true
    → token == "" ≡ false
    → has_header headers ≡ false
    → let path = append_text "/lease/" (append_text token "/v1/chat/completions") in
      (leased_url (spelled k origin) token ≡ append_text origin path)
      × (lease_path_middleware (request "POST" path headers)
          ≡ handed
              (request "POST" "/v1/chat/completions" (headers ++ ((lease_header, token) ∷ []))))
leased_client-pinned k origin token headers plain safe named bare = (
  leased_url-path (spelled k origin) token
      ∙ ap (λ o. append_text o (append_text "/lease/" (append_text token "/v1/chat/completions")))
          (orchestrator_origin-spelled k origin plain),
  middleware-leased token headers (url_safe-slashless token safe) named bare,
)
