-- ===== src/Leases/Path/Examples.antt =====
-- The rewriting of leased paths on concrete requests.
use llm_home_lab.Base.{String, ◌≡◌, refl, true, List, [], ◌∷◌, ◌++◌}
use llm_home_lab.Base.Text.{drop_prefix, starts_with, append_text, has_space, is_space}
use llm_home_lab.Leases.Path.{
  Scope, Handed, handed, not_found, request, lease_header, lease_path_middleware,
  orchestrator_origin, leased_client_base, after_slash, has_header, lower_eq, lower_code,
}
use llm_home_lab.Leases.Path.Origin.{with_v1_slash, is_authority, last_is_slash, ends_with}
use llm_home_lab.Leases.Path.Client.{leased_client-pinned, leased_url, all_url_safe}

leased_client-pinned_example :
    (leased_url "http://lab:8080/v1/" "t1" ≡ "http://lab:8080/lease/t1/v1/chat/completions")
    × (lease_path_middleware
          (request "POST" "/lease/t1/v1/chat/completions" (("accept", "*/*") ∷ []))
        ≡ handed (
            request "POST" "/v1/chat/completions"
              ((("accept", "*/*") ∷ []) ++ ((lease_header, "t1") ∷ []))))
unfolding has_header lower_eq lower_code append_text has_space is_space last_is_slash ends_with
    all_url_safe is_authority
leased_client-pinned_example =
    leased_client-pinned with_v1_slash "http://lab:8080" "t1" (("accept", "*/*") ∷ [])
      (refl, refl, refl, ("http", "lab:8080", refl, refl)) refl refl refl

-- A header of the client's own, in any case, is kept and none is added.
own_header_test :
    lease_path_middleware (request "GET" "/lease/t1/capacity" (("X-LLM-Node-Lease", "t2") ∷ []))
    ≡ handed (request "GET" "/v1/capacity" (("X-LLM-Node-Lease", "t2") ∷ []))
unfolding lease_path_middleware starts_with drop_prefix after_slash has_header
    llm_home_lab.Base.Text.append_text llm_home_lab.Leases.Path.rewrite_lease_path
    llm_home_lab.Leases.Path.rewritten llm_home_lab.Leases.Path.match_prefix
    llm_home_lab.Leases.Path.split_token llm_home_lab.Leases.Path.before_slash
    llm_home_lab.Leases.Path.rest_of llm_home_lab.Leases.Path.dot_star
    llm_home_lab.Leases.Path.accepts llm_home_lab.Leases.Path.pin llm_home_lab.Leases.Path.lower_eq
    llm_home_lab.Leases.Path.lower_code
own_header_test = refl

-- Another route under a lease, or a lease without a token, is not found.
other_route_test :
    (lease_path_middleware (request "POST" "/lease/t1/v1/nodes" []) ≡ not_found)
    × (lease_path_middleware (request "POST" "/lease//v1/chat/completions" []) ≡ not_found)
unfolding lease_path_middleware starts_with drop_prefix after_slash has_header
    llm_home_lab.Base.Text.append_text llm_home_lab.Leases.Path.rewrite_lease_path
    llm_home_lab.Leases.Path.rewritten llm_home_lab.Leases.Path.match_prefix
    llm_home_lab.Leases.Path.split_token llm_home_lab.Leases.Path.before_slash
    llm_home_lab.Leases.Path.rest_of llm_home_lab.Leases.Path.dot_star
    llm_home_lab.Leases.Path.accepts llm_home_lab.Leases.Path.pin llm_home_lab.Leases.Path.lower_eq
    llm_home_lab.Leases.Path.lower_code
other_route_test = (refl, refl)
