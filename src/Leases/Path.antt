-- ===== src/Leases/Path.antt =====
-- src/llm_home_lab/leases/path.py, the middleware `_LeasePathMiddleware` of src/llm_home_lab/api/app.py
-- that uses it, and the addresses of src/llm_home_lab/leases/runner.py. The scope is that of an HTTP
-- request; its bytes are the texts that they encode.
mod Origin
mod Client
mod Examples
use Prim.Native.Char.{code}
use llm_home_lab.Base.{
  ℕ, String, ◌≡◌, refl, sym, ap, subst, ◌∙◌, Bool, true, false, not, Option, none, some, List, [],
  ◌∷◌, ◌++◌, arith, if◌then◌else◌, ◌==◌, string_eq, Bool-cases, nat_beq, leb, ◌&&◌, ◌||◌, ◌+◌,
}
use llm_home_lab.Base.Text.{append_text, starts_with, drop_prefix, strip}

pub record Scope : Type 0 where
  pub method : String
  pub path : String
  pub raw_path : String
  pub headers : List (String × String)

abbrev pub lease_header : String
lease_header = "x-llm-node-lease"

-- `.*` before the end of the text, which may be one line feed.
unfoldable pub dot_star : String → Option String
dot_star String.[] = some ""
dot_star (String.◌∷◌ c s) =
    let rest = dot_star s in
    if nat_beq (code c) 10
    then if s == "" then some "" else none
    else elim rest [ none ↦ none | some t ↦ some (String.◌∷◌ c t) ]

-- The characters before the first slash.
unfoldable pub before_slash : String → String
before_slash String.[] = ""
before_slash (String.◌∷◌ c s) =
    let rest = before_slash s in if nat_beq (code c) 47 then "" else String.◌∷◌ c rest

-- The text after the first slash, if there is one.
unfoldable pub after_slash : String → Option String
after_slash String.[] = none
after_slash (String.◌∷◌ c s) =
    let rest = after_slash s in if nat_beq (code c) 47 then some s else rest

-- The group `rest`, or a slash without it.
unfoldable pub rest_of : Option String → Option String
rest_of none = some "/"
rest_of (some s) = elim (dot_star s) [ none ↦ none | some t ↦ some (append_text "/" t) ]

-- The token and the rest of a text after `/lease/`.
unfoldable pub split_token : String → Option (String × String)
split_token s =
    let token = before_slash s in
    if token == ""
    then none
    else elim (rest_of (after_slash s)) [ none ↦ none | some rest ↦ some (token, rest) ]

-- `_LEASE_PREFIX.match`
unfoldable pub match_prefix : String → Option (String × String)
match_prefix path =
    if starts_with "/lease/" path then split_token (drop_prefix "/lease/" path) else none

unfoldable pub accepts : String → String → Bool
accepts method rest =
    method == "POST" && rest == "/v1/chat/completions"
    || method == "GET" && (rest == "/v1/capacity" || rest == "/capacity")

-- The code point of an ASCII letter in lower case.
unfoldable pub lower_code : ℕ → ℕ
lower_code c = if leb 65 c && leb c 90 then c + 32 else c

-- `name.lower() == other`
unfoldable pub lower_eq : String → String → Bool
lower_eq String.[] String.[] = true
lower_eq String.[] (String.◌∷◌ d t) = false
lower_eq (String.◌∷◌ c s) String.[] = false
lower_eq (String.◌∷◌ c s) (String.◌∷◌ d t) = nat_beq (lower_code (code c)) (code d) && lower_eq s t

unfoldable pub has_header : List (String × String) → Bool
has_header [] = false
has_header (item ∷ items) = lower_eq item.0 lease_header || has_header items

unfoldable pub pin : String → List (String × String) → List (String × String)
pin token headers = if has_header headers then headers else headers ++ ((lease_header, token) ∷ [])

unfoldable pub rewritten : Scope → Option (String × String) → Scope
rewritten scope none = scope
rewritten scope (some (token, rest)) =
    if not (accepts scope.method rest)
    then scope
    else (let path = if rest == "/capacity" then "/v1/capacity" else rest in
        record {
          method = scope.method;
          path = path;
          raw_path = path;
          headers = pin token scope.headers;
        })

unfoldable pub rewrite_lease_path : Scope → Scope
rewrite_lease_path scope = rewritten scope (match_prefix scope.path)

-- What the middleware does with a request.
pub data Handed : Type 0 where
  not_found : Handed
  handed : Scope → Handed

unfoldable pub lease_path_middleware : Scope → Handed
lease_path_middleware scope =
    let scope = rewrite_lease_path scope in
    if starts_with "/lease/" scope.path then not_found else handed scope

-- `s.rstrip("/")`
unfoldable pub rstrip_slash : String → String
rstrip_slash String.[] = ""
rstrip_slash (String.◌∷◌ c s) =
    let rest = rstrip_slash s in if nat_beq (code c) 47 && rest == "" then "" else String.◌∷◌ c rest

-- `root[: -len(suffix)]` if `root.endswith(suffix)`, and `root` if not, for a suffix of some length.
unfoldable pub drop_suffix : String → String → String
drop_suffix suffix String.[] = ""
drop_suffix suffix (String.◌∷◌ c s) =
    let rest = drop_suffix suffix s in if String.◌∷◌ c s == suffix then "" else String.◌∷◌ c rest

unfoldable pub orchestrator_origin : String → String
orchestrator_origin base_url = drop_suffix "/v1" (rstrip_slash (strip base_url))

unfoldable pub leased_client_base : String → String → String
leased_client_base base_url token =
    append_text (orchestrator_origin base_url) (append_text "/lease/" (append_text token "/v1"))

abbrev pub request : String → String → List (String × String) → Scope
request method path headers = record {
  method = method;
  path = path;
  raw_path = path;
  headers = headers;
}
