-- ===== src/Leases/Book/Histories.antt =====
-- Every history of calls keeps the book valid.
use mathlib.Core.Option.{none-ne-some}
use llm_home_lab.Base.{
  ℕ, ◌≤◌, String, ◌≡◌, sym, subst, ap, ◌∙◌, inl, inr, Option, none, List, arith, string_eq,
}
use llm_home_lab.Base.Int.{ℤ}
use llm_home_lab.Base.Text.{strip}
use llm_home_lab.Dict.{lookup}
use llm_home_lab.Leases.Models.{LeaseSettings, ReservableHost}
use llm_home_lab.Leases.Book.{
  NodeLeaseBook, empty, grant, purge_unlocked, new_lease, require, is_held, heartbeat, release,
  force_release, view, reserve,
}
use llm_home_lab.Leases.Book.Valid.{IsValid, store-IsValid, purge-IsValid}
use llm_home_lab.Leases.Book.Purge.{purge_none}
use llm_home_lab.Leases.Book.Reserve.{reserve_cases, purge-settings}
use llm_home_lab.Leases.Book.Calls.{
  live-IsValid, require-eq-live, is_held-IsValid, view-IsValid, heartbeat-IsValid, release-IsValid,
  force_release-IsValid,
}

pub data Call : Type 0 where
  reserves :
      String → List ReservableHost → Option String → Option String → Option ℤ → ℕ → String → Call
  requires : String → ℕ → Call
  asks : String → ℕ → Call
  heartbeats : String → ℕ → Call
  releases : String → ℕ → Call
  force_releases : String → ℕ → Call
  views : String → ℕ → Call

-- The book after a call, whether it returned or raised.
abbrev pub step : NodeLeaseBook → Call → NodeLeaseBook
step b (reserves holder hosts host_id model ceiling now token) =
    (reserve holder hosts host_id model ceiling now token b).1
step b (requires token now) = (require token now b).1
step b (asks host_id now) = (is_held host_id now b).1
step b (heartbeats token now) = (heartbeat token now b).1
step b (releases token now) = (release token now b).1
step b (force_releases host_id now) = (force_release host_id now b).1
step b (views host_id now) = (view host_id now b).1

-- A new token is not one that the book holds.
abbrev pub IsFresh : NodeLeaseBook → Call → Type 0
IsFresh b (reserves _ _ _ _ _ _ token) = lookup token b.by_token ≡ none
IsFresh b _ = Unit

pub data Reach (s : LeaseSettings) : NodeLeaseBook → Type 0 where
  start : Reach s (empty s)
  next : {b : NodeLeaseBook} (c : Call) → Reach s b → IsFresh b c → Reach s (step b c)

grant-IsValid :
    (host_id holder : String) (ceiling now : ℕ) (token : String) (b : NodeLeaseBook)
    → IsValid b
    → lookup host_id b.by_host ≡ none
    → lookup token b.by_token ≡ none
    → ceiling ≤ b.max_ceiling
    → IsValid (grant host_id holder ceiling now token b).1
unfolding grant
grant-IsValid host_id holder ceiling now token b v no_host no_token within =
    store-IsValid b (new_lease host_id holder ceiling now token b.settings)
      (
        λ k e. absurd (none-ne-some k (sym no_host ∙ e)),
        λ k e. absurd (none-ne-some k (sym no_token ∙ e)),
      )
      (record { within = omega arith; capped = omega arith }) v

reserve-IsValid :
    (holder : String) (hosts : List ReservableHost) (host_id model : Option String)
    (ceiling : Option ℤ) (now : ℕ) (token : String) (b : NodeLeaseBook)
    → IsValid b
    → lookup token b.by_token ≡ none
    → IsValid (reserve holder hosts host_id model ceiling now token b).1
reserve-IsValid holder hosts host_id model ceiling now token b v fresh =
    elim (reserve_cases hosts model now token holder host_id ceiling b) [
      | inl (_, inl same) ↦ rw same v
      | inl (_, inr purged) ↦ rw purged (purge-IsValid now b v)
      | inr (h, c, may, _, _, _, _, within, granted) ↦
          let p = purge_unlocked now b in
          rw granted (
            grant-IsValid h.host_id (strip holder) c now token p (purge-IsValid now b v)
              may.unreserved (purge_none now b token fresh)
              (omega
                (arith, within, ap (λ (s : LeaseSettings). s.max_ceiling) (purge-settings now b))))
    ]

pub step-IsValid : (b : NodeLeaseBook) (c : Call) → IsValid b → IsFresh b c → IsValid (step b c)
step-IsValid b (reserves holder hosts host_id model ceiling now token) v f =
    reserve-IsValid holder hosts host_id model ceiling now token b v f
step-IsValid b (requires token now) v f =
    subst (λ r. IsValid r.1) (sym (require-eq-live token now b)) (live-IsValid token now b v)
step-IsValid b (asks host_id now) v f = is_held-IsValid host_id now b v
step-IsValid b (heartbeats token now) v f = heartbeat-IsValid token now b v
step-IsValid b (releases token now) v f = release-IsValid token now b v
step-IsValid b (force_releases host_id now) v f = force_release-IsValid host_id now b v
step-IsValid b (views host_id now) v f = view-IsValid host_id now b v

-- Every book that any calls lead to, with fresh tokens, is valid: its two dictionaries hold the
-- same leases, one to a node and one to a token, each under its own node and token, none expiring
-- past its ceiling, and no ceiling longer than the server allows.
pub Reach-IsValid : {s : LeaseSettings} {b : NodeLeaseBook} → Reach s b → IsValid b
unfolding lookup
Reach-IsValid start = record { unique = tt; host_side = λ h l e. cc; token_side = λ t l e. cc }
Reach-IsValid (next {b = b} c r f) = step-IsValid b c (Reach-IsValid r) f
