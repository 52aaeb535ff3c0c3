-- ===== src/Leases/Models.antt =====
-- src/llm_home_lab/leases/models.py. Times are microseconds since a fixed instant, durations are
-- microseconds. The texts of the exceptions are kept as data.
use llm_home_lab.Base.{
  ℕ, String, ◌≡◌, Bool, true, false, ◌||◌, Option, none, some, List, if◌then◌else◌,
}
use llm_home_lab.Base.Int.{ℤ, pos, leb_ℤ, ltb_ℤ, pos_part}

pub record LeaseSettings : Type 0 where
  pub ttl : ℕ
  pub default_ceiling : ℕ
  pub max_ceiling : ℕ
  pub min_active_nodes : ℕ
  pub expiring_soon : ℕ

pub data SettingsError : Type 0 where
  ttl_not_positive bad_ceilings negative_min_active negative_window : SettingsError

pub data Settings : Type 0 where
  settings : LeaseSettings → Settings
  value_error : SettingsError → Settings

-- `LeaseSettings(...)` with its `__post_init__`: what passes has no negative field.
unfoldable pub post_init : ℤ → ℤ → ℤ → ℤ → ℤ → Settings
post_init ttl default_ceiling max_ceiling min_active_nodes expiring_soon =
    if leb_ℤ ttl (pos 0)
    then value_error ttl_not_positive
    else if leb_ℤ default_ceiling (pos 0) || ltb_ℤ max_ceiling default_ceiling
    then value_error bad_ceilings
    else if ltb_ℤ min_active_nodes (pos 0)
    then value_error negative_min_active
    else if ltb_ℤ expiring_soon (pos 0)
    then value_error negative_window
    else settings (record {
      ttl = pos_part ttl;
      default_ceiling = pos_part default_ceiling;
      max_ceiling = pos_part max_ceiling;
      min_active_nodes = pos_part min_active_nodes;
      expiring_soon = pos_part expiring_soon;
    })

pub record ReservableHost : Type 0 where
  pub host_id : String
  pub status : String
  pub healthy : Bool
  pub serves_requested_model : Bool

pub record NodeLease : Type 0 where
  pub host_id : String
  pub holder : String
  pub token : String
  pub expires_at : ℕ
  pub hard_expires_at : ℕ
  pub created_at : ℕ

-- What `public_dict` shows; the token only if asked for.
pub record PublicLease : Type 0 where
  pub host_id : String
  pub holder : String
  pub expires_at : ℕ
  pub hard_expires_at : ℕ
  pub expiring_soon : Bool
  pub token : Option String

unfoldable pub public_dict : NodeLease → Bool → Bool → PublicLease
public_dict l include_token expiring_soon = record {
  host_id = l.host_id;
  holder = l.holder;
  expires_at = l.expires_at;
  hard_expires_at = l.hard_expires_at;
  expiring_soon = expiring_soon;
  token = if include_token then some l.token else none;
}

-- One line of the roster that a refusal carries.
pub data RosterLine : Type 0 where
  free : String → String → RosterLine
  held : String → String → String → ℕ → ℕ → RosterLine

pub data InvalidReason : Type 0 where
  holder_empty : InvalidReason
  ceiling_not_positive : InvalidReason
  ceiling_exceeds : ℕ → ℕ → InvalidReason

pub data RefusalReason : Type 0 where
  does_not_serve : String → String → RefusalReason
  already_reserved : String → String → ℕ → RefusalReason
  would_leave : String → ℤ → ℕ → RefusalReason
  no_node_serves : String → RefusalReason
  no_node_registered : RefusalReason
  no_node_free : RefusalReason
  below_minimum : ℕ → RefusalReason

-- The exceptions that the book raises.
pub data LeaseError : Type 0 where
  lease_invalid : InvalidReason → LeaseError
  lease_refused : RefusalReason → List RosterLine → LeaseError
  lease_not_held : LeaseError
  lease_ended : String → String → LeaseError
  lease_not_found : String → LeaseError
  host_not_registered : String → LeaseError

pub data Result {ℓ} (A : Type ℓ) : Type ℓ where
  ok : A → Result A
  err : LeaseError → Result A

abbrev pub failed {ℓ} : {A : Type ℓ} → Result A → Bool
failed (ok a) = false
failed (err e) = true

pub ok-injective {ℓ} : {A : Type ℓ} {a b : A} → ok a ≡ ok b → a ≡ b
ok-injective e = cc
