-- ===== src/State/Workspaces.antt =====
-- src/llm_home_lab/state/workspace_store.py: the last captured workspace of a session. JSON texts are
-- kept as the values that they encode; a truth value is stored as 0 or 1.
use llm_home_lab.Base.{
  ℕ, String, ◌≡◌, ◌≢◌, refl, Bool, true, false, if◌then◌else◌, ◌==◌, not, Option, none, some, List,
  arith, string_eq, eq_iff, nat_eq,
}
use llm_home_lab.Base.Int.{ℤ}
use llm_home_lab.Dict.{Dict, lookup, insert, member, lookup-insert}
use llm_home_lab.State.{Result, ok, require_session}

pub record RunStatus : Type 0 where
  pub passed : ℤ
  pub failed : ℤ
  pub total : ℤ
  pub summary : Option String

pub record WorkspaceSnapshot : Type 0 where
  pub session_id : String
  pub branch : String
  pub git_diff : String
  pub diff_truncated : Bool
  pub open_files : List String
  pub open_files_truncated : Bool
  pub test_status : Option RunStatus
  pub created_at : String

pub record SnapshotRow : Type 0 where
  pub branch : String
  pub git_diff : String
  pub diff_truncated : ℕ
  pub open_files : List String
  pub open_files_truncated : ℕ
  pub test_status : Option RunStatus
  pub created_at : String

pub record WorkspaceStore : Type 0 where
  pub sessions : Dict String String
  pub workspace_snapshots : Dict String SnapshotRow

abbrev pub int_of : Bool → ℕ
int_of b = if b then 1 else 0

abbrev pub bool_of : ℕ → Bool
bool_of n = not (n == 0)

abbrev pub row_of : WorkspaceSnapshot → SnapshotRow
row_of s = record {
  branch = s.branch;
  git_diff = s.git_diff;
  diff_truncated = int_of s.diff_truncated;
  open_files = s.open_files;
  open_files_truncated = int_of s.open_files_truncated;
  test_status = s.test_status;
  created_at = s.created_at;
}

-- The arguments of the call are the fields of the snapshot.
unfoldable pub capture : WorkspaceSnapshot → WorkspaceStore → Result WorkspaceStore
capture s st =
    require_session st.sessions s.session_id (
      ok
        (record st { workspace_snapshots = insert s.session_id (row_of s) st.workspace_snapshots }))

abbrev pub snapshot_of : String → Option SnapshotRow → Option WorkspaceSnapshot
snapshot_of session_id none = none
snapshot_of session_id (some r) = some (record {
  session_id = session_id;
  branch = r.branch;
  git_diff = r.git_diff;
  diff_truncated = bool_of r.diff_truncated;
  open_files = r.open_files;
  open_files_truncated = bool_of r.open_files_truncated;
  test_status = r.test_status;
  created_at = r.created_at;
})

unfoldable pub read : String → WorkspaceStore → Result (Option WorkspaceSnapshot)
read session_id st =
    require_session st.sessions session_id
      (ok (snapshot_of session_id (lookup session_id st.workspace_snapshots)))

bool_of-int_of : (b : Bool) → bool_of (int_of b) ≡ b
bool_of-int_of true = refl
bool_of-int_of false = refl

snapshot_of-row_of : (s : WorkspaceSnapshot) → snapshot_of s.session_id (some (row_of s)) ≡ some s
snapshot_of-row_of s =
    rw (bool_of-int_of s.diff_truncated, bool_of-int_of s.open_files_truncated) refl

capture_ok :
    (s : WorkspaceSnapshot) (st st' : WorkspaceStore)
    → capture s st ≡ ok st'
    → (member s.session_id st.sessions ≡ true)
      × (st' ≡ record st {
        workspace_snapshots = insert s.session_id (row_of s) st.workspace_snapshots;
      })
unfolding capture require_session
capture_ok s st st' h = (ground arith, ground arith)

-- After a capture the session reads the captured snapshot and every other session what it read.
pub read-capture :
    (s : WorkspaceSnapshot) (st st' : WorkspaceStore)
    → capture s st ≡ ok st'
    → (read s.session_id st' ≡ ok (some s))
      × ((t : String) → t ≢ s.session_id → read t st' ≡ read t st)
unfolding capture read require_session
read-capture s st st' h =
    let (registered, same) = capture_ok s st st' h in
    (
      rw (same, registered)
          (ground (
            arith,
            snapshot_of-row_of s,
            lookup-insert s.session_id s.session_id (row_of s) st.workspace_snapshots,
            eq_iff s.session_id s.session_id,
          )),
      λ t other. rw same (
          ground (
            arith,
            other,
            eq_iff s.session_id t,
            lookup-insert s.session_id t (row_of s) st.workspace_snapshots,
          )),
    )
