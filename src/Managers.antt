-- ===== src/Managers.antt =====
-- src/llm_home_lab/state/workspace_manager.py: what a captured workspace is cut to before it is stored.
-- The limits are natural numbers; how a number is written in decimals is an argument.
mod Cutting
mod Examples
use Prim.Native.String.{String as Text}
use llm_home_lab.Base.{
  ℕ, ◌-◌, String, Bool, true, false, Option, List, [], ◌∷◌, leb, if◌then◌else◌, ◌==◌, nat_eq,
  length,
}
use llm_home_lab.Base.Text.{append_text}
use llm_home_lab.Context.{char_count}
use llm_home_lab.State.{Result, ok, err}
use llm_home_lab.State.Workspaces.{RunStatus, WorkspaceSnapshot, WorkspaceStore, capture, read}

-- `text[:n]`
unfoldable pub take_text : ℕ → String → String
take_text n Text.[] = Text.[]
take_text n (Text.◌∷◌ c s) =
    let rest = take_text (n - 1) s in if n == 0 then Text.[] else Text.◌∷◌ c rest

-- `items[:n]`
unfoldable pub take_items : ℕ → List String → List String
take_items n [] = []
take_items n (x ∷ xs) = let rest = take_items (n - 1) xs in if n == 0 then [] else x ∷ rest

unfoldable pub truncate_text : (ℕ → String) → String → ℕ → String × Bool
truncate_text decimal text max_chars =
    let mark =
      append_text "... [truncated "
        (append_text (decimal (char_count text - max_chars)) " chars]") in
    if leb (char_count text) max_chars
    then (text, false)
    else (append_text (take_text max_chars text) mark, true)

unfoldable pub truncate_list : List String → ℕ → List String × Bool
truncate_list items max_count =
    if leb (length items) max_count then (items, false) else (take_items max_count items, true)

pub record WorkspaceManager : Type 0 where
  pub store : WorkspaceStore
  pub diff_max_chars : ℕ
  pub open_files_max : ℕ

abbrev pub snapshot_for :
    (ℕ → String)
    → String
    → String
    → String
    → List String
    → Option RunStatus
    → String
    → WorkspaceManager
    → WorkspaceSnapshot
snapshot_for decimal session_id branch git_diff open_files test_status now m =
    let diff = truncate_text decimal git_diff m.diff_max_chars in
    let files = truncate_list open_files m.open_files_max in
    record {
      session_id = session_id;
      branch = branch;
      git_diff = diff.0;
      diff_truncated = diff.1;
      open_files = files.0;
      open_files_truncated = files.1;
      test_status = test_status;
      created_at = now;
    }

abbrev pub with_store : WorkspaceManager → Result WorkspaceStore → Result WorkspaceManager
with_store m (ok st) = ok (record m { store = st })
with_store m (err e) = err e

unfoldable pub capture_workspace :
    (ℕ → String)
    → String
    → String
    → String
    → List String
    → Option RunStatus
    → String
    → WorkspaceManager
    → Result WorkspaceManager
capture_workspace decimal session_id branch git_diff open_files test_status now m =
    with_store m (
      capture (snapshot_for decimal session_id branch git_diff open_files test_status now m)
        m.store)

unfoldable pub read_workspace : String → WorkspaceManager → Result (Option WorkspaceSnapshot)
read_workspace session_id m = read session_id m.store
