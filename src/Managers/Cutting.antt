-- ===== src/Managers/Cutting.antt =====
-- A captured workspace is read back cut to its limits, with marks that say so.
use llm_home_lab.Base.{
  ℕ, ◌-◌, ◌≤◌, String, ◌≡◌, true, Option, some, List, [], ◌∷◌, arith, ltb, nat_eq, string_eq,
  length, ◌⊎◌,
}
use llm_home_lab.Context.{char_count}
use llm_home_lab.State.{Result, ok, err}
use llm_home_lab.State.Workspaces.{
  RunStatus, WorkspaceSnapshot, WorkspaceStore, capture, read-capture,
}
use llm_home_lab.Managers.{
  take_items, truncate_text, truncate_list, WorkspaceManager, snapshot_for, with_store,
  capture_workspace, read_workspace,
}

length-take_items : (n : ℕ) (xs : List String) → length (take_items n xs) ≤ n
unfolding take_items
length-take_items n [] = omega arith
length-take_items n (x ∷ xs) = ground (arith, length-take_items (n - 1) xs)

capture_ok :
    (m m' : WorkspaceManager) (r : Result WorkspaceStore) → with_store m r ≡ ok m' → r ≡ ok m'.store
capture_ok m m' (ok st) h = ground arith
capture_ok m m' (err e) h = absurd (cc)

-- After a capture the session reads a snapshot with at most the limit of open files, which are all of
-- them, unmarked, if they are within it; the difference is whole and unmarked if it is within its limit.
pub capture-IsCut :
    (decimal : ℕ → String) (session_id branch git_diff : String) (open_files : List String)
    (test_status : Option RunStatus) (now : String) (m m' : WorkspaceManager)
    → capture_workspace decimal session_id branch git_diff open_files test_status now m ≡ ok m'
    → (s : WorkspaceSnapshot) × (read_workspace session_id m' ≡ ok (some s))
      × (length s.open_files ≤ m.open_files_max)
      × (s.open_files_truncated ≡ ltb m.open_files_max (length open_files))
      × ((s.open_files_truncated ≡ true) ⊎ (s.open_files ≡ open_files))
      × (s.diff_truncated ≡ ltb m.diff_max_chars (char_count git_diff))
      × ((s.diff_truncated ≡ true) ⊎ (s.git_diff ≡ git_diff))
unfolding capture_workspace read_workspace truncate_text truncate_list
capture-IsCut decimal session_id branch git_diff open_files test_status now m m' h =
    let s = snapshot_for decimal session_id branch git_diff open_files test_status now m in
    let shown = (read-capture s m.store m'.store (capture_ok m m' (capture s m.store) h)).0 in
    (
      s,
      shown,
      ground (arith, length-take_items m.open_files_max open_files),
      ground arith,
      ground arith,
      ground arith,
      ground arith,
    )
