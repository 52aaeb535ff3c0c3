-- ===== src/Managers/Examples.antt =====
-- A capture of two open files with a limit of one.
use llm_home_lab.Base.{
  List, ℕ, ◌≤◌, String, ◌≡◌, ◌⊎◌, refl, true, ltb, none, some, [], ◌∷◌, string_eq, nat_eq, length,
}
use llm_home_lab.Base.Text.{append_text}
use llm_home_lab.Context.{char_count}
use llm_home_lab.Dict.{lookup, insert, member}
use llm_home_lab.State.{ok, require_session}
use llm_home_lab.State.Workspaces.{WorkspaceSnapshot, capture, row_of}
use llm_home_lab.Managers.{
  take_text, take_items, truncate_text, truncate_list, WorkspaceManager, capture_workspace,
  read_workspace,
}
use llm_home_lab.Managers.Cutting.{capture-IsCut}

abbrev desk : WorkspaceManager
desk = record {
  store = record { sessions = ("s", "t") ∷ []; workspace_snapshots = [] };
  diff_max_chars = 4;
  open_files_max = 1;
}

abbrev files : List String
files = "a.py" ∷ "b.py" ∷ []

abbrev one_digit : ℕ → String
one_digit n = "1"

abbrev snapshot : WorkspaceSnapshot
snapshot = record {
  session_id = "s";
  branch = "main";
  git_diff = "abcd... [truncated 1 chars]";
  diff_truncated = true;
  open_files = "a.py" ∷ [];
  open_files_truncated = true;
  test_status = none;
  created_at = "t";
}

abbrev desk_after : WorkspaceManager
desk_after = record desk {
  store = record { sessions = ("s", "t") ∷ []; workspace_snapshots = ("s", row_of snapshot) ∷ [] };
}

capture_test : capture_workspace one_digit "s" "main" "abcde" files none "t" desk ≡ ok desk_after
unfolding capture_workspace capture require_session member lookup insert truncate_text truncate_list
    take_text take_items char_count append_text
capture_test = refl

capture-IsCut_example :
    (s : WorkspaceSnapshot) × (read_workspace "s" desk_after ≡ ok (some s))
    × (length s.open_files ≤ 1)
    × (s.open_files_truncated ≡ ltb 1 (length files))
    × ((s.open_files_truncated ≡ true) ⊎ (s.open_files ≡ files))
    × (s.diff_truncated ≡ ltb 4 (char_count "abcde"))
    × ((s.diff_truncated ≡ true) ⊎ (s.git_diff ≡ "abcde"))
capture-IsCut_example =
    capture-IsCut one_digit "s" "main" "abcde" files none "t" desk desk_after capture_test
