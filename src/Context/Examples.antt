-- ===== src/Context/Examples.antt =====
-- The context theorems at a session that does not fit its budget.
use llm_home_lab.Base.{
  ℕ, ◌+◌, ◌≤◌, ◌≡◌, ◌⊎◌, refl, true, some, List, [], ◌∷◌, ◌++◌, map, ltb, length,
}
use llm_home_lab.Base.Int.{pos, leb_ℤ}
use llm_home_lab.State.{Session, StoredMessage}
use llm_home_lab.Base.Text.{append_text}
use llm_home_lab.Context.{
  Message, estimate_tokens, summary_message, raw_message, keep_from, kept_messages, char_count,
  assemble_context, empty, assemble,
}
use llm_home_lab.Context.Assembly.{assemble_context-fits}
use llm_home_lab.Context.Caching.{Asks, asks, run, assemble-run}

abbrev said : ℕ → StoredMessage
said n = record { seq = n; role = "user"; content = "twelve chars"; created_at = "t" }

abbrev session : Session
session = record {
  session_id = "s";
  messages = said 3 ∷ said 4 ∷ said 5 ∷ [];
  summary = some (record { covers_up_to_seq = pos 2; summary_text = "two"; created_at = "t" });
}

assemble_test : (assemble_context session (pos 16)).dropped_message_count ≡ 1
unfolding assemble_context estimate_tokens char_count kept_messages keep_from append_text
assemble_test = refl

assemble_context-fits_example :
    let raw = map raw_message session.messages in
    let r = assemble_context session (pos 16) in
    (kept : List Message) × (front : List Message) × (raw ≡ front ++ kept)
    × (r.messages ≡ summary_message session.summary ++ kept)
    × (r.dropped_message_count ≡ length front)
    × (r.compacted ≡ ltb 0 (length front))
    × (1 ≤ length raw → 1 ≤ length kept)
    × ((length kept ≤ 1) ⊎ (leb_ℤ (pos (estimate_tokens r.messages)) (pos 16) ≡ true))
assemble_context-fits_example = assemble_context-fits session (pos 16)

abbrev asked : List Asks
asked = asks session (pos 16) ∷ asks session (pos 16) ∷ []

assemble-run_example :
    let c = run asked (empty 1) in
    ((assemble session (pos 16) c).0 ≡ assemble_context session (pos 16))
    × (length c.entries ≤ 1)
    × (c.hits + c.misses ≡ length asked)
assemble-run_example = assemble-run 1 asked session (pos 16)
