-- ===== src/Context/Caching.antt =====
-- The cache gives what `assemble_context` gives, within its size, and counts its hits and misses.
use llm_home_lab.Base.{
  ℕ, ◌+◌, ◌-◌, ◌≤◌, ◌≡◌, refl, ap, sym, ◌∙◌, inl, inr, Option, none, some, List, [], ◌∷◌, map,
  arith, ltb, length, length-append, All, All-append, Option-cases, Bool-cases,
}
use llm_home_lab.Base.Int.{ℤ}
use llm_home_lab.Dict.{Dict, lookup, remove, All-lookup}
use llm_home_lab.State.{Session, StoredMessage, Summary}
use llm_home_lab.Context.{
  AssembledContext, raw_message, kept_messages, assemble_context, MessageKey, SummaryKey, CacheKey,
  message_key, cache_key, key_eq, ContextCache, empty, pop_first, move_to_end, assemble,
}

pub stored : MessageKey → StoredMessage
stored m = record { seq = m.seq; role = m.role; content = m.content; created_at = "" }

pub key_summary : Option SummaryKey → Option Summary
key_summary none = none
key_summary (some k) = some (record {
  covers_up_to_seq = k.covers_up_to_seq;
  summary_text = k.summary_text;
  created_at = "";
})

-- A session with the key's messages and summary.
unfoldable pub of_key : CacheKey → Session
of_key k = record {
  session_id = k.session_id;
  messages = map stored k.messages_key;
  summary = key_summary k.summary_key;
}

raw-of_key :
    (ms : List StoredMessage)
    → map raw_message (map stored (map message_key ms)) ≡ map raw_message ms
unfolding stored
raw-of_key [] = refl
raw-of_key (m ∷ ms) = ap (λ k. raw_message m ∷ k) (raw-of_key ms)

assemble_context-of_key :
    (s : Session) (b : ℤ) → assemble_context (of_key (cache_key s b)) b ≡ assemble_context s b
unfolding assemble_context of_key key_summary kept_messages
assemble_context-of_key s b = elim (Option-cases s.summary) [
  | inl no_summary ↦ rw (no_summary, raw-of_key s.messages) refl
  | inr (x, with_summary) ↦ rw (with_summary, raw-of_key s.messages) refl
]

abbrev Good : CacheKey × AssembledContext → Type 0
Good e = e.1 ≡ assemble_context (of_key (e.0)) (e.0).token_budget

All-remove :
    (k : CacheKey) (d : Dict CacheKey AssembledContext) → All Good d → All Good (remove k d)
unfolding remove
All-remove k [] h = tt
All-remove k ((j, v) ∷ d) h = ground (arith, All-remove k d h.1, h.0)

length-remove : (k : CacheKey) (d : Dict CacheKey AssembledContext) → length (remove k d) ≤ length d
unfolding remove
length-remove k [] = omega arith
length-remove k ((j, v) ∷ d) = ground (arith, length-remove k d)

length-remove_found :
    (k : CacheKey) (d : Dict CacheKey AssembledContext) (v : AssembledContext)
    → lookup k d ≡ some v
    → length (remove k d) + 1 ≤ length d
unfolding remove lookup
length-remove_found k [] v h = absurd (cc)
length-remove_found k ((j, w) ∷ d) v h =
    ground (arith, length-remove k d, length-remove_found k d v)

pub record IsValid (c : ContextCache) : Type 0 where
  pub good :
      All
        (λ (e : CacheKey × AssembledContext).
          e.1 ≡ assemble_context (of_key (e.0)) (e.0).token_budget)
        c.entries
  pub bounded : length c.entries ≤ c.max_entries

All-move_to_end :
    (k : CacheKey) (v : AssembledContext) (d : Dict CacheKey AssembledContext)
    → Good (k, v)
    → All Good d
    → All Good (move_to_end k v d)
unfolding move_to_end
All-move_to_end k v d g h = All-append Good (remove k d) ((k, v) ∷ []) (All-remove k d h) (g, tt)

All-pop_first : (d : Dict CacheKey AssembledContext) → All Good d → All Good (pop_first d)
All-pop_first [] h = tt
All-pop_first (e ∷ d) h = h.1

length-move_to_end :
    (k : CacheKey) (v : AssembledContext) (d : Dict CacheKey AssembledContext)
    → length (move_to_end k v d) ≡ length (remove k d) + 1
unfolding move_to_end
length-move_to_end k v d = length-append (remove k d) ((k, v) ∷ [])

length-pop_first : (d : Dict CacheKey AssembledContext) → length (pop_first d) ≡ length d - 1
length-pop_first [] = omega arith
length-pop_first (e ∷ d) = omega arith

assemble_lem :
    (s : Session) (b : ℤ) (c : ContextCache)
    → IsValid c
    → ((assemble s b c).0 ≡ assemble_context s b)
      × IsValid ((assemble s b c).1)
      × ((assemble s b c).1.hits + (assemble s b c).1.misses ≡ c.hits + c.misses + 1)
      × ((assemble s b c).1.max_entries ≡ c.max_entries)
unfolding assemble
assemble_lem s b c v = elim (Option-cases (lookup (cache_key s b) c.entries)) [
  | inl miss ↦
      let result = assemble_context s b in
      let key = cache_key s b in
      let all = All-move_to_end key result c.entries (sym (assemble_context-of_key s b)) v.good in
      let size = length-move_to_end key result c.entries in
      (
        rw (assemble, miss) refl,
        rw (assemble, miss)
            (elim (Bool-cases (ltb c.max_entries (length (move_to_end key result c.entries)))) [
              | inl full ↦ record {
                good = rw full (All-pop_first (move_to_end key result c.entries) all);
                bounded = rw full (
                    omega (
                      arith,
                      size,
                      length-pop_first (move_to_end key result c.entries),
                      length-remove key c.entries,
                      v.bounded,
                    ));
              }
              | inr room ↦ record { good = rw room all; bounded = rw room (ground (arith, room)) }
            ]),
        rw (assemble, miss) (omega arith),
        rw (assemble, miss) refl,
      )
  | inr (found, hit) ↦
      let key = cache_key s b in
      let good = All-lookup Good key c.entries found v.good hit in
      (
        rw (assemble, hit) (good ∙ assemble_context-of_key s b),
        rw (assemble, hit)
            (record {
              good = All-move_to_end key found c.entries good v.good;
              bounded = omega (
                arith,
                length-move_to_end key found c.entries,
                length-remove_found key c.entries found hit,
                v.bounded,
              );
            }),
        rw (assemble, hit) (omega arith),
        rw (assemble, hit) refl,
      )
]

pub data Asks : Type 0 where
  asks : Session → ℤ → Asks

unfoldable pub run : List Asks → ContextCache → ContextCache
run [] c = c
run (asks s b ∷ qs) c = let answer = assemble s b c in run qs (answer.1)

runs-IsValid :
    (qs : List Asks) (c : ContextCache)
    → IsValid c
    → IsValid (run qs c)
      × ((run qs c).hits + (run qs c).misses ≡ c.hits + c.misses + length qs)
      × ((run qs c).max_entries ≡ c.max_entries)
unfolding run
runs-IsValid [] c v = (v, omega arith, refl)
runs-IsValid (asks s b ∷ qs) c v =
    let (same, valid, counted, size) = assemble_lem s b c v in
    let (after, counts, sizes) = runs-IsValid qs ((assemble s b c).1) valid in
    (after, omega (arith, counts, counted), sizes ∙ size)

-- After any calls on an empty cache, a call returns what `assemble_context` returns for the session
-- and the budget, the cache holds at most `max_entries` results, and its hits and misses add up to
-- the number of the calls.
pub assemble-run :
    (max_entries : ℕ) (qs : List Asks) (s : Session) (b : ℤ)
    → let c = run qs (empty max_entries) in
      ((assemble s b c).0 ≡ assemble_context s b)
      × (length c.entries ≤ max_entries)
      × (c.hits + c.misses ≡ length qs)
assemble-run n qs s b =
    let start : IsValid (empty n) = record { good = tt; bounded = omega arith } in
    let (valid, counted, size) = runs-IsValid qs (empty n) start in
    let (same, after, more, kept) = assemble_lem s b (run qs (empty n)) valid in
    (same, omega (arith, valid.bounded, size), omega (arith, counted))
