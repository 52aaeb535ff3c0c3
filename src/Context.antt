-- ===== src/Context.antt =====
-- src/llm_home_lab/context: models.py, assembler.py and cache.py. The messages of a session are cut to
-- a token budget, and the result is kept in a cache of the last used keys.
mod Assembly
mod Caching
mod Examples
use Prim.Native.String.{String as Text}
use llm_home_lab.Base.{
  ℕ, ◌+◌, ◌-◌, ◌/◌, String, ◌≡◌, Bool, true, false, ◌&&◌, ◌||◌, Option, none, some, List, [], ◌∷◌,
  ◌++◌, map, leb, ltb, suc, ◌↔◌, arith, eq_iff, if◌then◌else◌, Equality, ◌==◌, string_eq, nat_eq,
  length,
}
use llm_home_lab.Base.Int.{ℤ, ◌+ℤ◌, pos, negsuc, sub_ℕ, leb_ℤ, ltb_ℤ, pos_part, neg_part}
use llm_home_lab.Base.Compound.{
  list_eq, option_eq, int_eq, list_same_iff, option_same_iff, int_same_iff,
}
use llm_home_lab.Base.Text.{append_text}
use llm_home_lab.Dict.{Dict, lookup, remove}
use llm_home_lab.State.{Session, StoredMessage, Summary}

pub record Message : Type 0 where
  pub role : String
  pub content : String

pub record AssembledContext : Type 0 where
  pub messages : List Message
  pub compacted : Bool
  pub dropped_message_count : ℕ

-- `len(s)`
unfoldable pub char_count : String → ℕ
char_count Text.[] = 0
char_count (Text.◌∷◌ c s) = suc (char_count s)

abbrev pub total_chars : List Message → ℕ
total_chars [] = 0
total_chars (m ∷ ms) = char_count m.content + total_chars ms

-- A quarter of the characters, rounded up.
unfoldable pub estimate_tokens : List Message → ℕ
estimate_tokens messages = (total_chars messages + 3) / 4

abbrev pub summary_message : Option Summary → List Message
summary_message none = []
summary_message (some s) =
    record {
      role = "system";
      content = append_text "Summary of earlier conversation: " s.summary_text;
    }
    ∷ []

abbrev pub raw_message : StoredMessage → Message
raw_message m = record { role = m.role; content = m.content }

-- `a - b` of integers.
abbrev pub less : ℤ → ℕ → ℤ
less a n = sub_ℕ (pos_part a) (neg_part a + n)

-- `reversed(xs)`, before the messages `ys`.
abbrev pub reversed : List Message → List Message → List Message
reversed [] ys = ys
reversed (x ∷ xs) ys = reversed xs (x ∷ ys)

-- The loop over the messages from the last to the first; `kept` is what it has so far.
unfoldable pub keep_from : List Message → List Message → ℤ → List Message
keep_from [] kept remaining = kept
keep_from (m ∷ ms) kept remaining =
    let cost = estimate_tokens (m ∷ []) in
    let more = keep_from ms (m ∷ kept) (less remaining cost) in
    elim kept [ [] ↦ more | k ∷ ks ↦ if ltb_ℤ remaining (pos cost) then k ∷ ks else more ]

unfoldable pub kept_messages : Option Summary → List Message → ℤ → List Message
kept_messages summary raw token_budget =
    keep_from (reversed raw []) [] (less token_budget (estimate_tokens (summary_message summary)))

unfoldable pub assemble_context : Session → ℤ → AssembledContext
assemble_context session token_budget =
    let head = summary_message session.summary in
    let raw = map raw_message session.messages in
    let kept = kept_messages session.summary raw token_budget in
    let dropped = length raw - length kept in
    if leb_ℤ (pos (estimate_tokens (head ++ raw))) token_budget
    then record { messages = head ++ raw; compacted = false; dropped_message_count = 0 }
    else record {
      messages = head ++ kept;
      compacted = ltb 0 dropped;
      dropped_message_count = dropped;
    }

-- The parts of a key, which the source keeps as tuples.
pub record MessageKey : Type 0 where
  pub seq : ℕ
  pub role : String
  pub content : String

pub record SummaryKey : Type 0 where
  pub covers_up_to_seq : ℤ
  pub summary_text : String

pub record CacheKey : Type 0 where
  pub session_id : String
  pub messages_key : List MessageKey
  pub summary_key : Option SummaryKey
  pub token_budget : ℤ

abbrev pub message_key : StoredMessage → MessageKey
message_key m = record { seq = m.seq; role = m.role; content = m.content }

abbrev pub summary_key : Option Summary → Option SummaryKey
summary_key none = none
summary_key (some s) =
    some (record { covers_up_to_seq = s.covers_up_to_seq; summary_text = s.summary_text })

abbrev pub cache_key : Session → ℤ → CacheKey
cache_key session token_budget = record {
  session_id = session.session_id;
  messages_key = map message_key session.messages;
  summary_key = summary_key session.summary;
  token_budget = token_budget;
}

pub record ContextCache : Type 0 where
  pub max_entries : ℕ
  pub entries : Dict CacheKey AssembledContext
  pub hits : ℕ
  pub misses : ℕ
  pub compaction_count : ℕ

-- `ContextCache(max_entries)`
abbrev pub empty : ℕ → ContextCache
empty max_entries = record {
  max_entries = max_entries;
  entries = [];
  hits = 0;
  misses = 0;
  compaction_count = 0;
}

-- `popitem(last=False)`
abbrev pub pop_first : Dict CacheKey AssembledContext → Dict CacheKey AssembledContext
pop_first [] = []
pop_first (e ∷ es) = es

abbrev pub message_same : MessageKey → MessageKey → Bool
message_same j k = j.seq == k.seq && j.role == k.role && j.content == k.content

pub message_same_iff : (j k : MessageKey) → (message_same j k ≡ true) ↔ (j ≡ k)
message_same_iff j k =
    ground (arith, nat_eq.agrees j.seq k.seq, eq_iff j.role k.role, eq_iff j.content k.content)

instance abbrev pub message_eq : Equality MessageKey
message_eq = record { same = message_same; agrees = message_same_iff }

abbrev pub summary_same : SummaryKey → SummaryKey → Bool
summary_same j k = j.covers_up_to_seq == k.covers_up_to_seq && j.summary_text == k.summary_text

pub summary_same_iff : (j k : SummaryKey) → (summary_same j k ≡ true) ↔ (j ≡ k)
summary_same_iff j k = ground (
  arith,
  int_eq.agrees j.covers_up_to_seq k.covers_up_to_seq,
  eq_iff j.summary_text k.summary_text,
)

instance abbrev pub summary_eq : Equality SummaryKey
summary_eq = record { same = summary_same; agrees = summary_same_iff }

-- Keys are tuples, compared part by part.
abbrev pub key_same : CacheKey → CacheKey → Bool
key_same j k =
    j.session_id == k.session_id
    && j.messages_key == k.messages_key
    && j.summary_key == k.summary_key
    && j.token_budget == k.token_budget

pub key_same_iff : (j k : CacheKey) → (key_same j k ≡ true) ↔ (j ≡ k)
key_same_iff j k = ground (
  arith,
  eq_iff j.session_id k.session_id,
  list_same_iff j.messages_key k.messages_key,
  option_same_iff j.summary_key k.summary_key,
  int_same_iff j.token_budget k.token_budget,
)

instance abbrev pub key_eq : Equality CacheKey
key_eq = record { same = key_same; agrees = key_same_iff }

unfoldable pub move_to_end :
    CacheKey → AssembledContext → Dict CacheKey AssembledContext → Dict CacheKey AssembledContext
move_to_end key value entries = remove key entries ++ (key, value) ∷ []

unfoldable pub assemble : Session → ℤ → ContextCache → AssembledContext × ContextCache
assemble session token_budget c =
    let key = cache_key session token_budget in
    elim (lookup key c.entries) [
      | some found ↦
          (found, record c { hits = c.hits + 1; entries = move_to_end key found c.entries })
      | none ↦
          let result = assemble_context session token_budget in
          let entries = move_to_end key result c.entries in
          (
            result,
            record c {
              misses = c.misses + 1;
              compaction_count = c.compaction_count + (if result.compacted then 1 else 0);
              entries = if ltb c.max_entries (length entries) then pop_first entries else entries;
            },
          )
    ]
