-- ===== src/Backends/Collecting.antt =====
-- What the two clients make of a stream of chunks and of the models' list, and the names that LM Studio
-- gives a model in turn: `complete`, `list_models`, `check_health` and `_resolve_model` of
-- src/llm_home_lab/backends/llamaserver.py and lmstudio.py.
use llm_home_lab.Base.{
  ℕ, ◌+◌, ◌-◌, ◌/◌, ◌%◌, String, Bool, false, Option, none, some, List, [], ◌∷◌, map, filter,
  length, if◌then◌else◌, ◌==◌, string_eq, nat_eq,
}
use llm_home_lab.Base.Text.{append_text}
use llm_home_lab.Dict.{Dict, lookup, insert}
use llm_home_lab.Backends.{Usage, BackendResponse, BackendChunk, StreamError}

pub record Collected : Type 0 where
  pub content : String
  pub finish_reason : String
  pub usage : Option Usage

abbrev pub nothing_yet : Collected
nothing_yet = record { content = ""; finish_reason = "stop"; usage = none }

abbrev pub or_kept {ℓ} : {A : Type ℓ} → Option A → A → A
or_kept none a = a
or_kept (some b) a = b

-- The body of the loop of `complete`; an empty content adds nothing to the text.
unfoldable pub collect_chunk : BackendChunk → Collected → Collected
collect_chunk c k = record {
  content = append_text k.content c.content;
  finish_reason = or_kept c.finish_reason k.finish_reason;
  usage = elim (c.usage) [ none ↦ k.usage | some u ↦ some u ];
}

unfoldable pub collect : List BackendChunk → Collected → Collected
collect [] k = k
collect (c ∷ cs) k = collect cs (collect_chunk c k)

pub data Completion : Type 0 where
  completed : BackendResponse → Completion
  failed : StreamError → Completion

abbrev pub counted : Option Usage → Usage
counted none = record { prompt_tokens = 0; completion_tokens = 0 }
counted (some u) = u

abbrev pub response_of : String → Collected → BackendResponse
response_of model k = record {
  model = model;
  content = k.content;
  finish_reason = k.finish_reason;
  prompt_tokens = (counted k.usage).prompt_tokens;
  completion_tokens = (counted k.usage).completion_tokens;
}

-- `complete`, of the stream that it reads to the end.
unfoldable pub complete : String → List BackendChunk × Option StreamError → Completion
complete model (chunks, some e) = failed e
complete model (chunks, none) = completed (response_of model (collect chunks nothing_yet))

-- The answer to a GET: none is a transport error.
unfoldable pub check_health : Option ℕ → Bool
check_health none = false
check_health (some status) = status / 100 == 2

pub record ModelEntry : Type 0 where
  pub id : String
  pub state : Option String

abbrev pub is_loaded : ModelEntry → Bool
is_loaded m = elim (m.state) [ none ↦ false | some s ↦ s == "loaded" ]

unfoldable pub list_models : Option (ℕ × List ModelEntry) → Option (List String)
list_models none = none
list_models (some (status, data_list)) =
    if status / 100 == 2 then some (map (λ m. m.id) data_list) else none

unfoldable pub list_loaded_models : Option (ℕ × List ModelEntry) → Option (List String)
list_loaded_models none = none
list_loaded_models (some (status, data_list)) =
    if status / 100 == 2 then some (map (λ m. m.id) (filter is_loaded data_list)) else none

-- `names[i]`, which is in range here.
unfoldable pub nth : List String → ℕ → Option String
nth [] i = none
nth (x ∷ xs) i = if i == 0 then some x else nth xs (i - 1)

abbrev pub cursor_of : String → Dict String ℕ → ℕ
cursor_of model cursor = elim (lookup model cursor) [ none ↦ 0 | some i ↦ i ]

unfoldable pub resolve_among : String → List String → Dict String ℕ → Option String × Dict String ℕ
resolve_among model [] cursor = (some model, cursor)
resolve_among model (a ∷ aliases) cursor =
    let index = cursor_of model cursor % length (a ∷ aliases) in
    (nth (a ∷ aliases) index, insert model (index + 1) cursor)

-- `_resolve_model`, with the index in the next one's place; an index out of range would be `none`.
unfoldable pub resolve_model :
    Dict String (List String) → String → Dict String ℕ → Option String × Dict String ℕ
resolve_model model_aliases model cursor = elim (lookup model model_aliases) [
  | none ↦ (some model, cursor)
  | some aliases ↦ resolve_among model aliases cursor
]
