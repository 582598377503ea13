-- ===== src/Memory/Context.antt =====
-- What a turn is told of the turns before it: LoadTurnContext of internal/agent/runtime_backends.go.
-- The verb %q of package fmt is a parameter.
use agent_server.Prelude.{
  ℕ, ◌+◌, ◌-◌, Bool, List, [], ◌∷◌, ◌++◌, if◌then◌else◌, is_empty, length, reverse, drop, take, pos,
  pos_part, ltb_ℤ,
}
use agent_server.Text.{Text, codes, trim_space, format_int}
use agent_server.Memory.{InMemoryMemoryStore}
use agent_server.Memory.Scopes.{MemoryRecord, MemoryQuery, MemoryScope, memory_query_scopes}

pub record MemoryFact : Type 0 where
  pub key : Text
  pub value : Text
  pub source : Text

-- Of ChatMessage, what the memory sets.
pub record ChatMessage : Type 0 where
  pub role : Text
  pub content : Text

pub record MemoryContext : Type 0 where
  pub scope : Text
  pub summary : Text
  pub facts : List MemoryFact
  pub recent_messages : List ChatMessage

pub record MemoryScopedRecords : Type 0 where
  pub scope : MemoryScope
  pub records : List MemoryRecord

abbrev pub empty_context : MemoryContext
empty_context = record { scope = []; summary = []; facts = []; recent_messages = [] }

unfoldable pub memory_assistant_text : MemoryRecord → Text
memory_assistant_text r =
    if is_empty (trim_space r.heard_text)
    then if r.playback_completed
      then if is_empty (trim_space r.delivered_text)
        then trim_space r.response_text
        else trim_space r.delivered_text
      else []
    else trim_space r.heard_text

abbrev pub message_if : Bool → Text → Text → List ChatMessage
message_if blank role content = if blank then [] else record { role = role; content = content } ∷ []

abbrev pub record_messages : MemoryRecord → List ChatMessage
record_messages r =
    message_if (is_empty (trim_space r.user_text)) (codes "user") r.user_text
    ++ message_if (is_empty (memory_assistant_text r)) (codes "assistant") (memory_assistant_text r)

abbrev pub messages_of : List MemoryRecord → List ChatMessage
messages_of [] = []
messages_of (r ∷ records) = record_messages r ++ messages_of records

unfoldable pub recent_messages : InMemoryMemoryStore → List MemoryRecord → List ChatMessage
recent_messages s records = messages_of (
    if ltb_ℤ (pos (length records)) s.recent_turn_span
    then records
    else drop (length records - pos_part s.recent_turn_span) records)

-- The scopes of the query that have records.
unfoldable pub available_scopes : InMemoryMemoryStore → List MemoryScope → List MemoryScopedRecords
available_scopes s [] = []
available_scopes s (scope ∷ scopes) =
    let records = s.records_by_scope scope.key in
    let later = available_scopes s scopes in
    if is_empty records then later else record { scope = scope; records = records } ∷ later

abbrev in_memory_fact : Text → Text → MemoryFact
in_memory_fact key value = record { key = key; value = value; source = codes "in_memory" }

abbrev fact_if : Bool → Text → Text → List MemoryFact
fact_if blank key value = if blank then [] else in_memory_fact key value ∷ []

abbrev count_text : ℕ → Text
count_text n = format_int (pos n)

abbrev last_record : MemoryRecord → List MemoryRecord → MemoryRecord
last_record r [] = r
last_record r (e ∷ records) = last_record e records

abbrev latest_facts : MemoryRecord → List MemoryFact
latest_facts r =
    fact_if (is_empty (trim_space r.user_text)) (codes "last_user_text") r.user_text
    ++ fact_if (is_empty (trim_space r.response_text)) (codes "last_response_text") r.response_text
    ++ fact_if (is_empty (memory_assistant_text r)) (codes "last_heard_text")
        (memory_assistant_text r)

abbrev count_facts : List MemoryScopedRecords → List MemoryFact
count_facts [] = []
count_facts (scoped ∷ available) =
    in_memory_fact ((scoped.scope).kind ++ codes "_turn_count") (count_text (length scoped.records))
    ∷ count_facts available

-- The three latest records, from the newest on.
abbrev ordinal_facts : ℕ → List MemoryRecord → List MemoryFact
ordinal_facts n [] = []
ordinal_facts n (r ∷ newest_first) =
    fact_if (is_empty (trim_space r.user_text)) (codes "recent_user_" ++ count_text n) r.user_text
    ++ fact_if (is_empty (memory_assistant_text r)) (codes "recent_response_" ++ count_text n)
        (memory_assistant_text r)
    ++ ordinal_facts (n + 1) newest_first

module _ (quote_text : Text → Text) where
  abbrev summary_of : MemoryScope → ℕ → MemoryRecord → Text
  summary_of scope count latest =
      codes "remembered "
      ++ count_text count
      ++ codes " turn(s) for "
      ++ scope.label
      ++ codes ". most recent user text: "
      ++ quote_text latest.user_text
      ++ codes ". most recent heard response: "
      ++ quote_text (memory_assistant_text latest)
      ++ codes "."

  -- The context of the first scope with records; `older` are its records but the first.
  unfoldable pub context_of :
      InMemoryMemoryStore
      → List MemoryScopedRecords
      → MemoryScope
      → MemoryRecord
      → List MemoryRecord
      → MemoryContext
  context_of s available scope first later =
      let records = first ∷ later in
      let latest = last_record first later in
      record {
        scope = scope.label;
        summary = summary_of scope (length records) latest;
        facts =
            in_memory_fact (codes "recent_turn_count") (count_text (length records))
              ∷ in_memory_fact (codes "memory_scope") scope.label
              ∷ in_memory_fact (codes "memory_scope_kind") scope.kind
              ∷ latest_facts latest
            ++ count_facts available
            ++ ordinal_facts 1 (take 3 (reverse records));
        recent_messages = recent_messages s records;
      }

  abbrev pub context_from :
      InMemoryMemoryStore → List MemoryScopedRecords → List MemoryScopedRecords → MemoryContext
  context_from s available [] = empty_context
  context_from s available (primary ∷ rest) = elim primary.records [
    | [] ↦ empty_context
    | first ∷ later ↦ context_of s available primary.scope first later
  ]

  unfoldable pub load_turn_context : MemoryQuery → InMemoryMemoryStore → MemoryContext
  load_turn_context query s =
      let available = available_scopes s (memory_query_scopes query) in
      context_from s available available
