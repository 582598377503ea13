-- ===== src/Memory/Scopes.antt =====
-- The records and the queries of a memory, and the scopes that they name: MemoryRecord and MemoryQuery
-- of internal/agent/contracts.go, memoryScopes of internal/agent/runtime_backends.go.
use agent_server.Prelude.{Bool, List, [], ◌∷◌, ◌++◌, if◌then◌else◌, is_empty, any}
use agent_server.Text.{Text, codes, text_eq, trim_space}

pub record MemoryRecord : Type 0 where
  pub turn_id : Text
  pub session_id : Text
  pub device_id : Text
  pub client_type : Text
  pub user_id : Text
  pub room_id : Text
  pub household_id : Text
  pub user_text : Text
  pub response_text : Text
  pub delivered_text : Text
  pub heard_text : Text
  pub response_interrupted : Bool
  pub response_truncated : Bool
  pub playback_completed : Bool
  pub metadata : List (Text × Text)

pub record MemoryQuery : Type 0 where
  pub session_id : Text
  pub device_id : Text
  pub client_type : Text
  pub user_id : Text
  pub room_id : Text
  pub household_id : Text
  pub user_text : Text
  pub metadata : List (Text × Text)

pub record MemoryScope : Type 0 where
  pub kind : Text
  pub id : Text
  pub key : Text
  pub label : Text

-- appendScope, in front of the later scopes.
unfoldable pub scope_for : Text → Text → List MemoryScope → List MemoryScope
scope_for kind id later =
    let trimmed = trim_space id in
    if is_empty trimmed
    then later
    else record {
      kind = kind;
      id = trimmed;
      key = kind ++ codes ":" ++ trimmed;
      label = kind ++ codes " " ++ trimmed;
    }
      ∷ later

-- The scopes whose keys were not seen before.
unfoldable pub dedupe_onto : List Text → List MemoryScope → List MemoryScope
dedupe_onto seen [] = []
dedupe_onto seen (scope ∷ scopes) =
    let known = any (text_eq scope.key) seen in
    let later = dedupe_onto (if known then seen else scope.key ∷ seen) scopes in
    if known then later else scope ∷ later

unfoldable pub dedupe_memory_scopes : List MemoryScope → List MemoryScope
dedupe_memory_scopes scopes = dedupe_onto [] scopes

unfoldable pub memory_scopes : Text → Text → Text → Text → Text → List MemoryScope
memory_scopes session_id device_id user_id room_id household_id = dedupe_memory_scopes (
    scope_for (codes "session") session_id (
      scope_for (codes "user") user_id (
        scope_for (codes "device") device_id
          (scope_for (codes "room") room_id (scope_for (codes "household") household_id [])))))

unfoldable pub memory_query_scopes : MemoryQuery → List MemoryScope
memory_query_scopes q = memory_scopes q.session_id q.device_id q.user_id q.room_id q.household_id

unfoldable pub memory_record_scopes : MemoryRecord → List MemoryScope
memory_record_scopes r = memory_scopes r.session_id r.device_id r.user_id r.room_id r.household_id
