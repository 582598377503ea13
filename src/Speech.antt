-- ===== src/Speech.antt =====
-- The planner that cuts the text of a reply into clauses to speak, while the text still comes:
-- SpeechPlanner of internal/voice/speech_planner.go.
pub mod Boundary
pub mod Clause
pub mod Cut
pub mod Segment
pub mod Advance
pub mod Drain
pub mod Reply
pub mod Spoken
pub mod Tail
pub mod Final
pub mod Prompt
pub mod Synthesis
pub mod Queue
pub mod Channels
pub mod Start
mod Tests
mod RunTests
use agent_server.Prelude.{
  ℕ, zero, suc, ◌+◌, Bool, true, false, not, List, [], ◌∷◌, ◌++◌, map, if◌then◌else◌, length,
  is_empty, Option, none, some, ◌==◌, ◌≡◌, refl, drop, pos,
}
use agent_server.Text.{Text, trim_space, codes}
use Boundary.{SpeechPlannerConfig, normalize_speech_planner_config}
use Clause.{
  SpeechClauseBoundaryKind, final_flush, PlannedSpeechClause, next_planned_speech_clause,
  classify_planned_speech_clause,
}

pub record SpeechPlanner : Type 0 where
  pub cfg : SpeechPlannerConfig
  pub observed : Text
  pub pending : Text
  pub next_clause_index : ℕ

unfoldable pub new_speech_planner : SpeechPlannerConfig → SpeechPlanner
unfolding normalize_speech_planner_config
new_speech_planner cfg = record {
  cfg = normalize_speech_planner_config cfg;
  observed = [];
  pending = [];
  next_clause_index = 0;
}

-- The text that waits, the index of the next clause, and the clauses so far.
pub record Drained : Type 0 where
  pub pending : Text
  pub next_clause_index : ℕ
  pub clauses : List PlannedSpeechClause

-- The `for` loop of drainClauses, on fuel: `none` if it runs out.
unfoldable pub drain_loop :
    SpeechPlannerConfig → Bool → ℕ → Text → ℕ → List PlannedSpeechClause → Option Drained
drain_loop cfg flush zero pending index clauses = none
drain_loop cfg flush (suc fuel) pending index clauses =
    let next = next_planned_speech_clause cfg flush (not flush) index pending in
    let more = drain_loop cfg flush fuel next.1 (index + 1) (clauses ++ next.0 ∷ []) in
    if is_empty (trim_space (next.0).text)
    then some (record { pending = pending; next_clause_index = index; clauses = clauses })
    else if is_empty next.1
    then some
        (record { pending = []; next_clause_index = index + 1; clauses = clauses ++ next.0 ∷ [] })
    else more

abbrev pub Planned : Type 0
Planned = SpeechPlanner × List PlannedSpeechClause

abbrev pub keep_drained : SpeechPlanner → Option Drained → Option Planned
keep_drained p none = none
keep_drained p (some d) =
    some (record p { pending = d.pending; next_clause_index = d.next_clause_index }, d.clauses)

-- A round takes a rune of the text that waits, or ends the loop: a round for each and one more are
-- enough.
unfoldable pub drain_clauses : Bool → SpeechPlanner → Option Planned
drain_clauses flush p =
    let pending = trim_space p.pending in
    if is_empty pending
    then some (record p { pending = [] }, [])
    else keep_drained p
        (drain_loop p.cfg flush (suc (length pending)) pending p.next_clause_index [])

unfoldable pub observe_text_delta_clauses : Text → SpeechPlanner → Option Planned
observe_text_delta_clauses text p =
    if is_empty (trim_space text)
    then some (p, [])
    else drain_clauses false
        (record p { observed = p.observed ++ text; pending = p.pending ++ text })

-- How many runes the two texts begin with in common.
unfoldable pub common_length : Text → Text → ℕ
common_length [] final = 0
common_length (c ∷ observed) [] = 0
common_length (c ∷ observed) (d ∷ final) =
    let more = common_length observed final in if c == d then suc more else 0

unfoldable pub planner_remaining_tail : Text → Text → Text
planner_remaining_tail observed final =
    if is_empty (trim_space final)
    then []
    else if is_empty observed
    then final
    else drop (common_length observed final) final

unfoldable pub next_clause :
    Text → SpeechClauseBoundaryKind → Bool → SpeechPlanner → SpeechPlanner × PlannedSpeechClause
unfolding classify_planned_speech_clause
next_clause text boundary can_start p = (
  record p { next_clause_index = p.next_clause_index + 1 },
  record (classify_planned_speech_clause text boundary can_start) { index = p.next_clause_index },
)

-- What finalising does once the loop is done: a rest becomes the last clause.
unfoldable pub flush_rest : Planned → Planned
flush_rest (p, clauses) =
    let remaining = trim_space p.pending in
    let (p', clause) = next_clause remaining final_flush false p in
    if is_empty remaining
    then (record p { pending = [] }, clauses)
    else (record p' { pending = [] }, clauses ++ clause ∷ [])

abbrev pub map_planned : (Planned → Planned) → Option Planned → Option Planned
map_planned f none = none
map_planned f (some r) = some (f r)

unfoldable pub finalize_text_clauses : Text → SpeechPlanner → Option Planned
finalize_text_clauses text p =
    let tail = planner_remaining_tail p.observed text in
    map_planned flush_rest (
      drain_clauses true (
        if is_empty (trim_space tail)
        then p
        else record p { observed = p.observed ++ tail; pending = p.pending ++ tail }))

-- The trimmed texts of the clauses, the blank ones left out.
unfoldable pub planned_speech_clause_texts : List PlannedSpeechClause → List Text
unfolding trim_space
planned_speech_clause_texts [] = []
planned_speech_clause_texts (c ∷ clauses) =
    let texts = planned_speech_clause_texts clauses in
    if is_empty (trim_space c.text) then texts else trim_space c.text ∷ texts

-- The deltas of a reply one after another, and then its final text: the clauses are handed on as they
-- come (ObserveDelta and Finalize of plannedSpeechSynthesis).
abbrev pub and_then :
    List PlannedSpeechClause → (Planned → Option Planned) → Option Planned → Option Planned
and_then clauses f none = none
and_then clauses f (some (p, new)) = f (p, clauses ++ new)

unfoldable pub observe_deltas : List Text → Planned → Option Planned
observe_deltas [] r = some r
observe_deltas (text ∷ deltas) (p, clauses) =
    and_then clauses (observe_deltas deltas) (observe_text_delta_clauses text p)

unfoldable pub speak_reply : SpeechPlannerConfig → List Text → Text → Option Planned
speak_reply cfg deltas final =
    and_then [] (λ r. and_then r.1 (λ w. some w) (finalize_text_clauses final r.0))
      (observe_deltas deltas (new_speech_planner cfg, []))
