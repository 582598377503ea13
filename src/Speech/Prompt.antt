-- ===== src/Speech/Prompt.antt =====
-- How long the text of a reply waits in internal/voice/speech_planner.go, while deltas come.
use agent_server.Prelude.{
  ℕ, zero, suc, ◌+◌, ◌≡◌, inl, inr, true, false, Bool-cases, List, [], ◌∷◌, ◌++◌, length, is_empty,
  Option, none, some, pos, ◌≤ℤ◌, ◌<ℤ◌, leb_ℤ, arith,
}
use agent_server.Text.{Text, trim_space}
use agent_server.Text.Trim.{IsTrimmed, trim_space-IsTrimmed}
use agent_server.Speech.{
  SpeechPlanner, Planned, Drained, new_speech_planner, drain_loop, drain_clauses, keep_drained,
  and_then, observe_text_delta_clauses, observe_deltas,
}
use agent_server.Speech.Boundary.{SpeechPlannerConfig, normalize_speech_planner_config}
use agent_server.Speech.Clause.{PlannedSpeechClause, next_planned_speech_clause}
use agent_server.Speech.Cut.{IsNormal, normalize-IsNormal}
use agent_server.Speech.Spoken.{observe_deltas-Returns}
use agent_server.Speech.Advance.{is_blank, next_clause-Splits, prompt_clause}

-- Sizes with which no sum wraps.
abbrev pub IsSmall : SpeechPlannerConfig → Type 0
IsSmall cfg = cfg.target_chunk_runes ≤ℤ pos 4611686018427387904

-- A text shorter than the target waits.
abbrev pub IsPrompt : SpeechPlannerConfig → Text → Type 0
IsPrompt cfg pending = pos (length pending) <ℤ cfg.target_chunk_runes

abbrev DrainedPrompt : SpeechPlannerConfig → Option Drained → Type 0
DrainedPrompt cfg none = Unit
DrainedPrompt cfg (some d) = IsPrompt cfg d.pending

short_or_long :
    (cfg : SpeechPlannerConfig) (index : ℕ) (pending : Text)
    → IsNormal cfg
    → IsSmall cfg
    → IsTrimmed pending
    → is_empty pending ≡ false
    → is_blank ((next_planned_speech_clause cfg false true index pending).0).text ≡ true
    → IsPrompt cfg pending
short_or_long cfg index pending normal small t k blank =
    elim (Bool-cases (leb_ℤ cfg.target_chunk_runes (pos (length pending)))) [
      | inr short ↦ ground arith
      | inl long ↦
          cc (blank, prompt_clause cfg index pending normal small (rw t k) (rw t (ground arith)))
    ]

drain_loop-prompt :
    (cfg : SpeechPlannerConfig) (fuel : ℕ) (pending : Text) (index : ℕ)
    (clauses : List PlannedSpeechClause)
    → IsNormal cfg
    → IsSmall cfg
    → IsTrimmed pending
    → is_empty pending ≡ false
    → DrainedPrompt cfg (drain_loop cfg false fuel pending index clauses)
unfolding drain_loop
drain_loop-prompt cfg zero pending index clauses normal small t k = tt
drain_loop-prompt cfg (suc fuel) pending index clauses normal small t k =
    let next = next_planned_speech_clause cfg false true index pending in
    let split = next_clause-Splits cfg false true index pending in
    elim (Bool-cases (is_blank (next.0).text)) [
      | inl blank ↦ rw blank (short_or_long cfg index pending normal small t k blank)
      | inr more ↦ elim (Bool-cases (is_empty next.1)) [
        | inl done ↦ rw (more, done) (omega arith)
        | inr on ↦
            rw (more, on)
              (drain_loop-prompt cfg fuel next.1 (index + 1) (clauses ++ next.0 ∷ []) normal small
                split.trimmed on)
      ]
    ]

-- What holds of a planner between the deltas.
pub record IsReady (p : SpeechPlanner) : Type 0 where
  pub normal : IsNormal p.cfg
  pub small : IsSmall p.cfg
  pub prompt : IsPrompt p.cfg p.pending

abbrev pub PlannedReady : Option Planned → Type 0
PlannedReady none = Unit
PlannedReady (some (p, clauses)) = IsReady p

kept_ready :
    (p : SpeechPlanner) (result : Option Drained)
    → IsNormal p.cfg
    → IsSmall p.cfg
    → DrainedPrompt p.cfg result
    → PlannedReady (keep_drained p result)
kept_ready p none normal small h = tt
kept_ready p (some d) normal small h = record { normal = normal; small = small; prompt = h }

drain_clauses-ready :
    (p : SpeechPlanner) → IsNormal p.cfg → IsSmall p.cfg → PlannedReady (drain_clauses false p)
unfolding drain_clauses
drain_clauses-ready p normal small =
    let pending = trim_space p.pending in
    elim (Bool-cases (is_empty pending)) [
      | inl blank ↦ rw blank (record { normal = normal; small = small; prompt = omega arith })
      | inr more ↦ rw more (
          kept_ready p
            (drain_loop p.cfg false (suc (length pending)) pending p.next_clause_index []) normal
            small
            (drain_loop-prompt p.cfg (suc (length pending)) pending p.next_clause_index [] normal
              small (trim_space-IsTrimmed p.pending) more))
    ]

observe-ready :
    (text : Text) (p : SpeechPlanner) → IsReady p → PlannedReady (observe_text_delta_clauses text p)
unfolding observe_text_delta_clauses
observe-ready text p ready = elim (Bool-cases (is_blank text)) [
  | inl blank ↦ rw blank ready
  | inr more ↦ rw more (
      drain_clauses-ready (record p { observed = p.observed ++ text; pending = p.pending ++ text })
        ready.normal ready.small)
]

and_then-ready :
    (clauses : List PlannedSpeechClause) (f : Planned → Option Planned) (result : Option Planned)
    → PlannedReady result
    → ((p : SpeechPlanner) (more : List PlannedSpeechClause)
        → IsReady p
        → PlannedReady (f (p, more)))
    → PlannedReady (and_then clauses f result)
and_then-ready clauses f none h k = tt
and_then-ready clauses f (some (p, new)) h k = k p (clauses ++ new) h

observe_deltas-ready :
    (deltas : List Text) (p : SpeechPlanner) (clauses : List PlannedSpeechClause)
    → IsReady p
    → PlannedReady (observe_deltas deltas (p, clauses))
unfolding observe_deltas
observe_deltas-ready [] p clauses ready = ready
observe_deltas-ready (text ∷ deltas) p clauses ready =
    and_then-ready clauses (observe_deltas deltas) (observe_text_delta_clauses text p)
      (observe-ready text p ready) (observe_deltas-ready deltas)

new-IsReady :
    (cfg : SpeechPlannerConfig)
    → IsSmall (normalize_speech_planner_config cfg)
    → IsReady (new_speech_planner cfg)
unfolding new_speech_planner
new-IsReady cfg small = record {
  normal = normalize-IsNormal cfg;
  small = small;
  prompt = begin (normalize_speech_planner_config cfg) (normalize-IsNormal cfg);
}
  where
    begin : (c : SpeechPlannerConfig) → IsNormal c → IsPrompt c []
    begin c normal = omega arith

-- After any deltas on a new planner the calls have returned, and the text that waits is shorter than
-- the target of the settings, whatever the deltas are. (The target is at most 2 ^ 62 runes.)
pub observe_deltas_prompt :
    (cfg : SpeechPlannerConfig) (deltas : List Text)
    → (normalize_speech_planner_config cfg).target_chunk_runes ≤ℤ pos 4611686018427387904
    → (p : SpeechPlanner) × (clauses : List PlannedSpeechClause) × (observe_deltas deltas
          (new_speech_planner cfg, [])
        ≡ some (p, clauses))
      × (pos (length p.pending) <ℤ (normalize_speech_planner_config cfg).target_chunk_runes)
unfolding new_speech_planner
observe_deltas_prompt cfg deltas small =
    let (p, clauses, e, _, plans) = observe_deltas-Returns deltas (new_speech_planner cfg) [] in
    let ready : IsReady p =
      rw e at (observe_deltas-ready deltas (new_speech_planner cfg) [] (new-IsReady cfg small)) in
    (p, clauses, e, rw plans.settled at ready.prompt)
