-- ===== src/Playback/Truthful.antt =====
-- Every outcome of a playback is true to what was delivered: the runs of `SessionOrchestrator` in
-- internal/voice/session_orchestrator.go.
use agent_server.Prelude.{◌≡◌, refl, true, not, List, [], ◌∷◌, Option, none, some, if-cases, arith}
use agent_server.Text.{Text, text_eq}
use agent_server.Floats.{Floats}
use agent_server.Playback.{
  prepare_turn, prepare_at, persist_locked, close_turn, finalize_text_response, update_playback,
  observe_playback_chunk, observe_playback_mark_fact, observe_playback_mark_text_fact,
  observe_playback_completed_fact, record_interruption_policy, interrupt_playback_with_policy,
  interrupt_at, complete_playback_with_source, interrupted_turn, completed_turn,
}
use agent_server.Playback.State.{
  SessionOrchestrator, PlaybackOutcome, PlaybackInterruption, MemoryRecord,
  new_session_orchestrator, idle_interruption, interruption_of, start_playback_with_options,
  observe_playback_started_fact, fresh_turn, finalized_turn,
}
use agent_server.Playback.Policy.{InterruptionPolicy}
use agent_server.Playback.Turn.{TurnRequest, OrchestratedTurn}
use agent_server.Playback.Outcome.{IsTruthful, outcome-IsTruthful}
use agent_server.Playback.Sound.{
  IsSound, fresh-IsSound, started-IsSound, started_fact-IsSound, updated-IsSound, chunk-IsSound,
  mark-IsSound, mark_text-IsSound, completed_fact-IsSound, policy-IsSound, interrupted_lem,
  completed_lem, finalized_lem,
}
use agent_server.Playback.Run.{
  PlaybackOp, prepare_op, finalize_op, start_op, update_op, chunk_op, started_op, mark_op,
  mark_text_op, completed_op, policy_op, interrupt_op, complete_op, playback_step, playback_run,
}

-- The turn, if there is one, is sound, and so is the last outcome.
abbrev SoundTurn : Option OrchestratedTurn → Type 0
SoundTurn none = true ≡ true
SoundTurn (some t) = IsSound t

abbrev pub TruthfulOutcome : Option PlaybackOutcome → Type 0
TruthfulOutcome none = true ≡ true
TruthfulOutcome (some p) = IsTruthful p

record IsConsistent (o : SessionOrchestrator) : Type 0 where
  pub turn : SoundTurn o.turn
  pub outcome : TruthfulOutcome o.last_playback_outcome

-- A turn in progress and its outcomes.
module _ (F : Floats) where
  prepared-IsConsistent :
      (m : Option OrchestratedTurn) (request : TurnRequest) (input response : Text)
      (o : SessionOrchestrator)
      → SoundTurn m
      → TruthfulOutcome o.last_playback_outcome
      → IsConsistent (prepare_at F m request input response o)
  unfolding prepare_at persist_locked
  prepared-IsConsistent none request input response o h k = record {
    turn = fresh-IsSound request input response;
    outcome = k;
  }
  prepared-IsConsistent (some t) request input response o h k =
      if-cases {A = SessionOrchestrator} IsConsistent (text_eq t.request.turn_id request.turn_id) _
        (persist_locked F (fresh_turn request input response) o)
        (λ e. record {
          turn = record { heard = h.heard; unbroken = h.unbroken; whole = h.whole };
          outcome = k;
        })
        (λ e. record { turn = fresh-IsSound request input response; outcome = k })

  interrupted-IsConsistent :
      (policy : InterruptionPolicy) (reason : Text) (t : OrchestratedTurn) (o : SessionOrchestrator)
      → o.turn ≡ some t
      → IsSound t
      → TruthfulOutcome o.last_playback_outcome
      → IsConsistent (interrupt_at F (some t) policy reason o).0
  unfolding interrupt_at close_turn
  interrupted-IsConsistent policy reason t o e h k =
      let u = interrupted_turn F policy reason t in
      if-cases {A = SessionOrchestrator × PlaybackInterruption} (λ r. IsConsistent r.0)
        (not t.playback_active) (o, idle_interruption policy reason)
        (close_turn F u o, interruption_of (idle_interruption policy reason) u)
        (λ a. record { turn = rw e h; outcome = k })
        (λ a.
          let l = interrupted_lem F policy reason t h (ground arith) in
          record { turn = refl; outcome = outcome-IsTruthful F u l.0 l.1 })

  step-IsConsistent :
      (op : PlaybackOp) (turn : Option OrchestratedTurn) (last : Option PlaybackOutcome)
      (saved : List MemoryRecord)
      → SoundTurn turn
      → TruthfulOutcome last
      → IsConsistent
          (playback_step F op (record { turn = turn; last_playback_outcome = last; saved = saved }))
  unfolding playback_step prepare_turn finalize_text_response start_playback_with_options
      update_playback observe_playback_chunk observe_playback_started_fact
      observe_playback_mark_fact observe_playback_mark_text_fact observe_playback_completed_fact
      record_interruption_policy interrupt_playback_with_policy interrupt_at
      complete_playback_with_source persist_locked close_turn
  step-IsConsistent (prepare_op request input response) m last saved h k =
      prepared-IsConsistent m request input response _ h k
  step-IsConsistent (finalize_op delivered) none last saved h k = record { turn = h; outcome = k }
  step-IsConsistent (finalize_op delivered) (some t) last saved h k =
      let e = finalized_lem delivered t h in
      record { turn = refl; outcome = outcome-IsTruthful F (finalized_turn delivered t) e.0 e.1 }
  step-IsConsistent (start_op delivered chunk planned prefer) none last saved h k = record {
    turn = h;
    outcome = k;
  }
  step-IsConsistent (start_op delivered chunk planned prefer) (some t) last saved h k = record {
    turn = started-IsSound delivered chunk planned prefer t;
    outcome = k;
  }
  step-IsConsistent (update_op delivered planned) none last saved h k = record {
    turn = h;
    outcome = k;
  }
  step-IsConsistent (update_op delivered planned) (some t) last saved h k = record {
    turn = updated-IsSound F delivered planned t h;
    outcome = k;
  }
  step-IsConsistent chunk_op none last saved h k = record { turn = h; outcome = k }
  step-IsConsistent chunk_op (some t) last saved h k = record {
    turn = chunk-IsSound F t h;
    outcome = k;
  }
  step-IsConsistent started_op none last saved h k = record { turn = h; outcome = k }
  step-IsConsistent started_op (some t) last saved h k = record {
    turn = started_fact-IsSound t h;
    outcome = k;
  }
  step-IsConsistent (mark_op played) none last saved h k = record { turn = h; outcome = k }
  step-IsConsistent (mark_op played) (some t) last saved h k = record {
    turn = mark-IsSound F played t h;
    outcome = k;
  }
  step-IsConsistent (mark_text_op played heard) none last saved h k = record {
    turn = h;
    outcome = k;
  }
  step-IsConsistent (mark_text_op played heard) (some t) last saved h k = record {
    turn = mark_text-IsSound F played heard t h;
    outcome = k;
  }
  step-IsConsistent completed_op none last saved h k = record { turn = h; outcome = k }
  step-IsConsistent completed_op (some t) last saved h k = record {
    turn = completed_fact-IsSound F t h;
    outcome = k;
  }
  step-IsConsistent (policy_op policy reason) none last saved h k = record { turn = h; outcome = k }
  step-IsConsistent (policy_op policy reason) (some t) last saved h k = record {
    turn = policy-IsSound F policy reason t h;
    outcome = k;
  }
  step-IsConsistent (interrupt_op policy reason) none last saved h k = record {
    turn = h;
    outcome = k;
  }
  step-IsConsistent (interrupt_op policy reason) (some t) last saved h k =
      interrupted-IsConsistent policy reason t _ refl h k
  step-IsConsistent (complete_op source) none last saved h k = record { turn = h; outcome = k }
  step-IsConsistent (complete_op source) (some t) last saved h k =
      let e = completed_lem F source t in
      record { turn = refl; outcome = outcome-IsTruthful F (completed_turn F source t) e.0 e.1 }

  run-IsConsistent :
      (ops : List PlaybackOp) (o : SessionOrchestrator)
      → IsConsistent o
      → IsConsistent (playback_run F ops o)
  unfolding playback_run
  run-IsConsistent [] o h = h
  run-IsConsistent (op ∷ ops) o h =
      run-IsConsistent ops (playback_step F op o)
        (step-IsConsistent op o.turn o.last_playback_outcome o.saved h.turn h.outcome)

-- After any calls on a new orchestrator, in any order and with any arguments, the last outcome, if
-- there is one, is truthful: its heard text begins its delivered text, its missed text is the rest
-- of it, trimmed, its resume anchor is the heard text, its boundary is the one of the two texts, and
-- either the playback completed and was neither interrupted nor truncated, or it was interrupted,
-- did not complete, and was truncated exactly if the boundary is a proper prefix.
pub reachable-IsTruthful :
    (F : Floats) (ops : List PlaybackOp)
    → TruthfulOutcome (playback_run F ops new_session_orchestrator).last_playback_outcome
unfolding new_session_orchestrator
reachable-IsTruthful F ops =
    (run-IsConsistent F ops new_session_orchestrator
      (record { turn = refl; outcome = refl })).outcome
