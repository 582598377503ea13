-- ===== src/Playback/Interrupt.antt =====
-- Interruptions, and calls that find no turn: `InterruptPlaybackWithPolicy` and the methods of
-- `SessionOrchestrator` in internal/voice/session_orchestrator.go.
use agent_server.Prelude.{
  ◌≡◌, refl, Bool, true, false, not, List, [], ◌∷◌, if-cases, Option, none, some, arith,
}
use agent_server.Text.{Text, trim_space}
use agent_server.Floats.{Floats}
use agent_server.Playback.{
  interrupt_playback_with_policy, interrupt_at, close_turn, interrupted_turn,
  playback_outcome_from_turn, memory_record, finalize_text_response, update_playback,
  observe_playback_chunk, observe_playback_mark_fact, observe_playback_mark_text_fact,
  observe_playback_completed_fact, record_interruption_policy, complete_playback_with_source,
}
use agent_server.Playback.State.{
  SessionOrchestrator, PlaybackOutcome, PlaybackInterruption, MemoryRecord, idle_interruption,
  interruption_of, interrupt_policy, start_playback_with_options, observe_playback_started_fact,
}
use agent_server.Playback.Policy.{InterruptionPolicy, is_ignore, normalize_interruption_policy}
use agent_server.Playback.Turn.{
  OrchestratedTurn, record_interruption_policy_locked, refresh_heard_text, update_heard_text_locked,
}
use agent_server.Playback.Run.{PlaybackOp, prepare_op, playback_step}

abbrev pub is_prepare : PlaybackOp → Bool
is_prepare (prepare_op request input response) = true
is_prepare _ = false

-- Without a turn, every call but `PrepareTurn` leaves the orchestrator as it was, so a turn that was
-- interrupted or completed is neither saved nor reported a second time.
pub idle-unchanged :
    (F : Floats) (op : PlaybackOp) (o : SessionOrchestrator)
    → o.turn ≡ none
    → is_prepare op ≡ false
    → playback_step F op o ≡ o
unfolding playback_step finalize_text_response start_playback_with_options update_playback
    observe_playback_chunk observe_playback_started_fact observe_playback_mark_fact
    observe_playback_mark_text_fact observe_playback_completed_fact record_interruption_policy
    interrupt_playback_with_policy interrupt_at complete_playback_with_source
idle-unchanged F op o h p = ground arith

abbrev pub is_playing : Option OrchestratedTurn → Bool
is_playing none = false
is_playing (some t) = t.playback_active

-- What the caller is told of an interruption, against what is recorded of it.
abbrev pub Agrees : PlaybackInterruption → Option PlaybackOutcome → List MemoryRecord → Type 0
Agrees r (some p) (m ∷ ms) =
    (p.heard_text ≡ trim_space r.heard_text)
    × (p.interruption_policy ≡ r.policy)
    × (is_ignore r.policy ≡ false)
    × (p.played_duration ≡ r.played_duration)
    × (p.response_truncated ≡ r.truncated)
    × (m.heard_text ≡ r.heard_text)
    × (m.response_truncated ≡ r.truncated)
    × (m.response_interrupted ≡ true)
Agrees r _ _ = true ≡ false

idle-heard :
    (policy : InterruptionPolicy) (reason : Text)
    → ((idle_interruption policy reason).heard_text ≡ [])
      × ((idle_interruption policy reason).truncated ≡ false)
unfolding idle_interruption
idle-heard policy reason = (refl, refl)

interrupt-stops : (policy : InterruptionPolicy) → is_ignore (interrupt_policy policy) ≡ false
unfolding normalize_interruption_policy
interrupt-stops policy = ground arith

interrupted-policy :
    (F : Floats) (policy : InterruptionPolicy) (reason : Text) (t : OrchestratedTurn)
    → normalize_interruption_policy (interrupted_turn F policy reason t).interruption_policy
      ≡ interrupt_policy policy
unfolding interrupted_turn refresh_heard_text update_heard_text_locked
    record_interruption_policy_locked normalize_interruption_policy
interrupted-policy F policy reason t = ground arith

interrupted-flag :
    (F : Floats) (policy : InterruptionPolicy) (reason : Text) (t : OrchestratedTurn)
    → (interrupted_turn F policy reason t).response_interrupted ≡ true
unfolding interrupted_turn
interrupted-flag F policy reason t = refl

closed-Agrees :
    (F : Floats) (policy : InterruptionPolicy) (reason : Text) (t : OrchestratedTurn)
    (o : SessionOrchestrator)
    → let u = interrupted_turn F policy reason t in
      let c = close_turn F u o in
      Agrees (interruption_of (idle_interruption policy reason) u) c.last_playback_outcome c.saved
unfolding close_turn playback_outcome_from_turn memory_record idle_interruption
closed-Agrees F policy reason t o = (
  refl,
  interrupted-policy F policy reason t,
  interrupt-stops policy,
  refl,
  refl,
  refl,
  refl,
  interrupted-flag F policy reason t,
)

-- What an interruption does of a turn that plays, or of anything else.
abbrev pub Interrupts :
    Bool → SessionOrchestrator → SessionOrchestrator × PlaybackInterruption → Type 0
Interrupts playing o r =
    (playing ≡ true → (r.0.turn ≡ none) × Agrees r.1 r.0.last_playback_outcome r.0.saved)
    × (playing ≡ false → (r.0 ≡ o) × (r.1.heard_text ≡ []) × (r.1.truncated ≡ false))

-- An interruption of a playing turn closes the turn and records an outcome and a memory record that
-- agree with what the caller is told, under a policy that is not `ignore`; an interruption of
-- anything else changes nothing and reports nothing heard and nothing truncated.
pub interrupt-Agrees :
    (F : Floats) (policy : InterruptionPolicy) (reason : Text) (o : SessionOrchestrator)
    → Interrupts (is_playing o.turn) o (interrupt_playback_with_policy F policy reason o)
unfolding interrupt_playback_with_policy interrupt_at close_turn
interrupt-Agrees F policy reason o = go o.turn
  where
    idle : PlaybackInterruption
    idle = idle_interruption policy reason

    unheard : (idle.heard_text ≡ []) × (idle.truncated ≡ false)
    unheard = idle-heard policy reason

    go :
        (m : Option OrchestratedTurn)
        → Interrupts (is_playing m) o (interrupt_at F m policy reason o)
    go none = ((λ e. absurd (ground arith)), λ e. (refl, unheard.0, unheard.1))
    go (some t) =
        let u = interrupted_turn F policy reason t in
        if-cases {A = SessionOrchestrator × PlaybackInterruption} (Interrupts t.playback_active o)
          (not t.playback_active) (o, idle) (close_turn F u o, interruption_of idle u)
          (λ a. ((λ e. absurd (ground arith)), λ e. (refl, unheard.0, unheard.1)))
          (λ a. ((λ e. (refl, closed-Agrees F policy reason t o)), λ e. absurd (ground arith)))
