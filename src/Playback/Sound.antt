-- ===== src/Playback/Sound.antt =====
-- What holds of a turn while it is played: the turn functions of
-- internal/voice/session_orchestrator.go.
use agent_server.Prelude.{
  ◌≡◌, ◌∙◌, ap, refl, inl, inr, Bool, true, false, not, ◌&&◌, ◌||◌, [], if-cases, if◌then◌else◌,
  pos, leb_ℤ, add64, arith,
}
use agent_server.Clock.{Duration}
use agent_server.Text.{Text, trim_space}
use agent_server.Text.Laws.{IsPrefix-nil, IsPrefix-refl}
use agent_server.Text.Trim.{trim_space-nil}
use agent_server.Floats.{Floats}
use agent_server.Playback.{
  updated_turn, chunk_turn, mark_turn, mark_text_turn, completed_fact_turn, policy_turn,
  interrupted_turn, completed_turn, is_prefix_boundary,
}
use agent_server.Playback.State.{
  fresh_turn, started_turn, started_fact_turn, finalized_turn, trimmed_or, heard_whole,
  interrupt_policy,
}
use agent_server.Playback.Policy.{
  InterruptionPolicy, HeardTextSource, is_soft, is_playback_completed, normalize_heard_text_source,
  is_ignore, is_segment_mark, normalize_interruption_policy,
}
use agent_server.Playback.Heard.{
  has_exact_heard_text_prefix, heard_text_boundary_for_texts, max_duration,
}
use agent_server.Playback.Turn.{
  TurnRequest, OrchestratedTurn, update_heard_text_locked, update_heard_text_exact_locked,
  refresh_heard_text, record_interruption_policy_locked, capture_soft_recovery_snapshot_locked,
  keeps_recovery, reason_or_policy, SoftRecoverySnapshot, apply_soft_recovery_outcome_locked,
  current_playback_boundary_snapshot_locked,
}
use agent_server.Playback.Prefix.{Begins}
use agent_server.Playback.Outcome.{
  IsHeard, HasEnded, update-IsHeard, update_exact-IsHeard, refresh-IsHeard, whole-IsHeard,
  recovery-Begins,
}

pub record IsSound (t : OrchestratedTurn) : Type 0 where
  -- While it is played, the heard text begins the delivered one.
  pub heard : t.playback_active ≡ true → IsHeard t
  -- A turn that is interrupted is closed at once.
  pub unbroken : t.response_interrupted ≡ false
  pub whole : t.response_truncated ≡ false

pub fresh-IsSound :
    (request : TurnRequest) (input response : Text) → IsSound (fresh_turn request input response)
unfolding fresh_turn
fresh-IsSound request input response = ground arith

nil-IsHeard : (t : OrchestratedTurn) → t.heard_text ≡ [] → Begins t.heard_text t.delivered_text
nil-IsHeard t e = rw e (rw trim_space-nil (IsPrefix-nil (trim_space t.delivered_text)))

pub started-IsSound :
    (delivered : Text) (chunk planned : Duration) (prefer : Bool) (t : OrchestratedTurn)
    → IsSound (started_turn delivered chunk planned prefer t)
unfolding started_turn heard_text_boundary_for_texts
started-IsSound delivered chunk planned prefer t = record {
  heard = λ e.
      (nil-IsHeard (started_turn delivered chunk planned prefer t) refl, rw trim_space-nil refl);
  unbroken = refl;
  whole = refl;
}

pub started_fact-IsSound : (t : OrchestratedTurn) → IsSound t → IsSound (started_fact_turn t)
unfolding started_fact_turn
started_fact-IsSound t h =
    if-cases {A = OrchestratedTurn} IsSound (not t.playback_active) _ _ (λ e. h)
      (λ e. record { heard = h.heard; unbroken = h.unbroken; whole = h.whole })

-- A turn whose heard text was just computed.
heard-IsSound :
    (t u : OrchestratedTurn)
    → IsSound t
    → IsHeard u
    → u.response_interrupted ≡ t.response_interrupted
    → u.response_truncated ≡ t.response_truncated
    → IsSound u
heard-IsSound t u h k i r = record {
  heard = λ e. k;
  unbroken = i ∙ h.unbroken;
  whole = r ∙ h.whole;
}

pub update-IsSound :
    (F : Floats) (played : Duration) (source : HeardTextSource) (t : OrchestratedTurn)
    → IsSound t
    → IsSound (update_heard_text_locked F played source t)
unfolding update_heard_text_locked
update-IsSound F played source t h = record {
  heard = λ e. update-IsHeard F played source t;
  unbroken = h.unbroken;
  whole = h.whole;
}

update_exact-unbroken :
    (F : Floats) (played : Duration) (heard : Text) (source : HeardTextSource)
    (t : OrchestratedTurn)
    → (update_heard_text_exact_locked F played heard source t).response_interrupted
      ≡ t.response_interrupted
unfolding update_heard_text_exact_locked update_heard_text_locked
update_exact-unbroken F played heard source t = ground arith

update_exact-whole :
    (F : Floats) (played : Duration) (heard : Text) (source : HeardTextSource)
    (t : OrchestratedTurn)
    → (update_heard_text_exact_locked F played heard source t).response_truncated
      ≡ t.response_truncated
unfolding update_heard_text_exact_locked update_heard_text_locked
update_exact-whole F played heard source t = ground arith

pub update_exact-IsSound :
    (F : Floats) (played : Duration) (heard : Text) (source : HeardTextSource)
    (t : OrchestratedTurn)
    → IsSound t
    → IsSound (update_heard_text_exact_locked F played heard source t)
update_exact-IsSound F played heard source t h =
    heard-IsSound t (update_heard_text_exact_locked F played heard source t) h
      (update_exact-IsHeard F played heard source t) (update_exact-unbroken F played heard source t)
      (update_exact-whole F played heard source t)

pub updated-IsSound :
    (F : Floats) (delivered : Text) (planned : Duration) (t : OrchestratedTurn)
    → IsSound t
    → IsSound (updated_turn F delivered planned t)
unfolding updated_turn update_heard_text_locked
updated-IsSound F delivered planned t h =
    if-cases {A = OrchestratedTurn} IsSound t.playback_active
      (update_heard_text_locked F t.played_duration t.heard_source u) u
      (λ e.
        heard-IsSound t (update_heard_text_locked F t.played_duration t.heard_source u) h
          (update-IsHeard F t.played_duration t.heard_source u) refl refl)
      (λ e. record { heard = λ a. absurd (ground arith); unbroken = h.unbroken; whole = h.whole })
  where
    u : OrchestratedTurn
    u = record t {
      delivered_text = trimmed_or delivered t.delivered_text;
      planned_duration = if leb_ℤ planned (pos 0) then t.planned_duration else planned;
    }

pub chunk-IsSound : (F : Floats) (t : OrchestratedTurn) → IsSound t → IsSound (chunk_turn F t)
unfolding chunk_turn
chunk-IsSound F t h =
    if-cases {A = OrchestratedTurn} IsSound (not t.playback_active || t.prefer_client_facts) t
      (update_heard_text_locked F (add64 t.played_duration t.chunk_duration)
        HeardTextSource.heuristic_bytes t)
      (λ e. h) (λ e. update-IsSound F _ HeardTextSource.heuristic_bytes t h)

pub mark-IsSound :
    (F : Floats) (played : Duration) (t : OrchestratedTurn)
    → IsSound t
    → IsSound (mark_turn F played t)
unfolding mark_turn
mark-IsSound F played t h =
    if-cases {A = OrchestratedTurn} IsSound (not t.playback_active) t
      (update_heard_text_locked F played HeardTextSource.segment_mark t) (λ e. h)
      (λ e. update-IsSound F played HeardTextSource.segment_mark t h)

pub mark_text-IsSound :
    (F : Floats) (played : Duration) (heard : Text) (t : OrchestratedTurn)
    → IsSound t
    → IsSound (mark_text_turn F played heard t)
unfolding mark_text_turn
mark_text-IsSound F played heard t h =
    if-cases {A = OrchestratedTurn} IsSound (not t.playback_active) t
      (update_heard_text_exact_locked F played heard HeardTextSource.segment_mark t) (λ e. h)
      (λ e. update_exact-IsSound F played heard HeardTextSource.segment_mark t h)

pub completed_fact-IsSound :
    (F : Floats) (t : OrchestratedTurn) → IsSound t → IsSound (completed_fact_turn F t)
unfolding completed_fact_turn heard_whole update_heard_text_locked
completed_fact-IsSound F t h =
    let u =
      update_heard_text_locked F (max_duration t.planned_duration t.played_duration)
        HeardTextSource.playback_completed t in
    heard-IsSound t (heard_whole u) h
      (whole-IsHeard u (
        update-IsHeard F (max_duration t.planned_duration t.played_duration)
          HeardTextSource.playback_completed t))
      refl refl

policy_recorded-IsSound :
    (policy : InterruptionPolicy) (reason : Text) (t : OrchestratedTurn)
    → IsSound t
    → IsSound (record_interruption_policy_locked policy reason t)
unfolding record_interruption_policy_locked
policy_recorded-IsSound policy reason t h =
    if-cases {A = OrchestratedTurn} IsSound (is_ignore (normalize_interruption_policy policy)) t _
      (λ e. h) (λ e. record { heard = h.heard; unbroken = h.unbroken; whole = h.whole })

refresh-IsSound : (F : Floats) (t : OrchestratedTurn) → IsSound t → IsSound (refresh_heard_text F t)
unfolding refresh_heard_text
refresh-IsSound F t h =
    if-cases {A = OrchestratedTurn} IsSound
      (is_segment_mark t.heard_source && has_exact_heard_text_prefix t.delivered_text t.heard_text)
      t (update_heard_text_locked F t.played_duration t.heard_source t) (λ e. h)
      (λ e. update-IsSound F t.played_duration t.heard_source t h)

capture-IsSound :
    (F : Floats) (policy : InterruptionPolicy) (reason : Text) (t : OrchestratedTurn)
    → IsSound t
    → IsSound (capture_soft_recovery_snapshot_locked F policy reason t)
unfolding capture_soft_recovery_snapshot_locked
capture-IsSound F policy reason t h =
    let u = refresh_heard_text F t in
    let hu = refresh-IsSound F t h in
    if-cases {A = OrchestratedTurn} IsSound (not t.playback_active) t _ (λ e. h)
      (λ e.
        if-cases {A = OrchestratedTurn} IsSound
          (keeps_recovery u.soft_recovery policy u.played_duration) u _ (λ e'. hu)
          (λ e'. record { heard = hu.heard; unbroken = hu.unbroken; whole = hu.whole }))

pub policy-IsSound :
    (F : Floats) (policy : InterruptionPolicy) (reason : Text) (t : OrchestratedTurn)
    → IsSound t
    → IsSound (policy_turn F policy reason t)
unfolding policy_turn
policy-IsSound F policy reason t h =
    let normalized = normalize_interruption_policy policy in
    let u = record_interruption_policy_locked policy reason t in
    let hu = policy_recorded-IsSound policy reason t h in
    if-cases {A = OrchestratedTurn} IsSound (is_soft normalized)
      (capture_soft_recovery_snapshot_locked F normalized (trim_space reason) u) u
      (λ e. capture-IsSound F normalized (trim_space reason) u hu) (λ e. hu)

policy_recorded-active :
    (policy : InterruptionPolicy) (reason : Text) (t : OrchestratedTurn)
    → (record_interruption_policy_locked policy reason t).playback_active ≡ t.playback_active
unfolding record_interruption_policy_locked
policy_recorded-active policy reason t = ground arith

recovery-completed :
    (F : Floats) (pre : SoftRecoverySnapshot) (t : OrchestratedTurn)
    → (apply_soft_recovery_outcome_locked F pre t).playback_completed ≡ t.playback_completed
unfolding apply_soft_recovery_outcome_locked
recovery-completed F pre t = ground arith

-- How a turn ends.
pub interrupted_lem :
    (F : Floats) (policy : InterruptionPolicy) (reason : Text) (t : OrchestratedTurn)
    → IsSound t
    → t.playback_active ≡ true
    → let u = interrupted_turn F policy reason t in
      Begins u.heard_text u.delivered_text × HasEnded u
unfolding interrupted_turn
interrupted_lem F policy reason t h a =
    let normalized = interrupt_policy policy in
    let words = reason_or_policy reason normalized in
    let u = record_interruption_policy_locked normalized words t in
    let hu = policy_recorded-IsSound normalized words t h in
    let k = refresh-IsHeard F u (hu.heard (policy_recorded-active normalized words t ∙ a)) in
    (k.0, inr (refl, refl, ap is_prefix_boundary k.1))

pub completed_lem :
    (F : Floats) (source : HeardTextSource) (t : OrchestratedTurn)
    → let u = completed_turn F source t in Begins u.heard_text u.delivered_text × HasEnded u
unfolding completed_turn heard_whole update_heard_text_locked
completed_lem F source t =
    let pre = current_playback_boundary_snapshot_locked t in
    let played =
      if is_playback_completed (normalize_heard_text_source source HeardTextSource.unknown)
      then max_duration t.planned_duration t.played_duration
      else t.played_duration in
    let ended = record t { playback_active = false; playback_completed = true } in
    let u = heard_whole (update_heard_text_locked F played source ended) in
    let k =
      whole-IsHeard (update_heard_text_locked F played source ended)
        (update-IsHeard F played source ended) in
    (recovery-Begins F pre u k.0, inl (recovery-completed F pre u, refl, refl))

pub finalized_lem :
    (delivered : Text) (t : OrchestratedTurn)
    → IsSound t
    → let u = finalized_turn delivered t in Begins u.heard_text u.delivered_text × HasEnded u
unfolding finalized_turn
finalized_lem delivered t h = (IsPrefix-refl _, inl (refl, h.unbroken, h.whole))
