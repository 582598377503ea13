-- ===== src/Playback/Recovery.antt =====
-- Recovery points: the soft interruptions of internal/voice/session_orchestrator.go, and what a
-- completed playback makes of them.
use agent_server.Prelude.{
  true, false, ◌≤◌, ◌≡◌, ◌∙◌, ◌∷◌, ◌⊎◌, refl, sym, ap, inl, inr, true, false, not, [], is_empty,
  if-cases, Option, none, some, ◌≤ℤ◌, arith, Bool-cases, if◌then◌else◌,
}
use agent_server.Clock.{Duration}
use agent_server.Text.{Text, trim_space}
use agent_server.Text.Trim.{trim_space-nil}
use agent_server.Floats.{Floats}
use agent_server.Playback.{completed_turn}
use agent_server.Playback.State.{heard_whole}
use agent_server.Playback.Policy.{
  InterruptionPolicy, HeardTextSource, soft_recovery_policy_rank, is_playback_completed,
  normalize_heard_text_source,
}
use agent_server.Playback.Heard.{heard_text_for_playback, max_duration}
use agent_server.Playback.Turn.{
  OrchestratedTurn, SoftRecoverySnapshot, update_heard_text_locked, refresh_heard_text,
  capture_soft_recovery_snapshot_locked, keeps_existing, keeps_recovery, apply_recovery,
  apply_soft_recovery_outcome_locked, current_playback_boundary_snapshot_locked,
  should_limit_completed_playback_to_soft_recovery,
}
use agent_server.Playback.Outcome.{limited-missed}
use agent_server.Playback.Boundary.{IsLater, preferred-IsLater, trimmed-IsLater}
use agent_server.Playback.TalkedOver.{
  IsTalkedOver, IsHeardOut, limited-IsTalkedOver, IsTalkedOver-limited,
}

refresh-soft_recovery :
    (F : Floats) (t : OrchestratedTurn) → (refresh_heard_text F t).soft_recovery ≡ t.soft_recovery
unfolding refresh_heard_text update_heard_text_locked
refresh-soft_recovery F t = ground arith

-- Of two recovery points, the second is there, is not later in the playback and, where it is at the
-- same point, has no lower policy rank.
abbrev pub NotLater : SoftRecoverySnapshot → Option SoftRecoverySnapshot → Type 0
NotLater s none = true ≡ false
NotLater s (some r) =
    (r.played_duration ≤ℤ s.played_duration)
    × ((s.played_duration ≤ℤ r.played_duration)
        → soft_recovery_policy_rank s.policy ≤ soft_recovery_policy_rank r.policy)

replaced_lem :
    (s : SoftRecoverySnapshot) (policy : InterruptionPolicy) (played : Duration)
    → keeps_existing s policy played ≡ false
    → (played ≤ℤ s.played_duration)
      × ((s.played_duration ≤ℤ played)
          → soft_recovery_policy_rank s.policy ≤ soft_recovery_policy_rank policy)
unfolding keeps_existing
replaced_lem s policy played h = ground arith

NotLater-refl :
    (s : SoftRecoverySnapshot) (m : Option SoftRecoverySnapshot) → m ≡ some s → NotLater s m
NotLater-refl s m e = rw e (ground arith, λ k. ground arith)

-- A soft interruption of a turn that holds a recovery point leaves one that is not later in the
-- playback and, where it is at the same point, has no lower policy rank.
pub capture-NotLater :
    (F : Floats) (policy : InterruptionPolicy) (reason : Text) (t : OrchestratedTurn)
    (s : SoftRecoverySnapshot)
    → t.soft_recovery ≡ some s
    → NotLater s (capture_soft_recovery_snapshot_locked F policy reason t).soft_recovery
unfolding capture_soft_recovery_snapshot_locked
capture-NotLater F policy reason t s h =
    let u = refresh_heard_text F t in
    let hu = refresh-soft_recovery F t ∙ h in
    if-cases {A = OrchestratedTurn} (λ v. NotLater s v.soft_recovery) (not t.playback_active) t _
      (λ e. NotLater-refl s t.soft_recovery h)
      (λ e.
        if-cases {A = OrchestratedTurn} (λ v. NotLater s v.soft_recovery)
          (keeps_recovery u.soft_recovery policy u.played_duration) u _
          (λ e'. NotLater-refl s u.soft_recovery hu)
          (λ e'.
            replaced_lem s policy u.played_duration
              (rw (ap (λ m. keeps_recovery m policy u.played_duration) hu) at e')))

blank-heard :
    (F : Floats) (text : Text) (played planned : Duration)
    → is_empty (trim_space text) ≡ true
    → heard_text_for_playback F text played planned ≡ []
unfolding heard_text_for_playback
blank-heard F text played planned e = ground (arith, e)

nil-of_empty : (t : Text) → is_empty t ≡ true → t ≡ []
nil-of_empty [] e = refl
nil-of_empty (c ∷ t) e = cc

-- What `heard_whole` leaves after an update is all that was delivered.
whole-all :
    (F : Floats) (played : Duration) (source : HeardTextSource) (t : OrchestratedTurn)
    → trim_space (heard_whole (update_heard_text_locked F played source t)).heard_text
      ≡ trim_space t.delivered_text
unfolding heard_whole update_heard_text_locked
whole-all F played source t =
    if-cases {A = Text} (λ x. trim_space x ≡ trim_space t.delivered_text)
      (is_empty (trim_space t.delivered_text)) _ t.delivered_text
      (λ e.
        rw (blank-heard F t.delivered_text _ t.planned_duration e)
          (trim_space-nil ∙ sym (nil-of_empty (trim_space t.delivered_text) e)))
      (λ e. refl)

-- A completed playback was heard in full exactly when no recovery point is left, or too little was
-- missed behind it for the rule of its policy (behind a ducking, two runes, 12 percent or 260
-- milliseconds are enough; behind an acknowledgement, eight runes, or four that are 30 percent or leave
-- 650 milliseconds; behind another policy nothing is). Otherwise the heard text is that of the later of the
-- recovery point and of the point that the playback had reached before the completion: it is the text
-- of one of them, none of them is longer (of the second, if it is a part of what was delivered), and it
-- begins what was delivered and is not all of it.
pub completed-heard :
    (F : Floats) (source : HeardTextSource) (t : OrchestratedTurn)
    → let u = completed_turn F source t in
      (trim_space u.heard_text ≡ trim_space t.delivered_text) × IsHeardOut F t t.soft_recovery
      ⊎ ((s : SoftRecoverySnapshot) × (t.soft_recovery ≡ some s)
          × IsTalkedOver F t s
          × IsLater t.delivered_text s.heard_text t.heard_text u.heard_text)
unfolding completed_turn apply_soft_recovery_outcome_locked heard_whole update_heard_text_locked
    current_playback_boundary_snapshot_locked
completed-heard F source t = go t.soft_recovery refl
  where
    ended : OrchestratedTurn
    ended = record t { playback_active = false; playback_completed = true }

    played : Duration
    played =
        if is_playback_completed (normalize_heard_text_source source HeardTextSource.unknown)
        then max_duration t.planned_duration t.played_duration
        else t.played_duration

    u : OrchestratedTurn
    u = heard_whole (update_heard_text_locked F played source ended)

    pre : SoftRecoverySnapshot
    pre = current_playback_boundary_snapshot_locked t

    go :
        (m : Option SoftRecoverySnapshot)
        → t.soft_recovery ≡ m
        → (trim_space (apply_recovery F m pre u).heard_text ≡ trim_space t.delivered_text)
            × IsHeardOut F t m
          ⊎ ((s : SoftRecoverySnapshot) × (m ≡ some s)
              × IsTalkedOver F t s
              × IsLater t.delivered_text s.heard_text t.heard_text
                  (apply_recovery F m pre u).heard_text)
    go none e = inl (whole-all F played source ended, tt)
    go (some s) e = elim (Bool-cases (should_limit_completed_playback_to_soft_recovery F u s)) [
      | inl l ↦ inr (
        s,
        refl,
        limited-IsTalkedOver F u s l,
        rw l (
            trimmed-IsLater t.delivered_text s.heard_text t.heard_text _
              (preferred-IsLater t.delivered_text s pre (limited-missed F u s l))),
      )
      | inr l ↦ inl (
        rw l (whole-all F played source ended),
        λ over. let yes = IsTalkedOver-limited F u s over in ground arith,
      )
    ]
