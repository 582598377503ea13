-- ===== src/Playback/Outcome.antt =====
-- What an outcome of a playback promises, and the helpers of
-- internal/voice/session_orchestrator.go that keep the heard text true to the delivered text.
use agent_server.Prelude.{
  ◌≡◌, ◌⊎◌, refl, sym, true, false, not, ◌&&◌, ◌||◌, is_empty, length, drop, if-cases, Option, none,
  some, arith,
}
use agent_server.Clock.{Duration}
use agent_server.Text.{Text, has_prefix, trim_space}
use agent_server.Text.Laws.{IsPrefix, IsPrefix-refl, has_prefix→IsPrefix}
use agent_server.Text.Trim.{trim_space-IsTrimmed}
use agent_server.Floats.{Floats}
use agent_server.Playback.{playback_outcome_from_turn, is_prefix_boundary}
use agent_server.Playback.State.{PlaybackOutcome, heard_whole}
use agent_server.Playback.Policy.{HeardTextSource, is_segment_mark}
use agent_server.Playback.Heard.{
  has_exact_heard_text_prefix, heard_text_boundary_for_texts, missed_text_for_texts,
  resume_anchor_for_texts,
}
use agent_server.Playback.Turn.{
  OrchestratedTurn, SoftRecoverySnapshot, update_heard_text_locked, update_heard_text_exact_locked,
  refresh_heard_text, apply_recovery, limit_to, raise_played, apply_soft_recovery_outcome_locked,
  preferred_soft_recovery_boundary, better_soft_recovery_boundary, usable_soft_recovery_boundary,
  should_limit_completed_playback_to_soft_recovery,
}
use agent_server.Playback.Prefix.{
  IsPrefix-Begins, Begins, heard-IsPrefix, missed-eq-rest, missed-Begins,
}

-- The heard text of a turn begins the delivered text, and the boundary field says so.
abbrev pub IsHeard : OrchestratedTurn → Type 0
IsHeard t =
    Begins t.heard_text t.delivered_text
    × (t.heard_text_boundary ≡ heard_text_boundary_for_texts t.delivered_text t.heard_text)

-- An outcome in which every field about texts follows from what was delivered and what was heard,
-- and which is either completed or interrupted.
pub record IsTruthful (o : PlaybackOutcome) : Type 0 where
  pub begins : IsPrefix o.heard_text o.delivered_text
  pub missed : o.missed_text ≡ trim_space (drop (length o.heard_text) o.delivered_text)
  pub anchor : o.resume_anchor ≡ o.heard_text
  pub boundary : o.heard_text_boundary ≡ heard_text_boundary_for_texts o.delivered_text o.heard_text
  pub ended :
      ((o.playback_completed ≡ true)
        × (o.response_interrupted ≡ false)
        × (o.response_truncated ≡ false))
      ⊎ ((o.playback_completed ≡ false)
          × (o.response_interrupted ≡ true)
          × (o.response_truncated ≡ is_prefix_boundary o.heard_text_boundary))

boundary-trimmed :
    (delivered heard : Text)
    → heard_text_boundary_for_texts (trim_space delivered) (trim_space heard)
      ≡ heard_text_boundary_for_texts delivered heard
unfolding heard_text_boundary_for_texts
boundary-trimmed delivered heard =
    rw (trim_space-IsTrimmed delivered) (rw (trim_space-IsTrimmed heard) refl)

boundary-trim_delivered :
    (delivered heard : Text)
    → heard_text_boundary_for_texts (trim_space delivered) heard
      ≡ heard_text_boundary_for_texts delivered heard
unfolding heard_text_boundary_for_texts
boundary-trim_delivered delivered heard = rw (trim_space-IsTrimmed delivered) refl

-- How a turn ends: played to its end, or interrupted.
abbrev pub HasEnded : OrchestratedTurn → Type 0
HasEnded t =
    ((t.playback_completed ≡ true)
      × (t.response_interrupted ≡ false)
      × (t.response_truncated ≡ false))
    ⊎ ((t.playback_completed ≡ false)
        × (t.response_interrupted ≡ true)
        × (t.response_truncated
            ≡ is_prefix_boundary (heard_text_boundary_for_texts t.delivered_text t.heard_text)))

pub outcome-IsTruthful :
    (F : Floats) (t : OrchestratedTurn)
    → Begins t.heard_text t.delivered_text
    → HasEnded t
    → IsTruthful (playback_outcome_from_turn F t)
unfolding playback_outcome_from_turn resume_anchor_for_texts
outcome-IsTruthful F t h e = record {
  begins = h;
  missed = missed-eq-rest t.delivered_text t.heard_text h;
  anchor = refl;
  boundary = sym (boundary-trimmed t.delivered_text t.heard_text);
  ended = e;
}

-- The heard text after each helper.
pub update-IsHeard :
    (F : Floats) (played : Duration) (source : HeardTextSource) (t : OrchestratedTurn)
    → IsHeard (update_heard_text_locked F played source t)
unfolding update_heard_text_locked
update-IsHeard F played source t =
    let u = update_heard_text_locked F played source t in
    (
      IsPrefix-Begins u.heard_text u.delivered_text
          (heard-IsPrefix F t.delivered_text u.played_duration t.planned_duration),
      refl,
    )

pub update_exact-IsHeard :
    (F : Floats) (played : Duration) (heard : Text) (source : HeardTextSource)
    (t : OrchestratedTurn)
    → IsHeard (update_heard_text_exact_locked F played heard source t)
unfolding update_heard_text_exact_locked
update_exact-IsHeard F played heard source t =
    if-cases {A = OrchestratedTurn} IsHeard (is_empty q || is_empty s || not (has_prefix s q))
      (update_heard_text_locked F played source (raise_played played t)) _
      (λ e. update-IsHeard F played source (raise_played played t))
      (λ e. (
        has_prefix→IsPrefix s (trim_space q) (rw (trim_space-IsTrimmed heard) (ground (arith, e))),
        boundary-trim_delivered t.delivered_text q,
      ))
  where
    q : Text
    q = trim_space heard

    s : Text
    s = trim_space t.delivered_text

pub refresh-IsHeard :
    (F : Floats) (t : OrchestratedTurn) → IsHeard t → IsHeard (refresh_heard_text F t)
unfolding refresh_heard_text
refresh-IsHeard F t h =
    if-cases {A = OrchestratedTurn} IsHeard
      (is_segment_mark t.heard_source && has_exact_heard_text_prefix t.delivered_text t.heard_text)
      t (update_heard_text_locked F t.played_duration t.heard_source t) (λ e. h)
      (λ e. update-IsHeard F t.played_duration t.heard_source t)

pub whole-IsHeard : (t : OrchestratedTurn) → IsHeard t → IsHeard (heard_whole t)
unfolding heard_whole
whole-IsHeard t h =
    (if-cases (λ x. Begins x t.delivered_text) _ _ _ (λ e. h.0) (λ e. IsPrefix-refl _), refl)

usable-Begins :
    (delivered heard : Text)
    → usable_soft_recovery_boundary delivered heard ≡ true
    → Begins heard delivered
unfolding usable_soft_recovery_boundary
usable-Begins delivered heard h =
    has_prefix→IsPrefix (trim_space delivered) (trim_space heard) (ground (arith, h))

better-usable :
    (delivered : Text) (s candidate : SoftRecoverySnapshot)
    → better_soft_recovery_boundary delivered s candidate ≡ true
    → usable_soft_recovery_boundary delivered candidate.heard_text ≡ true
unfolding better_soft_recovery_boundary
better-usable delivered s candidate h = ground (arith, h)

pub limited-missed :
    (F : Floats) (t : OrchestratedTurn) (s : SoftRecoverySnapshot)
    → should_limit_completed_playback_to_soft_recovery F t s ≡ true
    → is_empty (missed_text_for_texts (trim_space t.delivered_text) s.heard_text) ≡ false
unfolding should_limit_completed_playback_to_soft_recovery
limited-missed F t s h = ground (arith, h)

-- The recovery point that a completed playback is limited to, taken before or at the completion,
-- begins the delivered text.
pub preferred-Begins :
    (F : Floats) (t : OrchestratedTurn) (s pre : SoftRecoverySnapshot)
    → should_limit_completed_playback_to_soft_recovery F t s ≡ true
    → Begins (preferred_soft_recovery_boundary t.delivered_text s pre).heard_text t.delivered_text
unfolding preferred_soft_recovery_boundary
preferred-Begins F t s pre h =
    if-cases {A = SoftRecoverySnapshot} (λ r. Begins r.heard_text t.delivered_text)
      (better_soft_recovery_boundary t.delivered_text s pre) pre s
      (λ e. usable-Begins t.delivered_text pre.heard_text (better-usable t.delivered_text s pre e))
      (λ e.
        rw (sym (trim_space-IsTrimmed t.delivered_text))
          (missed-Begins (trim_space t.delivered_text) s.heard_text (limited-missed F t s h)))

pub recovery-Begins :
    (F : Floats) (pre : SoftRecoverySnapshot) (t : OrchestratedTurn)
    → Begins t.heard_text t.delivered_text
    → let u = apply_soft_recovery_outcome_locked F pre t in Begins u.heard_text u.delivered_text
unfolding apply_soft_recovery_outcome_locked
recovery-Begins F pre t h = go t.soft_recovery
  where
    go :
        (r : Option SoftRecoverySnapshot)
        → let u = apply_recovery F r pre t in Begins u.heard_text u.delivered_text
    go none = h
    go (some s) =
        if-cases {A = OrchestratedTurn} (λ u. Begins u.heard_text u.delivered_text)
          (should_limit_completed_playback_to_soft_recovery F t s)
          (limit_to (preferred_soft_recovery_boundary t.delivered_text s pre) t) t
          (λ e.
            rw
              (trim_space-IsTrimmed
                (preferred_soft_recovery_boundary t.delivered_text s pre).heard_text)
              (preferred-Begins F t s pre e))
          (λ e. h)
