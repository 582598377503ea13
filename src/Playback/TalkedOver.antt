-- ===== src/Playback/TalkedOver.antt =====
-- When a completed playback counts as not heard in full:
-- shouldLimitCompletedPlaybackToSoftRecovery of internal/voice/session_orchestrator.go.
use agent_server.Prelude.{
  ℕ, ℤ, pos, Bool, ◌&&◌, length, sub64, leb_ℤ, ltb_ℤ, true, false, ◌≤◌, ◌≡◌, ◌⊎◌, refl, sym, true,
  false, not, is_empty, Option, none, some, ◌≤ℤ◌, arith, if◌then◌else◌,
}
use agent_server.Clock.{Duration}
use agent_server.Text.{trim_space}
use agent_server.Text.Trim.{trim_space-IsTrimmed}
use agent_server.Floats.{Floats}
use agent_server.Playback.Policy.{InterruptionPolicy}
use agent_server.Playback.Heard.{missed_text_for_texts, heard_ratio_percent}
use agent_server.Playback.Turn.{
  OrchestratedTurn, SoftRecoverySnapshot, should_limit_completed_playback_to_soft_recovery,
  limit_rule,
}
use agent_server.Playback.Outcome.{limited-missed}
use agent_server.Playback.Boundary.{nonempty_of, missed-length}

-- How long the text is that a recovery point left unheard, the percentage of what was delivered that
-- it is, and the time that was left of what was planned.
abbrev pub missed_runes : OrchestratedTurn → SoftRecoverySnapshot → ℕ
missed_runes t s = length (missed_text_for_texts (trim_space t.delivered_text) s.heard_text)

abbrev pub missed_percent : Floats → OrchestratedTurn → SoftRecoverySnapshot → ℤ
missed_percent F t s =
    let heard = heard_ratio_percent F (trim_space t.delivered_text) s.heard_text in
    sub64 (pos 100) (if ltb_ℤ heard (pos 0) then pos 0 else heard)

abbrev pub time_left : OrchestratedTurn → SoftRecoverySnapshot → Duration
time_left t s =
    if not (leb_ℤ t.planned_duration (pos 0)) && ltb_ℤ s.played_duration t.planned_duration
    then sub64 t.planned_duration s.played_duration
    else pos 0

-- When so much is left that the user talked over it: behind a ducking, two runes, 12 percent or 260
-- milliseconds; behind an acknowledgement, eight runes, or four that are 30 percent or 650
-- milliseconds; never behind another policy.
abbrev pub Suffices : InterruptionPolicy → ℕ → ℤ → Duration → Type 0
Suffices InterruptionPolicy.ignore runes percent left = true ≡ false
Suffices InterruptionPolicy.backchannel runes percent left =
    (8 ≤ runes) ⊎ (4 ≤ runes) × ((pos 30 ≤ℤ percent) ⊎ (pos 650000000 ≤ℤ left))
Suffices InterruptionPolicy.duck_only runes percent left =
    (2 ≤ runes) ⊎ (pos 12 ≤ℤ percent) ⊎ (pos 260000000 ≤ℤ left)
Suffices InterruptionPolicy.hard_interrupt runes percent left = true ≡ false
Suffices (InterruptionPolicy.other _) runes percent left = true ≡ false

-- Some of the text was missed behind the recovery point, and so much that the rule is met.
abbrev pub IsTalkedOver : Floats → OrchestratedTurn → SoftRecoverySnapshot → Type 0
IsTalkedOver F t s =
    (is_empty (missed_text_for_texts (trim_space t.delivered_text) s.heard_text) ≡ false)
    × Suffices s.policy (missed_runes t s) (missed_percent F t s) (time_left t s)

-- No recovery point is left, or too little was missed behind it.
abbrev pub IsHeardOut : Floats → OrchestratedTurn → Option SoftRecoverySnapshot → Type 0
IsHeardOut F t none = Unit
IsHeardOut F t (some s) = ¬ IsTalkedOver F t s

limit_rule-Suffices :
    (policy : InterruptionPolicy) (runes : ℕ) (percent : ℤ) (left : Duration)
    → limit_rule policy runes percent left ≡ true
    → Suffices policy runes percent left
unfolding limit_rule
limit_rule-Suffices InterruptionPolicy.ignore runes percent left h = sym h
limit_rule-Suffices InterruptionPolicy.backchannel runes percent left h = ground (arith, h)
limit_rule-Suffices InterruptionPolicy.duck_only runes percent left h = ground (arith, h)
limit_rule-Suffices InterruptionPolicy.hard_interrupt runes percent left h = sym h
limit_rule-Suffices (InterruptionPolicy.other _) runes percent left h = sym h

Suffices-limit_rule :
    (policy : InterruptionPolicy) (runes : ℕ) (percent : ℤ) (left : Duration)
    → Suffices policy runes percent left
    → limit_rule policy runes percent left ≡ true
unfolding limit_rule
Suffices-limit_rule InterruptionPolicy.ignore runes percent left h = sym h
Suffices-limit_rule InterruptionPolicy.backchannel runes percent left h = ground (arith, h)
Suffices-limit_rule InterruptionPolicy.duck_only runes percent left h = ground (arith, h)
Suffices-limit_rule InterruptionPolicy.hard_interrupt runes percent left h = sym h
Suffices-limit_rule (InterruptionPolicy.other _) runes percent left h = sym h

last_of : (a b c : Bool) → (a && b && c) ≡ true → c ≡ true
last_of a b c h = ground arith

pub limited-IsTalkedOver :
    (F : Floats) (t : OrchestratedTurn) (s : SoftRecoverySnapshot)
    → should_limit_completed_playback_to_soft_recovery F t s ≡ true
    → IsTalkedOver F t s
unfolding should_limit_completed_playback_to_soft_recovery
limited-IsTalkedOver F t s h = (
  limited-missed F t s h,
  limit_rule-Suffices s.policy (missed_runes t s) (missed_percent F t s) (time_left t s) (
      last_of (not (is_empty (trim_space t.delivered_text)))
        (not (is_empty (missed_text_for_texts (trim_space t.delivered_text) s.heard_text)))
        (limit_rule s.policy (missed_runes t s) (missed_percent F t s) (time_left t s)) h),
)

pub IsTalkedOver-limited :
    (F : Floats) (t : OrchestratedTurn) (s : SoftRecoverySnapshot)
    → IsTalkedOver F t s
    → should_limit_completed_playback_to_soft_recovery F t s ≡ true
unfolding should_limit_completed_playback_to_soft_recovery
IsTalkedOver-limited F t s (missed, enough) =
    rw
      (
        missed,
        nonempty_of (length (trim_space s.heard_text)) (trim_space t.delivered_text) (
            rw (trim_space-IsTrimmed t.delivered_text) at
              (missed-length (trim_space t.delivered_text) s.heard_text missed)),
        Suffices-limit_rule s.policy (missed_runes t s) (missed_percent F t s) (time_left t s)
            enough,
      )
      refl
