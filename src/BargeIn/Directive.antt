-- ===== src/BargeIn/Directive.antt =====
-- What a decision does to the playback: `playbackDirectiveForDecision` of
-- internal/voice/barge_in.go.
use agent_server.Prelude.{
  ◌≡◌, ◌↔◌, Bool, true, false, ◌&&◌, ◌||◌, is_empty, if◌then◌else◌, pos, ltb_ℤ, ◌≤ℤ◌, add64, sub64,
  arith,
}
use agent_server.Clock.{Duration, milliseconds}
use agent_server.Text.{Text, codes, text_eq, trim_space}
use agent_server.Floats.{Floats}
use agent_server.Playback.Policy.{InterruptionPolicy, is_soft, normalize_interruption_policy}
use agent_server.BargeIn.Signals.{BargeInDecision, max_int}

pub data PlaybackAction : Type 0 where
  normal duck_light duck_hold interrupt : PlaybackAction

pub record PlaybackDirective (F : Floats) : Type 0 where
  pub action : PlaybackAction
  pub policy : InterruptionPolicy
  pub reason : Text
  pub gain : F.Float
  pub attack : Duration
  pub hold : Duration
  pub release : Duration
  pub keep_preview : Bool
  pub keep_pending_audio : Bool

abbrev pub action_text : PlaybackAction → Text
action_text PlaybackAction.normal = codes "normal"
action_text PlaybackAction.duck_light = codes "duck_light"
action_text PlaybackAction.duck_hold = codes "duck_hold"
action_text PlaybackAction.interrupt = codes "interrupt"

unfoldable pub clamp_directive_duration : Duration → Duration → Duration → Duration
clamp_directive_duration value min_value max_value =
    if ltb_ℤ value min_value
    then min_value
    else if ltb_ℤ (pos 0) max_value && ltb_ℤ max_value value
    then max_value
    else value

unfoldable pub should_interrupt_output : {F : Floats} → PlaybackDirective F → Bool
should_interrupt_output d = elim d.action [ PlaybackAction.interrupt ↦ true | _ ↦ false ]

unfoldable pub should_duck_output : {F : Floats} → PlaybackDirective F → Bool
should_duck_output d = elim d.action [
  | PlaybackAction.duck_light ↦ true
  | PlaybackAction.duck_hold ↦ true
  | _ ↦ false
]

module _ {F : Floats} where
  unfoldable pub recommended_duck_hold : BargeInDecision F → Duration
  recommended_duck_hold d =
      let reason = trim_space d.reason in
      let remaining_ms =
        if text_eq reason (codes "duck_pending_min_audio")
        then max_int (sub64 d.min_audio_ms d.audio_ms) (pos 0)
        else if text_eq reason (codes "duck_pending_audio_only")
        then max_int d.hold_audio_ms (pos 0)
        else max_int (sub64 (add64 d.min_audio_ms d.hold_audio_ms) d.audio_ms) (pos 0) in
      clamp_directive_duration (add64 (milliseconds remaining_ms) (pos 80000000)) (pos 180000000)
        (pos 720000000)

  -- A directive under a normal policy, with the reason still as it was given.
  unfoldable pub directive_for : InterruptionPolicy → BargeInDecision F → PlaybackDirective F
  directive_for InterruptionPolicy.backchannel d = record {
    action = PlaybackAction.duck_light;
    policy = InterruptionPolicy.backchannel;
    reason = trim_space d.reason;
    gain = F.hundredths 72;
    attack = pos 45000000;
    hold =
        clamp_directive_duration (milliseconds (max_int (add64 d.audio_ms (pos 80)) (pos 180)))
          (pos 180000000) (pos 420000000);
    release = pos 180000000;
    keep_preview = true;
    keep_pending_audio = true;
  }
  directive_for InterruptionPolicy.duck_only d = record {
    action = PlaybackAction.duck_hold;
    policy = InterruptionPolicy.duck_only;
    reason = trim_space d.reason;
    gain = F.hundredths 36;
    attack = pos 30000000;
    hold = recommended_duck_hold d;
    release = pos 220000000;
    keep_preview = true;
    keep_pending_audio = true;
  }
  directive_for InterruptionPolicy.hard_interrupt d = record {
    action = PlaybackAction.interrupt;
    policy = InterruptionPolicy.hard_interrupt;
    reason = trim_space d.reason;
    gain = F.hundredths 0;
    attack = pos 0;
    hold = pos 0;
    release = pos 0;
    keep_preview = true;
    keep_pending_audio = true;
  }
  directive_for _ d = record {
    action = PlaybackAction.normal;
    policy = InterruptionPolicy.ignore;
    reason = trim_space d.reason;
    gain = F.hundredths 100;
    attack = pos 0;
    hold = pos 0;
    release = pos 0;
    keep_preview = false;
    keep_pending_audio = false;
  }

  -- An empty reason becomes the name of the action, "normal" included.
  unfoldable pub playback_directive_for_decision : BargeInDecision F → PlaybackDirective F
  playback_directive_for_decision d =
      let directive = directive_for (normalize_interruption_policy d.policy) d in
      record directive {
        reason =
            if is_empty directive.reason then action_text directive.action else directive.reason;
      }

  -- Whatever the decision, the playback is interrupted exactly under the policy `hard_interrupt` and
  -- ducked exactly under `backchannel` and `duck_only`, then for 180 to 720 milliseconds; the preview
  -- and the pending audio are kept exactly if it is either; and the directive has a reason.
  pub directive_lem :
      (d : BargeInDecision F)
      → let r = playback_directive_for_decision d in
        ((should_interrupt_output r ≡ true) ↔ (d.policy ≡ InterruptionPolicy.hard_interrupt))
        × (should_duck_output r ≡ is_soft d.policy)
        × (should_duck_output r ≡ true → (pos 180000000 ≤ℤ r.hold) × (r.hold ≤ℤ pos 720000000))
        × ((should_duck_output r || should_interrupt_output r) ≡ r.keep_pending_audio)
        × (r.keep_preview ≡ r.keep_pending_audio)
        × (is_empty r.reason ≡ false)
  unfolding playback_directive_for_decision directive_for should_interrupt_output should_duck_output
      normalize_interruption_policy recommended_duck_hold clamp_directive_duration
  directive_lem d = ground arith
