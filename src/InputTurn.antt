-- ===== src/InputTurn.antt =====
-- The preview of a turn in `SessionOrchestrator` of internal/voice/session_orchestrator.go: what the
-- gateway is told of the snapshots of a preview. The preview session is external; what it hands over
-- in a call is an argument. Its context, and closing it, have no part in this.
pub mod Commit
mod Tests
use agent_server.Prelude.{
  Bool, true, false, not, ◌&&◌, ◌||◌, List, [], ◌∷◌, ◌++◌, is_empty, if◌then◌else◌, Option, none,
  some, ℤ, pos, leb_ℤ,
}
use agent_server.Text.{Text, text_eq}
use agent_server.Floats.{Floats}
use agent_server.Preview.{InputPreview, zero_arbitration}

pub record InputTurnPreview (F : Floats) : Type 0 where
  pub last : InputPreview F
  pub last_partial_text : Text
  pub last_commit_logged : Bool

pub record InputPreviewObservation (F : Floats) : Type 0 where
  pub preview : InputPreview F
  pub active : Bool
  pub partial_changed : Bool
  pub commit_suggested : Bool

-- What the session hands over for a piece of audio: the snapshots on the way, and the last one unless
-- the call failed. A session that is not progressive has none on the way.
pub data PushReply (F : Floats) : Type 0 where
  pushed : List (InputPreview F) → InputPreview F → PushReply F
  failed : List (InputPreview F) → PushReply F

unfoldable pub zero_preview : (F : Floats) → InputPreview F
zero_preview F = record {
  partial_text = [];
  stable_prefix = [];
  endpoint_reason = [];
  audio_bytes = pos 0;
  commit_suggested = false;
  speech_started = false;
  utterance_complete = false;
  arbitration = zero_arbitration F;
}

-- `&inputTurnPreview{session: session}`
unfoldable pub new_input_turn_preview : (F : Floats) → InputTurnPreview F
new_input_turn_preview F = record {
  last = zero_preview F;
  last_partial_text = [];
  last_commit_logged = false;
}

-- `a != b` on Booleans and on integers.
abbrev pub differ : Bool → Bool → Bool
differ true b = not b
differ false b = b

abbrev pub differ_ℤ : ℤ → ℤ → Bool
differ_ℤ a b = not (leb_ℤ a b && leb_ℤ b a)

module _ {F : Floats} where
  -- `recordInputPreviewSnapshot` with a preview.
  unfoldable pub record_snapshot :
      InputTurnPreview F → InputPreview F → InputTurnPreview F × InputPreviewObservation F
  record_snapshot p snapshot =
      let changed =
        not (is_empty snapshot.partial_text)
        && not (text_eq snapshot.partial_text p.last_partial_text) in
      let commit_new = snapshot.commit_suggested && not p.last_commit_logged in
      (
        record {
          last = snapshot;
          last_partial_text = if changed then snapshot.partial_text else p.last_partial_text;
          last_commit_logged = if commit_new then true else p.last_commit_logged;
        },
        record {
          preview = snapshot;
          active = true;
          partial_changed = changed;
          commit_suggested = commit_new;
        },
      )

  unfoldable pub record_snapshots :
      InputTurnPreview F
      → List (InputPreview F)
      → InputTurnPreview F × List (InputPreviewObservation F)
  record_snapshots p [] = (p, [])
  record_snapshots p (s ∷ ss) =
      let one = record_snapshot p s in
      let rest = record_snapshots one.0 ss in (rest.0, one.1 ∷ rest.1)

  unfoldable pub should_emit_final_preview_observation :
      InputPreviewObservation F → InputPreviewObservation F → Bool
  should_emit_final_preview_observation previous current =
      not (text_eq previous.preview.partial_text current.preview.partial_text)
      || not (text_eq previous.preview.stable_prefix current.preview.stable_prefix)
      || not (text_eq previous.preview.endpoint_reason current.preview.endpoint_reason)
      || differ_ℤ previous.preview.audio_bytes current.preview.audio_bytes
      || differ previous.preview.speech_started current.preview.speech_started
      || differ previous.commit_suggested current.commit_suggested

  -- Whether the last observation is emitted after the ones on the way.
  unfoldable pub emits_final : List (InputPreviewObservation F) → InputPreviewObservation F → Bool
  emits_final [] final = true
  emits_final (o ∷ []) final = should_emit_final_preview_observation o final
  emits_final (o ∷ p ∷ rest) final = emits_final (p ∷ rest) final

  -- The observations that `PushInputPreviewAudioProgressively` emits, on a preview.
  unfoldable pub push_on :
      InputTurnPreview F → PushReply F → InputTurnPreview F × List (InputPreviewObservation F)
  push_on p (failed intermediate) = record_snapshots p intermediate
  push_on p (pushed intermediate snapshot) =
      let on_the_way = record_snapshots p intermediate in
      let final = record_snapshot on_the_way.0 snapshot in
      (final.0, on_the_way.1 ++ (if emits_final on_the_way.1 final.1 then final.1 ∷ [] else []))

  -- Without a preview nothing is called and nothing is emitted.
  unfoldable pub push_input_preview_audio_progressively :
      Option (InputTurnPreview F)
      → PushReply F
      → Option (InputTurnPreview F) × List (InputPreviewObservation F)
  push_input_preview_audio_progressively none reply = (none, [])
  push_input_preview_audio_progressively (some p) reply = let r = push_on p reply in (some r.0, r.1)

  -- A snapshot that comes when the preview is gone is passed on, and reports nothing.
  unfoldable pub record_input_preview_snapshot :
      Option (InputTurnPreview F)
      → InputPreview F
      → Option (InputTurnPreview F) × InputPreviewObservation F
  record_input_preview_snapshot none snapshot = (
    none,
    record {
      preview = snapshot;
      active = false;
      partial_changed = false;
      commit_suggested = false;
    },
  )
  record_input_preview_snapshot (some p) snapshot =
      let r = record_snapshot p snapshot in (some r.0, r.1)

  -- `snapshot` is what the session's Poll hands over.
  unfoldable pub poll_input_preview :
      Option (InputTurnPreview F)
      → InputPreview F
      → Option (InputTurnPreview F) × InputPreviewObservation F
  unfolding record_input_preview_snapshot
  poll_input_preview none snapshot = record_input_preview_snapshot none (zero_preview F)
  poll_input_preview (some p) snapshot = record_input_preview_snapshot (some p) snapshot

  -- Where the session starts without an error.
  unfoldable pub ensure_input_preview : Option (InputTurnPreview F) → Option (InputTurnPreview F)
  ensure_input_preview none = some (new_input_turn_preview F)
  ensure_input_preview (some p) = some p

  -- The preview is dropped, and its session closed.
  unfoldable pub clear_input_preview : Option (InputTurnPreview F) → Option (InputTurnPreview F)
  clear_input_preview m = none
