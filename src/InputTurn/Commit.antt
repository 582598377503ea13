-- ===== src/InputTurn/Commit.antt =====
-- The commit of a previewed turn is reported once: the observations of
-- internal/voice/session_orchestrator.go.
use agent_server.Prelude.{
  ℕ, ◌+◌, ◌≡◌, Bool, true, false, ◌||◌, List, [], ◌∷◌, ◌++◌, any, if◌then◌else◌, Option, some,
  arith,
}
use agent_server.Floats.{Floats}
use agent_server.Preview.{InputPreview}
use agent_server.InputTurn.{
  InputTurnPreview, InputPreviewObservation, PushReply, pushed, failed, record_snapshot,
  record_snapshots, should_emit_final_preview_observation, emits_final, push_on,
  push_input_preview_audio_progressively, new_input_turn_preview,
}

-- How many commits are to be reported, from whether one was before and whether one is found.
abbrev pub owed : Bool → Bool → ℕ
owed true found = 0
owed false found = if found then 1 else 0

any-append :
    {A : Type 0} (p : A → Bool) (xs : List A) (y : A) → any p (xs ++ y ∷ []) ≡ (any p xs || p y)
any-append p [] y = ground arith
any-append p (x ∷ xs) y = ground (arith, any-append p xs y)

module _ {F : Floats} where
  abbrev pub commits : List (InputPreviewObservation F) → ℕ
  commits [] = 0
  commits (o ∷ os) = (if o.commit_suggested then 1 else 0) + commits os

  -- The snapshots that a reply hands over.
  abbrev pub handed : PushReply F → List (InputPreview F)
  handed (pushed intermediate snapshot) = intermediate ++ snapshot ∷ []
  handed (failed intermediate) = intermediate

  abbrev pub suggests : InputPreview F → Bool
  suggests s = s.commit_suggested

  records_lem :
      (p : InputTurnPreview F) (ss : List (InputPreview F))
      → let r = record_snapshots p ss in
        (commits r.1 ≡ owed p.last_commit_logged (any suggests ss))
        × (r.0.last_commit_logged ≡ (p.last_commit_logged || any suggests ss))
  unfolding record_snapshots record_snapshot
  records_lem p [] = ground arith
  records_lem p (s ∷ ss) = ground (arith, records_lem (record_snapshot p s).0 ss)

  commits-append :
      (os : List (InputPreviewObservation F)) (ps : List (InputPreviewObservation F))
      → commits (os ++ ps) ≡ commits os + commits ps
  commits-append [] ps = ground arith
  commits-append (o ∷ os) ps = ground (arith, commits-append os ps)

  -- An observation that is left out carries no commit.
  left_out-commit :
      (p : InputTurnPreview F) (ss : List (InputPreview F)) (snapshot : InputPreview F)
      → let r = record_snapshots p ss in
        let final = (record_snapshot r.0 snapshot).1 in
        emits_final r.1 final ≡ false → final.commit_suggested ≡ false
  unfolding record_snapshots record_snapshot emits_final should_emit_final_preview_observation
  left_out-commit p [] snapshot h = cc
  left_out-commit p (s ∷ []) snapshot h = ground arith
  left_out-commit p (s ∷ t ∷ ss) snapshot h =
      left_out-commit (record_snapshot p s).0 (t ∷ ss) snapshot h

  final_lem :
      (p : InputTurnPreview F) (snapshot : InputPreview F)
      → let r = record_snapshot p snapshot in
        (commits (r.1 ∷ []) ≡ owed p.last_commit_logged snapshot.commit_suggested)
        × (r.0.last_commit_logged ≡ (p.last_commit_logged || snapshot.commit_suggested))
  unfolding record_snapshot
  final_lem p snapshot = ground arith

  -- What a push on a preview emits of commits, and whether the preview then has one logged.
  push_lem :
      (p : InputTurnPreview F) (reply : PushReply F)
      → let r = push_on p reply in
        (commits r.1 ≡ owed p.last_commit_logged (any suggests (handed reply)))
        × (r.0.last_commit_logged ≡ (p.last_commit_logged || any suggests (handed reply)))
  unfolding push_on
  push_lem p (failed intermediate) = records_lem p intermediate
  push_lem p (pushed intermediate snapshot) =
      let r = record_snapshots p intermediate in
      let final = record_snapshot r.0 snapshot in
      ground (
        arith,
        records_lem p intermediate,
        final_lem r.0 snapshot,
        any-append suggests intermediate snapshot,
        left_out-commit p intermediate snapshot,
        commits-append r.1 (final.1 ∷ []),
        commits-append r.1 [],
      )

  -- The observations emitted by a list of pushes, and the preview after them.
  unfoldable pub push_all :
      Option (InputTurnPreview F)
      → List (PushReply F)
      → Option (InputTurnPreview F) × List (InputPreviewObservation F)
  push_all m [] = (m, [])
  push_all m (reply ∷ replies) =
      let one = push_input_preview_audio_progressively m reply in
      let rest = push_all one.0 replies in (rest.0, one.1 ++ rest.1)

  -- Whether any of the snapshots of any reply suggests a commit.
  abbrev pub any_commit : List (PushReply F) → Bool
  any_commit = any (λ reply. any suggests (handed reply))

  pushes_lem :
      (p : InputTurnPreview F) (replies : List (PushReply F))
      → commits (push_all (some p) replies).1 ≡ owed p.last_commit_logged (any_commit replies)
  unfolding push_all push_input_preview_audio_progressively
  pushes_lem p [] = ground arith
  pushes_lem p (reply ∷ replies) =
      let one = push_on p reply in
      ground (
        arith,
        push_lem p reply,
        pushes_lem one.0 replies,
        commits-append one.1 (push_all (some one.0) replies).1,
      )

-- Of a new preview, whatever the session hands over and whichever calls fail, the observations that
-- are emitted report a commit exactly once if any snapshot suggests one, and never otherwise; so
-- leaving out a last observation that changes nothing loses no commit.
pub push_all-commits_once :
    (F : Floats) (replies : List (PushReply F))
    → commits (push_all (some (new_input_turn_preview F)) replies).1
      ≡ (if any_commit replies then 1 else 0)
unfolding new_input_turn_preview
push_all-commits_once F replies = pushes_lem (new_input_turn_preview F) replies
