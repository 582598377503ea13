-- ===== src/Session/Tests.antt =====
-- Runs of the session model, and its theorems at concrete inputs.
use agent_server.Prelude.{ℕ, ◌≡◌, refl, true, List, [], ◌∷◌, map, some, pos}
use agent_server.Text.{codes}
use agent_server.Session.{end_session}
use agent_server.Session.Types.{
  Bytes, State, InputState, OutputState, CloseReason, StartRequest, Snapshot, RealtimeSession,
  new_realtime_session, idle_snapshot, generated_id,
}
use agent_server.Session.Steps.{
  start_op, ingest_op, text_op, commit_op, output_op, step, run, answers,
}
use agent_server.Session.Invariant.{
  IsWellFormed, reachable-IsWellFormed, answered, refusal, refused_with, step-refusals,
}
use agent_server.Session.Lanes.{IsClosing-persists, IsClosing}
use agent_server.Session.Audio.{view, handed, intake_run, intake_outputs, run-refines, frames}

abbrev request : StartRequest
request = record {
  requested_session_id = codes "sess_a";
  device_id = codes "dev";
  client_type = codes "rtos";
  firmware_version = codes "1.0";
  mode = codes "voice";
  input_codec = codes "pcm16le";
  input_sample_rate = pos 16000;
  input_channels = pos 1;
  client_can_end = true;
  server_can_end = true;
}

abbrev started : RealtimeSession
started = run ((1, start_op request) ∷ []) new_realtime_session

abbrev speaking : RealtimeSession
speaking =
    run ((1, start_op request) ∷ (2, output_op OutputState.speaking) ∷ []) new_realtime_session

started_active : started.active ≡ true
unfolding run step new_realtime_session idle_snapshot
started_active = refl

speaking_active : speaking.active ≡ true
unfolding run step new_realtime_session idle_snapshot
speaking_active = refl

generated : generated_id 62135596800000000042 ≡ codes "sess_42"
unfolding generated_id
generated = refl

abbrev two_frames : List (ℕ × Bytes)
two_frames = (2, 1 ∷ 2 ∷ []) ∷ (3, []) ∷ (4, 3 ∷ []) ∷ []

reachable-IsWellFormed_example : IsWellFormed started
reachable-IsWellFormed_example = reachable-IsWellFormed ((1, start_op request) ∷ [])

-- The snapshot that the answer to a text shows.
abbrev with_text : Snapshot
with_text = record started.current {
  input_state = InputState.active;
  state = State.active;
  last_activity_at = 2;
}

text_answered : answered (step 2 text_op started).1 ≡ some with_text
unfolding run step new_realtime_session idle_snapshot
text_answered = refl

step-refusals_example :
    (refused_with (step 2 commit_op new_realtime_session).1
      ≡ refusal commit_op new_realtime_session.active)
    × ((e : _)
        → refusal commit_op new_realtime_session.active ≡ some e
        → (step 2 commit_op new_realtime_session).0 ≡ new_realtime_session)
step-refusals_example = step-refusals 2 commit_op new_realtime_session

IsClosing-persists_example : IsClosing (
    run
      ((4, ingest_op (7 ∷ [])) ∷ (5, commit_op) ∷ [])
      (end_session 3 CloseReason.completed started).0)
IsClosing-persists_example =
    IsClosing-persists 3 CloseReason.completed ((4, ingest_op (7 ∷ [])) ∷ (5, commit_op) ∷ [])
      started started_active refl

run-refines_example :
    (view (run (frames two_frames) started) ≡ intake_run (frames two_frames) (view started))
    × (map handed (answers (frames two_frames) started)
        ≡ intake_outputs (frames two_frames) (view started))
run-refines_example = run-refines (frames two_frames) started
