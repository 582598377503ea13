-- ===== src/Session/Steps.antt =====
-- The calls that reach a session, as data, and runs of them: the methods of
-- internal/session/realtime_session.go in any order, at any clock readings.
use agent_server.Prelude.{List, [], ◌∷◌, Result, ok, err}
use agent_server.Clock.{Time}
use agent_server.Session.{
  start, ingest_audio_frame, accept_text, commit_turn, set_state, set_input_state, set_output_state,
  end_session, clear_turn, reset,
}
use agent_server.Session.Types.{
  Bytes, State, InputState, OutputState, CloseReason, StartRequest, SessionError, Snapshot,
  CommittedTurn, RealtimeSession,
}

pub data Op : Type 0 where
  start_op : StartRequest → Op
  ingest_op : Bytes → Op
  text_op : Op
  commit_op : Op
  state_op : State → Op
  input_op : InputState → Op
  output_op : OutputState → Op
  end_op : CloseReason → Op
  clear_op : Op
  reset_op : Op

-- What a call returns.
pub data Answer : Type 0 where
  shown : Snapshot → Answer
  committed_turn : CommittedTurn → Answer
  refused : SessionError → Answer
  nothing : Answer

abbrev pub show_answer : Result SessionError Snapshot → Answer
show_answer (ok c) = shown c
show_answer (err e) = refused e

abbrev pub commit_answer : Result SessionError CommittedTurn → Answer
commit_answer (ok c) = committed_turn c
commit_answer (err e) = refused e

unfoldable pub step : Time → Op → RealtimeSession → RealtimeSession × Answer
unfolding start ingest_audio_frame accept_text commit_turn set_state set_input_state
    set_output_state end_session clear_turn reset
step now (start_op req) s = let (t, r) = start now req s in (t, show_answer r)
step now (ingest_op payload) s = let (t, r) = ingest_audio_frame now payload s in (t, show_answer r)
step now text_op s = let (t, r) = accept_text now s in (t, show_answer r)
step now commit_op s = let (t, r) = commit_turn now s in (t, commit_answer r)
step now (state_op st) s = let (t, r) = set_state now st s in (t, show_answer r)
step now (input_op i) s = let (t, r) = set_input_state now i s in (t, show_answer r)
step now (output_op o) s = let (t, r) = set_output_state now o s in (t, show_answer r)
step now (end_op reason) s = let (t, r) = end_session now reason s in (t, show_answer r)
step now clear_op s = (clear_turn now s, nothing)
step now reset_op s = (reset s, nothing)

-- The state after a list of calls, each at its clock reading.
unfoldable pub run : List (Time × Op) → RealtimeSession → RealtimeSession
run [] s = s
run ((now, op) ∷ ops) s = run ops (step now op s).0

-- The answers to a list of calls.
unfoldable pub answers : List (Time × Op) → RealtimeSession → List Answer
answers [] s = []
answers ((now, op) ∷ ops) s = (step now op s).1 ∷ answers ops (step now op s).0
