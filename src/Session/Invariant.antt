-- ===== src/Session/Invariant.antt =====
-- What holds of a session between two calls.
use agent_server.Prelude.{
  ℕ, ◌≡◌, refl, Bool, true, false, not, List, [], ◌∷◌, ◌++◌, is_empty, all, Option, none, some,
  arith,
}
use agent_server.Clock.{Time}
use agent_server.Session.{snapshot}
use agent_server.Session.Types.{
  Bytes, InputState, OutputState, SessionError, session_already_active, no_active_session, Snapshot,
  RealtimeSession, StartRequest, derive_compat_state, has_id, new_realtime_session, session_id_for,
}
use agent_server.Session.Steps.{
  Op, start_op, ingest_op, clear_op, reset_op, Answer, shown, committed_turn, refused, nothing,
  step, run,
}

abbrev has_bytes : Bytes → Bool
has_bytes b = not (is_empty b)

pub record IsWellFormed (s : RealtimeSession) : Type 0 where
  -- The session has an identifier exactly when it is active.
  pub identified : has_id s.current ≡ s.active
  -- The state that clients of the old protocol read follows from the output lane.
  pub derived :
      s.current.state ≡ derive_compat_state s.current.input_state s.current.output_state s.active
  -- Nothing is buffered without a session, and no empty chunk ever is.
  pub quiet : s.active ≡ false → s.turn_audio_chunks ≡ []
  pub solid : all has_bytes s.turn_audio_chunks ≡ true
  -- Without a session both lanes are idle.
  pub input_idle : s.active ≡ false → s.current.input_state ≡ InputState.idle
  pub output_idle : s.active ≡ false → s.current.output_state ≡ OutputState.idle

has_id-start : (req : StartRequest) (now : Time) → is_empty (session_id_for req now) ≡ false
unfolding session_id_for
has_id-start req now = ground arith

all-push :
    (chunks : List Bytes) (b : ℕ) (bs : Bytes)
    → all has_bytes chunks ≡ true
    → all has_bytes (chunks ++ (b ∷ bs) ∷ []) ≡ true
all-push [] b bs h = refl
all-push (c ∷ chunks) b bs h = ground (arith, all-push chunks b bs)

pub new-IsWellFormed : IsWellFormed new_realtime_session
unfolding new_realtime_session derive_compat_state
new-IsWellFormed = ground arith

-- Every call keeps the invariant, refused calls included.
pub step-IsWellFormed :
    (now : Time) (op : Op) (s : RealtimeSession) → IsWellFormed s → IsWellFormed (step now op s).0
unfolding step
step-IsWellFormed now (start_op req) s h = ground (arith, has_id-start req now)
step-IsWellFormed now (ingest_op []) s h = ground arith
step-IsWellFormed now (ingest_op (b ∷ bs)) s h = ground (arith, all-push s.turn_audio_chunks b bs)
step-IsWellFormed now _ s h = ground arith

pub run-IsWellFormed :
    (ops : List (Time × Op)) (s : RealtimeSession) → IsWellFormed s → IsWellFormed (run ops s)
unfolding run
run-IsWellFormed [] s h = h
run-IsWellFormed ((now, op) ∷ ops) s h =
    run-IsWellFormed ops (step now op s).0 (step-IsWellFormed now op s h)

-- After any calls, at any clock readings, a new session satisfies the invariant: it has an
-- identifier exactly when it is active, its reported state is the one derived from the output lane,
-- it buffers no empty chunk, and without a session it buffers nothing and both lanes are idle.
pub reachable-IsWellFormed : (ops : List (Time × Op)) → IsWellFormed (run ops new_realtime_session)
reachable-IsWellFormed ops = run-IsWellFormed ops new_realtime_session new-IsWellFormed

-- `cloneSnapshot` derives the state from the identifier, the session from its flag: in a
-- well-formed session the two agree, so the copy handed out is the record that is stored.
pub snapshot-stored : (s : RealtimeSession) → IsWellFormed s → snapshot s ≡ s.current
unfolding snapshot
snapshot-stored s h = ground (arith, h.identified, h.derived)

-- The snapshot in an answer, if it carries one.
abbrev pub answered : Answer → Option Snapshot
answered (shown c) = some c
answered (committed_turn t) = some t.snapshot
answered (refused e) = none
answered nothing = none

-- Every snapshot that a call on a well-formed session answers with is the one that the session
-- then stores.
pub step-answers_stored :
    (now : Time) (op : Op) (s : RealtimeSession) {c : Snapshot}
    → IsWellFormed s
    → answered (step now op s).1 ≡ some c
    → c ≡ (step now op s).0.current
unfolding step
step-answers_stored now (start_op req) s h e = ground (arith, has_id-start req now)
step-answers_stored now _ s h e = ground arith

-- What decides whether a call is refused, and with which error.
abbrev pub refusal : Op → Bool → Option SessionError
refusal (start_op req) true = some session_already_active
refusal (start_op req) false = none
refusal clear_op b = none
refusal reset_op b = none
refusal op true = none
refusal op false = some no_active_session

abbrev pub refused_with : Answer → Option SessionError
refused_with (refused e) = some e
refused_with a = none

-- A call is refused in these cases alone: `Start` on an active session, and any other call but
-- `ClearTurn` and `Reset` on an inactive one, each with its own error; and a refused call leaves the
-- session as it was.
pub step-refusals :
    (now : Time) (op : Op) (s : RealtimeSession)
    → (refused_with (step now op s).1 ≡ refusal op s.active)
      × ((e : SessionError) → refusal op s.active ≡ some e → (step now op s).0 ≡ s)
unfolding step
step-refusals now op s = ground arith
