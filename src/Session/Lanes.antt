-- ===== src/Session/Lanes.antt =====
-- The input and output lanes of a session, and the single state that older clients read: the state
-- machine of internal/session/realtime_session.go.
use agent_server.Prelude.{
  ◌≡◌, ◌≢◌, Bool, true, false, List, [], ◌∷◌, all, &&_parts, ◌↔◌, add64, pos, arith,
}
use agent_server.Clock.{Time}
use agent_server.Session.{set_state, end_session, commit_turn}
use agent_server.Session.Types.{
  State, InputState, OutputState, CloseReason, RealtimeSession, derive_compat_state,
}
use agent_server.Session.Steps.{Op, state_op, output_op, reset_op, step, run}
use agent_server.Session.Invariant.{IsWellFormed}

-- What `SetState` makes clients see: `idle` and any unknown state read as `active`.
abbrev pub reported : State → State
reported State.thinking = State.thinking
reported State.speaking = State.speaking
reported State.closing = State.closing
reported _ = State.active

-- On an active session `SetState` reports the state that was set, except that `idle` and any
-- unknown state are reported as `active`.
pub set_state_reports :
    (now : Time) (st : State) (s : RealtimeSession)
    → s.active ≡ true
    → (set_state now st s).0.current.state ≡ reported st
unfolding set_state derive_compat_state
set_state_reports now st s h = ground arith

-- A commit while the server speaks or closes leaves the output lane alone, so playback goes on; in
-- any other case the lane turns to thinking. The input lane is committed, and the turn is counted.
pub commit_lanes :
    (now : Time) (s : RealtimeSession)
    → s.active ≡ true
    → let c = (commit_turn now s).0.current in
      (c.input_state ≡ InputState.committed)
      × (s.current.output_state ≡ OutputState.speaking → c.output_state ≡ OutputState.speaking)
      × (s.current.output_state ≡ OutputState.closing → c.output_state ≡ OutputState.closing)
      × ((s.current.output_state ≢ OutputState.speaking)
          → (s.current.output_state ≢ OutputState.closing)
          → c.state ≡ State.thinking)
      × (c.turns ≡ add64 s.current.turns (pos 1))
unfolding commit_turn derive_compat_state
commit_lanes now s h = ground arith

-- The calls that may move the output lane of a session that is closing.
abbrev pub keeps_closing : Op → Bool
keeps_closing (state_op st) = false
keeps_closing (output_op o) = false
keeps_closing reset_op = false
keeps_closing _ = true

pub record IsClosing (s : RealtimeSession) : Type 0 where
  pub active : s.active ≡ true
  pub output : s.current.output_state ≡ OutputState.closing
  pub state : s.current.state ≡ State.closing

end-IsClosing :
    (now : Time) (reason : CloseReason) (s : RealtimeSession)
    → s.active ≡ true
    → IsClosing (end_session now reason s).0
unfolding end_session derive_compat_state
end-IsClosing now reason s h = ground arith

step-IsClosing :
    (now : Time) (op : Op) (s : RealtimeSession)
    → keeps_closing op ≡ true
    → IsClosing s
    → IsClosing (step now op s).0
unfolding step
step-IsClosing now op s k h = ground arith

abbrev pub all_keep_closing : List (Time × Op) → Bool
all_keep_closing = all (λ timed. keeps_closing timed.1)

run-IsClosing :
    (ops : List (Time × Op)) (s : RealtimeSession)
    → all_keep_closing ops ≡ true
    → IsClosing s
    → IsClosing (run ops s)
unfolding run
run-IsClosing [] s k h = h
run-IsClosing ((now, op) ∷ ops) s k h =
    let (one, rest) = &&_parts (keeps_closing op) (all_keep_closing ops) k in
    run-IsClosing ops (step now op s).0 rest (step-IsClosing now op s one h)

-- Once `End` was accepted the session reports `closing`, whatever audio, text, commits, starts and
-- further ends arrive, until `SetState`, `SetOutputState` or `Reset` is called.
pub IsClosing-persists :
    (now : Time) (reason : CloseReason) (ops : List (Time × Op)) (s : RealtimeSession)
    → s.active ≡ true
    → all_keep_closing ops ≡ true
    → IsClosing (run ops (end_session now reason s).0)
IsClosing-persists now reason ops s h k =
    run-IsClosing ops (end_session now reason s).0 k (end-IsClosing now reason s h)

-- In a well-formed active session the reported state is `speaking` exactly when the output lane
-- speaks, `thinking` exactly when it thinks and `closing` exactly when it closes; in an inactive one
-- it is `idle`.
pub state_tells_output :
    (s : RealtimeSession)
    → IsWellFormed s
    → (s.active ≡ true
        → ((s.current.state ≡ State.speaking) ↔ (s.current.output_state ≡ OutputState.speaking))
          × ((s.current.state ≡ State.thinking) ↔ (s.current.output_state ≡ OutputState.thinking))
          × ((s.current.state ≡ State.closing) ↔ (s.current.output_state ≡ OutputState.closing)))
      × (s.active ≡ false → s.current.state ≡ State.idle)
unfolding derive_compat_state
state_tells_output s h = ground (arith, h.derived)
