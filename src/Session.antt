-- ===== src/Session.antt =====
-- The session state machine: internal/session/types.go and internal/session/realtime_session.go.
-- A method that mutates `*RealtimeSession` takes the clock reading that its `time.Now()` returns and
-- gives the new record beside its result. The mutex makes each method one atomic step.
pub mod Types
pub mod Invariant
pub mod Lanes
pub mod Steps
pub mod Audio
mod Tests
use agent_server.Prelude.{
  ℕ, Bool, true, false, not, ◌||◌, List, [], ◌∷◌, ◌++◌, is_empty, length, concat, if◌then◌else◌, ℤ,
  pos, add64, wrap, sub_ℕ, Result, ok, err,
}
use agent_server.Clock.{Time, zero_time}
use agent_server.Text.{Text, codes, format_int, text_eq}
use Types.{
  State, InputState, OutputState, CloseReason, SessionError, Bytes, StartRequest, Snapshot,
  CommittedTurn, RealtimeSession, Reply, derive_compat_state, has_id, clone_snapshot, idle_snapshot,
  new_realtime_session, unix_epoch, generated_id, session_id_for, active, closing, active, closing,
  closing, session_already_active, no_active_session,
}

-- The lines that end every accepted call: `LastActivityAt` and the derived state are set anew.
unfoldable pub touch : Time → RealtimeSession → RealtimeSession
unfolding derive_compat_state
touch now s = record s {
  current = record s.current {
    last_activity_at = now;
    state = derive_compat_state s.current.input_state s.current.output_state s.active;
  };
}

-- A call that needs an active session: it is refused without one, and else makes the change and
-- replies with a copy of the snapshot.
unfoldable pub if_active : Time → (Snapshot → Snapshot) → RealtimeSession → Reply Snapshot
unfolding touch clone_snapshot
if_active now change s =
    if s.active
    then (let t = touch now (record s { current = change s.current }) in
        (t, ok (clone_snapshot t.current)))
    else (s, err no_active_session)

unfoldable pub start : Time → StartRequest → RealtimeSession → Reply Snapshot
unfolding session_id_for derive_compat_state clone_snapshot
start now req s =
    if s.active
    then (s, err session_already_active)
    else (let c : Snapshot = record {
      session_id = session_id_for req now;
      state = derive_compat_state InputState.active OutputState.idle true;
      input_state = InputState.active;
      output_state = OutputState.idle;
      close_reason = CloseReason.unset;
      device_id = req.device_id;
      client_type = req.client_type;
      firmware_version = req.firmware_version;
      mode = req.mode;
      input_codec = req.input_codec;
      input_sample_rate = req.input_sample_rate;
      input_channels = req.input_channels;
      input_frames = pos 0;
      audio_bytes = pos 0;
      turns = pos 0;
      started_at = now;
      last_activity_at = now;
      client_can_end = req.client_can_end;
      server_can_end = req.server_can_end;
    } in
        (record { active = true; current = c; turn_audio_chunks = [] }, ok (clone_snapshot c)))

abbrev count_frame : Bytes → Snapshot → Snapshot
count_frame payload c = record c {
  input_state = InputState.active;
  input_frames = add64 c.input_frames (pos 1);
  audio_bytes = add64 c.audio_bytes (pos (length payload));
}

unfoldable pub ingest_owned_audio_frame : Time → Bytes → RealtimeSession → Reply Snapshot
unfolding if_active
ingest_owned_audio_frame now payload s =
    if s.active
    then if_active now (count_frame payload) (record s {
      turn_audio_chunks =
          if is_empty payload then s.turn_audio_chunks else s.turn_audio_chunks ++ payload ∷ [];
    })
    else (s, err no_active_session)

-- The copy of the payload is the payload, where slices are values.
unfoldable pub ingest_audio_frame : Time → Bytes → RealtimeSession → Reply Snapshot
unfolding ingest_owned_audio_frame
ingest_audio_frame now payload s = ingest_owned_audio_frame now payload s

unfoldable pub accept_text : Time → RealtimeSession → Reply Snapshot
unfolding if_active
accept_text now = if_active now (λ c. record c { input_state = InputState.active })

-- `totalBytes` only sizes the allocation.
unfoldable pub flatten_turn_audio_chunks : List Bytes → ℤ → Bytes
flatten_turn_audio_chunks [] total_bytes = []
flatten_turn_audio_chunks (chunk ∷ []) total_bytes = chunk
flatten_turn_audio_chunks (chunk ∷ next ∷ rest) total_bytes = concat (chunk ∷ next ∷ rest)

-- The output lane after a commit: playback and closing stay.
abbrev pub committed_output : OutputState → OutputState
committed_output OutputState.speaking = OutputState.speaking
committed_output OutputState.closing = OutputState.closing
committed_output _ = OutputState.thinking

unfoldable pub commit_turn : Time → RealtimeSession → Reply CommittedTurn
unfolding touch clone_snapshot flatten_turn_audio_chunks
commit_turn now s =
    if s.active
    then (let t = touch now (record s {
      current = record s.current {
        input_state = InputState.committed;
        output_state = committed_output s.current.output_state;
        turns = add64 s.current.turns (pos 1);
      };
    }) in
        (
          record t { turn_audio_chunks = [] },
          ok (record {
            snapshot = clone_snapshot t.current;
            audio_pcm = flatten_turn_audio_chunks t.turn_audio_chunks t.current.audio_bytes;
          }),
        ))
    else (s, err no_active_session)

-- The input lane when the output lane begins to think or to speak.
abbrev pub settled_input : InputState → InputState
settled_input InputState.idle = InputState.committed
settled_input InputState.closing = InputState.committed
settled_input i = i

unfoldable pub apply_compat_state : State → Snapshot → Snapshot
apply_compat_state State.idle c = record c {
  input_state = InputState.idle;
  output_state = OutputState.idle;
}
apply_compat_state State.thinking c = record c {
  input_state = settled_input c.input_state;
  output_state = OutputState.thinking;
}
apply_compat_state State.speaking c = record c {
  input_state = settled_input c.input_state;
  output_state = OutputState.speaking;
}
apply_compat_state State.closing c = record c {
  input_state = InputState.closing;
  output_state = OutputState.closing;
}
apply_compat_state _ c = record c {
  input_state = InputState.active;
  output_state = OutputState.idle;
}

unfoldable pub set_state : Time → State → RealtimeSession → Reply Snapshot
unfolding if_active apply_compat_state
set_state now st = if_active now (apply_compat_state st)

unfoldable pub normalize_input_state : InputState → InputState
normalize_input_state (InputState.other t) = InputState.active
normalize_input_state i = i

unfoldable pub normalize_output_state : OutputState → OutputState
normalize_output_state (OutputState.other t) = OutputState.idle
normalize_output_state o = o

unfoldable pub set_input_state : Time → InputState → RealtimeSession → Reply Snapshot
unfolding if_active normalize_input_state
set_input_state now i = if_active now (λ c. record c { input_state = normalize_input_state i })

unfoldable pub set_output_state : Time → OutputState → RealtimeSession → Reply Snapshot
unfolding if_active normalize_output_state
set_output_state now o = if_active now (λ c. record c { output_state = normalize_output_state o })

unfoldable pub end_session : Time → CloseReason → RealtimeSession → Reply Snapshot
unfolding if_active
end_session now reason = if_active now (λ c. record c {
  input_state = InputState.closing;
  output_state = OutputState.closing;
  close_reason = reason;
})

-- The derived state is not set anew here.
unfoldable pub clear_turn : Time → RealtimeSession → RealtimeSession
clear_turn now s = record s {
  current = record s.current { input_frames = pos 0; audio_bytes = pos 0; last_activity_at = now };
  turn_audio_chunks = [];
}

unfoldable pub reset : RealtimeSession → RealtimeSession
unfolding idle_snapshot
reset s = record { active = false; current = idle_snapshot; turn_audio_chunks = [] }

unfoldable pub snapshot : RealtimeSession → Snapshot
unfolding clone_snapshot
snapshot s = clone_snapshot s.current
