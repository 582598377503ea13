-- ===== src/Session/Types.antt =====
-- The data of a session: internal/session/types.go and the types and copies of
-- internal/session/realtime_session.go.
use agent_server.Prelude.{
  ℕ, Bool, true, false, not, List, [], ◌++◌, is_empty, if◌then◌else◌, ℤ, pos, wrap, sub_ℕ, Result,
}
use agent_server.Clock.{Time, zero_time}
use agent_server.Text.{Text, codes, format_int}

-- The string types of types.go. `other` is any string that is not one of the constants.
pub data State : Type 0 where
  idle active thinking speaking closing : State
  other : Text → State

pub data InputState : Type 0 where
  idle active previewing committed closing : InputState
  other : Text → InputState

pub data OutputState : Type 0 where
  idle thinking speaking closing : OutputState
  other : Text → OutputState

-- `unset` is the empty string of a session that has not ended.
pub data CloseReason : Type 0 where
  unset client_stop server_stop completed wake_cancelled device_sleep : CloseReason
  network_shutdown idle_timeout max_duration error : CloseReason
  other : Text → CloseReason

pub data SessionError : Type 0 where
  session_already_active no_active_session : SessionError

abbrev pub Bytes : Type 0
Bytes = List ℕ

pub record StartRequest : Type 0 where
  pub requested_session_id : Text
  pub device_id : Text
  pub client_type : Text
  pub firmware_version : Text
  pub mode : Text
  pub input_codec : Text
  pub input_sample_rate : ℤ
  pub input_channels : ℤ
  pub client_can_end : Bool
  pub server_can_end : Bool

pub record Snapshot : Type 0 where
  pub session_id : Text
  pub state : State
  pub input_state : InputState
  pub output_state : OutputState
  pub close_reason : CloseReason
  pub device_id : Text
  pub client_type : Text
  pub firmware_version : Text
  pub mode : Text
  pub input_codec : Text
  pub input_sample_rate : ℤ
  pub input_channels : ℤ
  pub input_frames : ℤ
  pub audio_bytes : ℤ
  pub turns : ℤ
  pub started_at : Time
  pub last_activity_at : Time
  pub client_can_end : Bool
  pub server_can_end : Bool

pub record CommittedTurn : Type 0 where
  pub snapshot : Snapshot
  pub audio_pcm : Bytes

pub record RealtimeSession : Type 0 where
  pub active : Bool
  pub current : Snapshot
  pub turn_audio_chunks : List Bytes

abbrev pub Reply : Type 0 → Type 0
Reply A = RealtimeSession × Result SessionError A

-- `input` is not read.
unfoldable pub derive_compat_state : InputState → OutputState → Bool → State
derive_compat_state input output false = State.idle
derive_compat_state input OutputState.closing true = State.closing
derive_compat_state input OutputState.speaking true = State.speaking
derive_compat_state input OutputState.thinking true = State.thinking
derive_compat_state input _ true = State.active

-- `snapshot.SessionID != ""`
abbrev pub has_id : Snapshot → Bool
has_id c = not (is_empty c.session_id)

unfoldable pub clone_snapshot : Snapshot → Snapshot
unfolding derive_compat_state
clone_snapshot c = record c { state = derive_compat_state c.input_state c.output_state (has_id c) }

unfoldable pub idle_snapshot : Snapshot
idle_snapshot = record {
  session_id = [];
  state = State.idle;
  input_state = InputState.idle;
  output_state = OutputState.idle;
  close_reason = CloseReason.unset;
  device_id = [];
  client_type = [];
  firmware_version = [];
  mode = [];
  input_codec = [];
  input_sample_rate = pos 0;
  input_channels = pos 0;
  input_frames = pos 0;
  audio_bytes = pos 0;
  turns = pos 0;
  started_at = zero_time;
  last_activity_at = zero_time;
  client_can_end = false;
  server_can_end = false;
}

unfoldable pub new_realtime_session : RealtimeSession
unfolding idle_snapshot
new_realtime_session = record { active = false; current = idle_snapshot; turn_audio_chunks = [] }

-- The nanoseconds from the zero time to 1970.
abbrev pub unix_epoch : ℕ
unix_epoch = 62135596800000000000

-- fmt.Sprintf("sess_%d", now.UnixNano())
unfoldable pub generated_id : Time → Text
unfolding format_int wrap
generated_id now = codes "sess_" ++ format_int (wrap (sub_ℕ now unix_epoch))

unfoldable pub session_id_for : StartRequest → Time → Text
unfolding generated_id
session_id_for req now =
    if is_empty req.requested_session_id then generated_id now else req.requested_session_id
