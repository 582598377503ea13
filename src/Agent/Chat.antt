-- ===== src/Agent/Chat.antt =====
-- The messages, the tool calls and the deltas of internal/agent/llm.go and contracts.go there, and the
-- functions of internal/agent/llm_executor.go on one of them.
use agent_server.Prelude.{ℤ, Bool, true, false, ◌||◌, List, [], if◌then◌else◌, is_empty}
use agent_server.Text.{Text, codes, text_eq, trim_space, to_lower}

pub record ChatToolCall : Type 0 where
  pub id : Text
  pub name : Text
  pub arguments : Text

pub record ChatMessage : Type 0 where
  pub role : Text
  pub content : Text
  pub tool_call_id : Text
  pub tool_calls : List ChatToolCall

pub record ChatModelResponse : Type 0 where
  pub text : Text
  pub finish_reason : Text
  pub message : ChatMessage

pub record ToolCall : Type 0 where
  pub call_id : Text
  pub session_id : Text
  pub device_id : Text
  pub client_type : Text
  pub tool_name : Text
  pub tool_input : Text

pub record ToolResult : Type 0 where
  pub call_id : Text
  pub tool_name : Text
  pub tool_status : Text
  pub tool_output : Text

pub data TurnDeltaKind : Type 0 where
  text_delta tool_call_delta tool_result_delta : TurnDeltaKind

pub record TurnDelta : Type 0 where
  pub kind : TurnDeltaKind
  pub text : Text
  pub tool_call_id : Text
  pub tool_name : Text
  pub tool_status : Text
  pub tool_input : Text
  pub tool_output : Text

-- Of TurnOutput, what the executor sets before its caller adds the deltas.
pub record TurnOutput : Type 0 where
  pub text : Text
  pub end_session : Bool
  pub end_reason : Text
  pub end_message : Text

pub record AudioInput : Type 0 where
  pub present : Bool
  pub frames : ℤ
  pub bytes : ℤ

-- TurnInput without its images and its trace.
pub record TurnInput : Type 0 where
  pub turn_id : Text
  pub user_text : Text
  pub audio : AudioInput
  pub metadata : List (Text × Text)
  pub session_id : Text
  pub device_id : Text
  pub client_type : Text

unfoldable pub response_text : ChatModelResponse → Text
response_text r = if is_empty (r.message).content then r.text else (r.message).content

abbrev pub or_default : Text → Text → Text
or_default s default = if is_empty s then default else s

abbrev pub or_if_blank : Text → Text → Text
or_if_blank s default = if is_empty (trim_space s) then default else s

unfoldable pub normalized_assistant_message : ChatModelResponse → ChatMessage
normalized_assistant_message r = record (r.message) {
  role = or_default (r.message).role (codes "assistant");
  content = or_default (r.message).content (response_text r);
}

unfoldable pub normalized_tool_arguments : Text → Text
normalized_tool_arguments arguments = or_default (trim_space arguments) (codes "{}")

unfoldable pub should_end_session : Text → Bool
should_end_session text =
    let normalized = to_lower (trim_space text) in
    text_eq normalized (codes "/end")
    || text_eq normalized (codes "bye")
    || text_eq normalized (codes "goodbye")
    || text_eq normalized (codes "结束")
    || text_eq normalized (codes "结束对话")

unfoldable pub turn_output_from_text : Text → Text → TurnOutput
turn_output_from_text input_text text =
    if should_end_session input_text
    then record {
      text = text;
      end_session = true;
      end_reason = codes "completed";
      end_message = codes "dialog finished";
    }
    else record { text = text; end_session = false; end_reason = []; end_message = [] }
