-- ===== src/Agent.antt =====
-- The turn of a language model with tools: the loop of streamLLMOutput in
-- internal/agent/llm_executor.go, with runModelStep, executeToolCalls and invokeTool.
pub mod Chat
pub mod ToolNames
pub mod Deltas
pub mod Calls
pub mod Prewarm
pub mod Bootstrap
pub mod Turns
pub mod Resumed
mod TurnTests
pub mod FollowUp
pub mod Hints
mod FollowUpTests
pub mod Continued
pub mod Signature
pub mod Candidates
mod Tests
use agent_server.Prelude.{
  ℕ, zero, suc, ◌+◌, Bool, true, false, List, [], ◌∷◌, ◌++◌, if◌then◌else◌, is_empty, Option, none,
  some, Result, ok, err, pos,
}
use agent_server.Text.{Text, codes, trim_space, format_int}
use ToolNames.{actual_name}
use Chat.{
  ChatToolCall, ChatMessage, ChatModelResponse, ToolCall, ToolResult, TurnDelta, TurnDeltaKind,
  text_delta, tool_call_delta, tool_result_delta, TurnOutput, TurnInput, response_text, or_default,
  or_if_blank, normalized_assistant_message, normalized_tool_arguments, turn_output_from_text,
}

abbrev pub default_tool_loop_max_steps : ℕ
default_tool_loop_max_steps = 6

-- What a turn fails with: an error of the model or of the sink, or one of its own.
pub data TurnError {ℓ} (E : Type ℓ) : Type ℓ where
  external : E → TurnError E
  empty_text exceeded_budget : TurnError E

-- The deltas that were emitted so far, and what outputText holds.
pub record Progress : Type 0 where
  pub emitted : List TurnDelta
  pub output_text : Text

-- What a step leaves behind, with its result. The deltas that were emitted stay when it fails.
abbrev pub Outcome {ℓ κ} : Type κ → Type ℓ → Type (ℓ ⊔ κ)
Outcome E A = Progress × Result (TurnError E) A

infixl 5 ◌>>=◌
abbrev pub ◌>>=◌ {ℓ κ ι} :
    {E : Type κ} {A : Type ℓ} {B : Type ι}
    → Outcome E A
    → (A → Progress → Outcome E B)
    → Outcome E B
(p, ok a) >>= f = f a p
(p, err e) >>= f = (p, err e)

abbrev empty_delta : TurnDelta
empty_delta = record {
  kind = text_delta;
  text = [];
  tool_call_id = [];
  tool_name = [];
  tool_status = [];
  tool_input = [];
  tool_output = [];
}

abbrev pub text_of : Text → TurnDelta
text_of text = record empty_delta { text = text }

abbrev pub call_delta : ToolCall → TurnDelta
call_delta c = record empty_delta {
  kind = tool_call_delta;
  tool_call_id = c.call_id;
  tool_name = c.tool_name;
  tool_status = codes "started";
  tool_input = c.tool_input;
}

abbrev pub result_delta : ToolResult → TurnDelta
result_delta r = record empty_delta {
  kind = tool_result_delta;
  tool_call_id = r.call_id;
  tool_name = r.tool_name;
  tool_status = r.tool_status;
  tool_output = r.tool_output;
}

abbrev pub tool_message : ToolResult → ChatMessage
tool_message r = record {
  role = codes "tool";
  content = r.tool_output;
  tool_call_id = r.call_id;
  tool_calls = [];
}

-- What is external: the sink, which may refuse a delta after those it took; the tools, whose
-- result may depend on the deltas before it, and the text of their errors; and the model, which answers a request at once or as a stream of texts, and then gives
-- back the error of its sink. The aliases are those that listModelTools found.
pub record World {ℓ} (E : Type ℓ) : Type ℓ where
  pub sink : List TurnDelta → TurnDelta → Option E
  pub invoke : List TurnDelta → ToolCall → Result E ToolResult
  pub error_text : E → Text
  pub aliases : List (Text × Text)
  pub is_streaming : Bool
  pub complete : List ChatMessage → Result E ChatModelResponse
  pub stream : List ChatMessage → List Text × Result E ChatModelResponse

module _ {ℓ} {E : Type ℓ} (w : World E) where
  abbrev pub emitted_unless : TurnDelta → Progress → Option E → Outcome E (Unit {0})
  emitted_unless d p none = (record p { emitted = p.emitted ++ d ∷ [] }, ok tt)
  emitted_unless d p (some e) = (p, err (external e))

  -- emitTurnDelta
  unfoldable pub emit : TurnDelta → Progress → Outcome E (Unit {0})
  emit d p = emitted_unless d p (w.sink p.emitted d)

  abbrev pub write_text : Text → Progress → Progress
  write_text text p = record p { output_text = p.output_text ++ text }

  unfoldable pub invoke_tool : List TurnDelta → ToolCall → ToolResult
  invoke_tool deltas call =
      let result : ToolResult = elim (w.invoke deltas call) [
        | ok r ↦ r
        | err e ↦ record {
          call_id = call.call_id;
          tool_name = call.tool_name;
          tool_status = codes "failed";
          tool_output = w.error_text e;
        }
      ] in
      record result {
        call_id = or_if_blank result.call_id call.call_id;
        tool_name = or_if_blank result.tool_name call.tool_name;
        tool_status = or_if_blank result.tool_status (codes "completed");
      }

  -- The `index`th call of a message, from 0 on.
  unfoldable pub tool_call_for : TurnInput → ℕ → ChatToolCall → ToolCall
  tool_call_for input index c = record {
    call_id = or_default (trim_space c.id) (codes "tool_call_" ++ format_int (pos (index + 1)));
    session_id = input.session_id;
    device_id = input.device_id;
    client_type = input.client_type;
    tool_name = or_default (actual_name w.aliases c.name) (trim_space c.name);
    tool_input = normalized_tool_arguments c.arguments;
  }

  unfoldable pub execute_tool_calls :
      TurnInput → ℕ → List ChatToolCall → List ChatMessage → Progress → Outcome E (List ChatMessage)
  execute_tool_calls input index [] messages p = (p, ok messages)
  execute_tool_calls input index (c ∷ calls) messages p =
      let call = tool_call_for input index c in
      emit (call_delta call) p >>= λ _ p'.
      emit (result_delta (invoke_tool p'.emitted call)) p' >>= λ _ p''.
      execute_tool_calls input (index + 1) calls
        (messages ++ tool_message (invoke_tool p'.emitted call) ∷ []) p''

  -- The texts of a stream: an empty one is skipped.
  unfoldable pub emit_texts : List Text → Progress → Outcome E (Unit {0})
  emit_texts [] p = (p, ok tt)
  emit_texts (text ∷ texts) p =
      if is_empty text
      then emit_texts texts p
      else emit (text_of text) (write_text text p) >>= λ _ p'. emit_texts texts p'

  abbrev pub joined : List Text → Text
  joined [] = []
  joined (text ∷ texts) = text ++ joined texts

  abbrev pub with_defaults : Text → ChatModelResponse → ChatModelResponse
  with_defaults text r =
      let message = record (r.message) {
        role = or_default (r.message).role (codes "assistant");
        content = or_default (r.message).content text;
      } in
      record r { message = message }

  abbrev pub answered :
      Result E ChatModelResponse
      → (ChatModelResponse → Progress → Outcome E ChatModelResponse)
      → Progress
      → Outcome E ChatModelResponse
  answered (ok r) f p = f r p
  answered (err e) f p = (p, err (external e))

  -- The text of a response is set from its message where it is empty.
  abbrev pub settled_text : Text → ChatModelResponse → ChatModelResponse
  settled_text text r = record r { text = or_default r.text (trim_space text) }

  abbrev pub after_stream : Text → ChatModelResponse → Progress → Outcome E ChatModelResponse
  after_stream text r p =
      let r' = with_defaults text r in (p, ok (settled_text (r'.message).content r'))

  abbrev pub after_completion : ChatModelResponse → Progress → Outcome E ChatModelResponse
  after_completion r p =
      let text = response_text r in
      let r' = settled_text text (with_defaults text r) in
      if is_empty text
      then (p, ok r')
      else emit (text_of text) (write_text text p) >>= λ _ p'. (p', ok r')

  abbrev pub streamed_step :
      List Text × Result E ChatModelResponse → Progress → Outcome E ChatModelResponse
  streamed_step (texts, result) p =
      emit_texts texts p >>= λ _ p'. answered result (after_stream (joined texts)) p'

  unfoldable pub run_model_step : List ChatMessage → Progress → Outcome E ChatModelResponse
  run_model_step messages p =
      if w.is_streaming
      then streamed_step (w.stream messages) p
      else answered (w.complete messages) after_completion p

  abbrev pub finished : Text → Progress → Outcome E TurnOutput
  finished input_text p =
      let text = trim_space p.output_text in
      if is_empty text then (p, err empty_text) else (p, ok (turn_output_from_text input_text text))

  -- The loop, with the rounds that are left.
  unfoldable pub tool_loop :
      TurnInput → Text → ℕ → List ChatMessage → Progress → Outcome E TurnOutput
  tool_loop input text zero messages p = (p, err exceeded_budget)
  tool_loop input text (suc rounds) messages p = run_model_step messages p >>= λ response p'.
      let assistant = normalized_assistant_message response in
      let more = λ (tools : List ChatMessage) (p'' : Progress).
        tool_loop input text rounds (messages ++ assistant ∷ tools) p'' in
      if is_empty assistant.tool_calls
      then finished text p'
      else execute_tool_calls input 0 assistant.tool_calls [] p' >>= more

  unfoldable pub run_tool_loop : TurnInput → Text → List ChatMessage → Outcome E TurnOutput
  run_tool_loop input text messages =
      tool_loop input text default_tool_loop_max_steps messages
        (record { emitted = []; output_text = [] })
