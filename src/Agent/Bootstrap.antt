-- ===== src/Agent/Bootstrap.antt =====
-- The executor without a model: internal/agent/bootstrap_executor.go.
use agent_server.Prelude.{
  ℕ, Bool, true, false, not, ◌&&◌, ◌||◌, List, [], ◌∷◌, ◌++◌, map, any, drop, if◌then◌else◌,
  is_empty, Option, none, some, Result, ok, err, ◌==◌,
}
use agent_server.Text.{
  Text, codes, text_eq, trim_space, trim_left, trim_right, in_set, to_lower, has_prefix, format_int,
}
use agent_server.Memory.Context.{MemoryContext}
use agent_server.Agent.Chat.{
  ToolCall, ToolResult, TurnOutput, TurnInput, turn_output_from_text, or_default,
}
use agent_server.Agent.FollowUp.{is_one_of, deterministic_playback_follow_up_text}
use agent_server.Agent.{
  World, Progress, Outcome, ◌>>=◌, emit, text_of, call_delta, result_delta, invoke_tool,
}

-- Of packages unicode and strings, what needs the tables of Unicode.
pub record Letters : Type 0 where
  pub lower : Text → Text
  pub is_letter_or_digit : ℕ → Bool
  pub equal_fold : Text → Text → Bool

pub record BootstrapToolCommand : Type 0 where
  pub tool_name : Text
  pub tool_input : Text

-- What stands behind the command, if the text is one.
unfoldable pub parse_bootstrap_memory_command : Text → Option Text
parse_bootstrap_memory_command text =
    let trimmed = trim_space text in
    if text_eq (to_lower trimmed) (codes "/memory")
    then some []
    else if has_prefix (to_lower trimmed) (codes "/memory ")
    then some (trim_space (drop 7 trimmed))
    else none

-- strings.Cut(s, " "), where the second text is none without the separator.
unfoldable pub cut_at_blank : Text → Text × Option Text
cut_at_blank [] = ([], none)
cut_at_blank (c ∷ s) =
    let (before, after) = cut_at_blank s in if c == 0x20 then ([], some s) else (c ∷ before, after)

abbrev pub input_or_empty : Option Text → Text
input_or_empty none = codes "{}"
input_or_empty (some text) = or_default (trim_space text) (codes "{}")

unfoldable pub parse_bootstrap_tool_command : Text → Option BootstrapToolCommand
parse_bootstrap_tool_command text =
    let trimmed = trim_space text in
    let is_tool =
      text_eq (to_lower trimmed) (codes "/tool")
      || has_prefix (to_lower trimmed) (codes "/tool ") in
    let rest = trim_space (drop 5 trimmed) in
    let name = trim_space (cut_at_blank rest).0 in
    if not is_tool || is_empty rest || is_empty name
    then none
    else some (record { tool_name = name; tool_input = input_or_empty (cut_at_blank rest).1 })

abbrev pub is_none {ℓ} : {A : Type ℓ} → Option A → Bool
is_none none = true
is_none (some a) = false

unfoldable pub should_persist_turn : Text → Bool
should_persist_turn text =
    is_none (parse_bootstrap_memory_command text) && is_none (parse_bootstrap_tool_command text)

abbrev pub with_output : Text → Text → Text → Text
with_output head verb output =
    if is_empty output then head ++ verb ++ codes "." else head ++ verb ++ codes ": " ++ output

unfoldable pub tool_summary_text : ToolResult → Text
tool_summary_text r =
    let head = codes "tool " ++ or_default (trim_space r.tool_name) (codes "tool") ++ codes " " in
    let status = trim_space r.tool_status in
    let output = trim_space r.tool_output in
    let done = [] ∷ codes "completed" ∷ codes "success" ∷ codes "succeeded" ∷ codes "ok" ∷ [] in
    if is_one_of done status
    then with_output head (codes "completed") output
    else if text_eq status (codes "unavailable")
    then with_output head (codes "is unavailable") output
    else with_output head status output

unfoldable pub bootstrap_tool_call_id : Letters → Text → Text
bootstrap_tool_call_id l name =
    let trimmed = trim_space (l.lower name) in
    let built = map (λ c. if l.is_letter_or_digit c then c else b'_') trimmed in
    let value = trim_right (in_set (codes "_")) (trim_left (in_set (codes "_")) built) in
    if is_empty trimmed then codes "tool_call" else codes "tool_" ++ or_default value (codes "call")

unfoldable pub tool_exists : Letters → List Text → Text → Bool
tool_exists l tools name = any (λ tool. l.equal_fold (trim_space tool) (trim_space name)) tools

abbrev pub plain_output : Text → TurnOutput
plain_output text = record { text = text; end_session = false; end_reason = []; end_message = [] }

abbrev pub memory_text {ℓ} : {E : Type ℓ} → (E → Text) → Result E MemoryContext → Text
memory_text error_text (err e) = codes "memory unavailable: " ++ error_text e
memory_text error_text (ok c) =
    if is_empty (trim_space c.summary)
    then codes "memory: nothing remembered yet."
    else codes "memory: " ++ trim_space c.summary

unfoldable pub bootstrap_reply : TurnInput → Text → Text
bootstrap_reply input trimmed =
    if not (is_empty trimmed)
    then codes "agent-server received text input: " ++ trimmed
    else if (input.audio).present
    then codes "agent-server received "
      ++ format_int (input.audio).frames
      ++ codes " audio frames ("
      ++ format_int (input.audio).bytes
      ++ codes " bytes)"
    else codes "agent-server realtime bootstrap reply"

-- A tool that answers, fails, or is not there: whether the invocation failed is read here, and not in
-- invoke_tool, which fills the empty fields of an answer.
module _ {ℓ} {E : Type ℓ} (l : Letters) (w : World E) (registry : Result E (List Text)) where
  unfoldable pub emit_bootstrap_text_output : Text → Text → Progress → Outcome E TurnOutput
  emit_bootstrap_text_output input_text text p =
      emit w (text_of text) p >>= λ _ p'. (p', ok (turn_output_from_text input_text text))

  abbrev pub told_result : ToolResult → Progress → Outcome E TurnOutput
  told_result r p = emit w (result_delta r) p >>= λ _ p'.
      emit w (text_of (tool_summary_text r)) p' >>= λ _ p''.
      (p'', ok (plain_output (tool_summary_text r)))

  abbrev pub failure_of : ToolCall → Text → Text → ToolResult
  failure_of call status output = record {
    call_id = call.call_id;
    tool_name = call.tool_name;
    tool_status = status;
    tool_output = trim_space output;
  }

  abbrev pub result_of_call : ToolCall → Progress → Result E ToolResult → ToolResult
  result_of_call call p (ok r) = invoke_tool w p.emitted call
  result_of_call call p (err e) = failure_of call (codes "failed") (w.error_text e)

  abbrev pub called : ToolCall → Progress → Outcome E TurnOutput
  called call p = emit w (call_delta call) p >>= λ _ p'.
      told_result (result_of_call call p' (w.invoke p'.emitted call)) p'

  abbrev pub command_call : TurnInput → BootstrapToolCommand → ToolCall
  command_call input command = record {
    call_id = bootstrap_tool_call_id l command.tool_name;
    session_id = input.session_id;
    device_id = input.device_id;
    client_type = input.client_type;
    tool_name = command.tool_name;
    tool_input = command.tool_input;
  }

  abbrev pub called_if_known : Result E (List Text) → ToolCall → Progress → Outcome E TurnOutput
  called_if_known (err e) call p =
      told_result
        (failure_of call (codes "failed") (codes "tool registry failed: " ++ w.error_text e)) p
  called_if_known (ok tools) call p =
      if not (is_empty tools) && not (tool_exists l tools call.tool_name)
      then told_result
          (failure_of call (codes "unavailable")
            (codes "tool " ++ call.tool_name ++ codes " is not registered"))
          p
      else called call p

  unfoldable pub execute_tool_command :
      TurnInput → BootstrapToolCommand → Progress → Outcome E TurnOutput
  execute_tool_command input command p = called_if_known registry (command_call input command) p

  unfoldable pub execute_memory_command : Result E MemoryContext → Progress → Outcome E TurnOutput
  execute_memory_command loaded p = emit w (text_of (memory_text w.error_text loaded)) p >>= λ _ p'.
      (p', ok (plain_output (memory_text w.error_text loaded)))

  -- The switch over what the text is, with what the three tests of it gave.
  abbrev pub bootstrap_by :
      Option Text
      → Option BootstrapToolCommand
      → Option Text
      → TurnInput
      → Text
      → Result E MemoryContext
      → Progress
      → Outcome E TurnOutput
  bootstrap_by (some rest) tool follow_up input trimmed loaded p = execute_memory_command loaded p
  bootstrap_by none (some command) follow_up input trimmed loaded p =
      execute_tool_command input command p
  bootstrap_by none none (some text) input trimmed loaded p =
      emit_bootstrap_text_output trimmed text p
  bootstrap_by none none none input trimmed loaded p =
      emit_bootstrap_text_output trimmed (bootstrap_reply input trimmed) p

  unfoldable pub stream_bootstrap_output :
      TurnInput → Text → Result E MemoryContext → Progress → Outcome E TurnOutput
  stream_bootstrap_output input trimmed loaded p =
      bootstrap_by (parse_bootstrap_memory_command trimmed) (parse_bootstrap_tool_command trimmed)
        (deterministic_playback_follow_up_text trimmed input.metadata) input trimmed loaded p
