-- ===== src/Agent/Tests.antt =====
-- Runs of a turn of a language model with tools.
use agent_server.Prelude.{
  pos, some, none, is_empty, ◌↔◌, ◌≡◌, refl, true, false, List, [], ◌∷◌, ◌++◌, ℕ, Result, ok, err,
}
use agent_server.Text.{Text, codes, trim_space, to_lower, in_set, text_eq, format_int, has_prefix}
use agent_server.Agent.Chat.{
  ChatToolCall, ChatMessage, ChatModelResponse, TurnOutput, TurnInput, normalized_assistant_message,
  should_end_session, turn_output_from_text,
}
use agent_server.Agent.ToolNames.{
  model_rune, trim_marks, make_model_tool_name, used_count, numbered_name, model_tool_names,
}
use agent_server.Agent.{
  World, Progress, text_of, Outcome, emit, execute_tool_calls, emit_texts, run_model_step,
  tool_loop, run_tool_loop,
}
use agent_server.Agent.Deltas.{run_tool_loop-IsTold, IsTold}
use agent_server.Agent.Calls.{execute_tool_calls-all, call_deltas, call_messages}
use agent_server.Agent.Prewarm.{
  Candidate, Request, metadata_signature, join_texts, sort_texts, insert_text, text_leb,
  signature_entries, store_candidate, matches_request, offered, consume_match, store_op, consume_op,
  candidates_after,
}
use agent_server.Agent.Signature.{metadata_signature_any_order}
use agent_server.Agent.Candidates.{IsStoredLast, IsFor, consume_match_iff}
use mathlib.Core.List.Perm
use agent_server.Clock.{time_sub}

-- Names that are the same for the model are numbered, but the numbered name is what is counted: the
-- third of them takes the number of the second, whose tool cannot be called by then.
colliding_names :
    model_tool_names (codes "a.b" ∷ codes "a/b" ∷ codes "a b" ∷ []) [] []
    ≡ (codes "a_b_2", codes "a b") ∷ (codes "a_b_2", codes "a/b") ∷ (codes "a_b", codes "a.b") ∷ []
unfolding model_tool_names numbered_name used_count make_model_tool_name model_rune trim_marks
    trim_space to_lower in_set text_eq format_int
colliding_names = refl

abbrev light : TurnInput
light = record {
  turn_id = codes "t1";
  user_text = codes " 开灯";
  audio = record { present = false; frames = pos 0; bytes = pos 0 };
  metadata = [];
  session_id = codes "s1";
  device_id = codes "d1";
  client_type = codes "rtos";
}

abbrev light_call : ChatToolCall
light_call = record { id = codes " "; name = codes "light_on"; arguments = [] }

-- A model that says a text and asks for a tool, and that ends when it sees the result.
abbrev answer_of : List ChatMessage → List Text × Result ℕ ChatModelResponse
answer_of (m ∷ []) = (
  codes "好的，" ∷ [] ∷ [],
  ok (record {
    text = [];
    finish_reason = codes "tool_calls";
    message = record { role = []; content = []; tool_call_id = []; tool_calls = light_call ∷ [] };
  }),
)
answer_of messages = (
  codes "已" ∷ codes "打开。 " ∷ [],
  ok (record {
    text = [];
    finish_reason = codes "stop";
    message = record { role = []; content = []; tool_call_id = []; tool_calls = [] };
  }),
)

abbrev home : World ℕ
home = record {
  sink = λ deltas d. none;
  invoke = λ deltas call. err 7;
  error_text = λ e. codes "no such tool";
  aliases = (codes "light_on", codes "light.on") ∷ [];
  is_streaming = true;
  complete = λ messages. err 1;
  stream = answer_of;
}

abbrev question : List ChatMessage
question =
    record { role = codes "user"; content = codes "开灯"; tool_call_id = []; tool_calls = [] } ∷ []

abbrev started : Progress
started = record { emitted = []; output_text = [] }

abbrev reply : Outcome ℕ TurnOutput
reply = run_tool_loop home light (codes "开灯") question

abbrev ran : Progress
ran = record {
  emitted =
      text_of (codes "好的，")
        ∷ call_deltas home light (text_of (codes "好的，") ∷ []) 0 (light_call ∷ [])
      ++ text_of (codes "已") ∷ text_of (codes "打开。 ") ∷ [];
  output_text = codes "好的，已打开。 ";
}

abbrev said : TurnOutput
said = record { text = codes "好的，已打开。"; end_session = false; end_reason = []; end_message = [] }

-- A tool that fails does not end the turn: the model is asked again, and is told what went wrong.
reply_of_two_rounds : reply ≡ (ran, ok said)
unfolding run_tool_loop tool_loop run_model_step emit_texts emit normalized_assistant_message
    execute_tool_calls trim_space turn_output_from_text should_end_session text_eq to_lower
reply_of_two_rounds = refl

run_tool_loop-IsTold_example : IsTold (codes "开灯") said ran
run_tool_loop-IsTold_example =
    run_tool_loop-IsTold home light (codes "开灯") question ran said reply_of_two_rounds

execute_tool_calls-all_example :
    execute_tool_calls home light 0 (light_call ∷ light_call ∷ []) [] started ≡ (
      record {
        emitted = call_deltas home light [] 0 (light_call ∷ light_call ∷ []);
        output_text = [];
      },
      ok (call_messages home light [] 0 (light_call ∷ light_call ∷ [])),
    )
execute_tool_calls-all_example =
    execute_tool_calls-all home light (λ deltas d. refl) 0 (light_call ∷ light_call ∷ []) [] started

abbrev asked : Request
asked = record {
  session_id = codes "s1";
  device_id = codes "d1";
  client_type = codes "rtos";
  user_text = codes "开灯";
  metadata =
      (codes "b", codes " 2 ")
      ∷ (codes "voice.preview.id", codes "9")
      ∷ (codes "a", codes "1")
      ∷ [];
}

signed : metadata_signature asked.metadata ≡ codes "a=1&b=2"
unfolding metadata_signature join_texts sort_texts insert_text text_leb signature_entries trim_space
    has_prefix
signed = refl

abbrev warmed : Candidate ℕ
warmed = record {
  session_id = codes "s1";
  device_id = codes "d1 ";
  client_type = codes "rtos";
  user_text = codes "开灯";
  metadata_sig = metadata_signature asked.metadata;
  prepared_at = 1000000000;
  prepared = 42;
}

session_named : is_empty (trim_space (codes "s1")) ≡ false
unfolding trim_space
session_named = refl

consume_match_iff_example :
    ((consume_match 16000000000 asked (candidates_after (store_op warmed ∷ []))).1 ≡ some warmed)
    ↔ (IsStoredLast (codes "s1") (store_op warmed ∷ []) warmed × IsFor 16000000000 asked warmed)
consume_match_iff_example =
    consume_match_iff 16000000000 asked (store_op warmed ∷ []) warmed session_named

-- The second question of the same text finds no candidate.
handed_out_once :
    ((consume_match 2000000000 asked (candidates_after (store_op warmed ∷ []))).1 ≡ some warmed)
    × ((consume_match 3000000000 asked
          (candidates_after (consume_op 2000000000 asked ∷ store_op warmed ∷ []))).1
        ≡ none)
unfolding consume_match offered matches_request store_candidate time_sub text_eq trim_space
    metadata_signature join_texts sort_texts signature_entries has_prefix insert_text text_leb
handed_out_once = (refl, refl)

metadata_signature_any_order_example :
    metadata_signature ((codes "b", codes "2") ∷ (codes "a", codes "1") ∷ [])
    ≡ metadata_signature ((codes "a", codes "1") ∷ (codes "b", codes "2") ∷ [])
metadata_signature_any_order_example =
    metadata_signature_any_order ((codes "b", codes "2") ∷ (codes "a", codes "1") ∷ [])
      ((codes "a", codes "1") ∷ (codes "b", codes "2") ∷ [])
      (Perm.swap (codes "a", codes "1") (codes "b", codes "2") [])
