-- ===== src/Agent/Calls.antt =====
-- What executeToolCalls of internal/agent/llm_executor.go makes of the tool calls of one message.
use agent_server.Prelude.{
  ℕ, ◌+◌, ◌≡◌, refl, ◌∙◌, List, [], ◌∷◌, ◌++◌, append-nil, append_assoc, none, ok,
}
use agent_server.Agent.Chat.{ChatToolCall, ChatMessage, ToolResult, TurnDelta, TurnInput}
use agent_server.Agent.{
  World, Progress, emit, call_delta, result_delta, tool_message, invoke_tool, tool_call_for,
  execute_tool_calls,
}

module _ {ℓ} {E : Type ℓ} (w : World E) (input : TurnInput) where
  abbrev pub call_started : List TurnDelta → ℕ → ChatToolCall → List TurnDelta
  call_started before index c = before ++ call_delta (tool_call_for w input index c) ∷ []

  -- What a call gives after the deltas `before` it.
  abbrev pub call_result : List TurnDelta → ℕ → ChatToolCall → ToolResult
  call_result before index c =
      invoke_tool w (call_started before index c) (tool_call_for w input index c)

  abbrev pub call_ended : List TurnDelta → ℕ → ChatToolCall → List TurnDelta
  call_ended before index c =
      call_started before index c ++ result_delta (call_result before index c) ∷ []

  -- The deltas of the calls: that a call started, and its result.
  abbrev pub call_deltas : List TurnDelta → ℕ → List ChatToolCall → List TurnDelta
  call_deltas before index [] = []
  call_deltas before index (c ∷ calls) =
      call_delta (tool_call_for w input index c)
      ∷ result_delta (call_result before index c)
      ∷ call_deltas (call_ended before index c) (index + 1) calls

  abbrev pub call_messages : List TurnDelta → ℕ → List ChatToolCall → List ChatMessage
  call_messages before index [] = []
  call_messages before index (c ∷ calls) =
      tool_message (call_result before index c)
      ∷ call_messages (call_ended before index c) (index + 1) calls

  module _ (takes : (deltas : List TurnDelta) (d : TurnDelta) → w.sink deltas d ≡ none) where
    emit-takes :
        (d : TurnDelta) (p : Progress)
        → emit w d p ≡ (record p { emitted = p.emitted ++ d ∷ [] }, ok tt)
    unfolding emit
    emit-takes d p = rw (takes p.emitted d) refl

    -- While the sink takes every delta, executeToolCalls calls all the tools, also behind one that
    -- fails: it emits the start and the result of each call in the order of the calls, and gives one
    -- message for each, also for a call that failed, in that order; the text of the turn stays.
    pub execute_tool_calls-all :
        (index : ℕ) (calls : List ChatToolCall) (messages : List ChatMessage) (p : Progress)
        → execute_tool_calls w input index calls messages p ≡ (
          record p { emitted = p.emitted ++ call_deltas p.emitted index calls },
          ok (messages ++ call_messages p.emitted index calls),
        )
    unfolding execute_tool_calls
    execute_tool_calls-all index [] messages p = rw (append-nil p.emitted, append-nil messages) refl
    execute_tool_calls-all index (c ∷ calls) messages p =
        rw (emit-takes (call_delta (tool_call_for w input index c)) p) (
          rw
            (emit-takes (result_delta (call_result p.emitted index c))
              (record p { emitted = call_started p.emitted index c }))
            (execute_tool_calls-all (index + 1) calls _ _
              ∙ rw
                  (
                    append_assoc (call_started p.emitted index c)
                        (result_delta (call_result p.emitted index c) ∷ [])
                        (call_deltas (call_ended p.emitted index c) (index + 1) calls),
                    append_assoc p.emitted (call_delta (tool_call_for w input index c) ∷ []) (
                        result_delta (call_result p.emitted index c)
                        ∷ call_deltas (call_ended p.emitted index c) (index + 1) calls),
                    append_assoc messages (tool_message (call_result p.emitted index c) ∷ [])
                        (call_messages (call_ended p.emitted index c) (index + 1) calls),
                  )
                  refl))
