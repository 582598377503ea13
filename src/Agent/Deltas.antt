-- ===== src/Agent/Deltas.antt =====
-- The text of a turn against the deltas that were emitted for it, in internal/agent/llm_executor.go.
use agent_server.Prelude.{
  ℕ, zero, suc, ◌+◌, ◌≡◌, inl, inr, refl, sym, ap, ◌∙◌, subst, false, Bool-cases, if-cases, List,
  [], ◌∷◌, ◌++◌, append-nil, append_assoc, is_empty, Option, none, some, Result, ok, err,
}
use agent_server.Text.{Text, trim_space}
use agent_server.Agent.Chat.{
  ChatToolCall, ChatMessage, ChatModelResponse, TurnDelta, TurnDeltaKind, text_delta,
  tool_call_delta, tool_result_delta, TurnOutput, TurnInput, normalized_assistant_message,
  turn_output_from_text, response_text, should_end_session,
}
use agent_server.Agent.{
  World, Progress, Outcome, ◌>>=◌, emit, text_of, call_delta, result_delta, tool_message,
  write_text, invoke_tool, tool_call_for, execute_tool_calls, emitted_unless, emit_texts, joined,
  answered, after_stream, after_completion, streamed_step, run_model_step, finished, tool_loop,
  run_tool_loop, default_tool_loop_max_steps,
}

abbrev text_part : TurnDeltaKind → Text → Text
text_part text_delta text = text
text_part tool_call_delta text = []
text_part tool_result_delta text = []

-- The texts of the text deltas, one after another.
abbrev pub told : List TurnDelta → Text
told [] = []
told (d ∷ deltas) = text_part d.kind d.text ++ told deltas

told-append : (a b : List TurnDelta) → told (a ++ b) ≡ told a ++ told b
told-append [] b = refl
told-append (d ∷ a) b =
    rw (told-append a b) (sym (append_assoc (text_part d.kind d.text) (told a) (told b)))

-- The text that was written is the text that was emitted.
abbrev pub Matches : Progress → Type 0
Matches p = p.output_text ≡ told p.emitted

-- What holds of a step that succeeds.
abbrev Succeeds {ℓ κ} : {E : Type κ} {A : Type ℓ} → (A → Progress → Type 0) → Outcome E A → Type 0
Succeeds P (p, ok a) = P a p
Succeeds P (p, err e) = Unit

Succeeds-bind {ℓ κ ι} :
    {E : Type κ} {A : Type ℓ} {B : Type ι} (P : A → Progress → Type 0) (Q : B → Progress → Type 0)
    (m : Outcome E A) (f : A → Progress → Outcome E B)
    → Succeeds P m
    → ((a : A) (p : Progress) → P a p → Succeeds Q (f a p))
    → Succeeds Q (m >>= f)
Succeeds-bind P Q (p, ok a) f h k = k a p h
Succeeds-bind P Q (p, err e) f h k = tt

-- A step that starts with what was written emitted, and ends so if it succeeds.
abbrev Keeps {ℓ κ} : {E : Type κ} {A : Type ℓ} → Outcome E A → Type 0
Keeps m = Succeeds (λ _ p. Matches p) m

module _ {ℓ} {E : Type ℓ} (w : World E) where
  emit-Keeps :
      (d : TurnDelta) (p : Progress)
      → p.output_text ≡ told p.emitted ++ text_part d.kind d.text
      → Keeps (emit w d p)
  unfolding emit
  emit-Keeps d p h = by_answer (w.sink p.emitted d)
    where
      by_answer : (o : Option E) → Keeps (emitted_unless w d p o)
      by_answer none =
          h
          ∙ ap (λ t. told p.emitted ++ t) (sym (append-nil (text_part d.kind d.text)))
          ∙ sym (told-append p.emitted (d ∷ []))
      by_answer (some e) = tt

  emit_text-Keeps :
      (text : Text) (p : Progress) → Matches p → Keeps (emit w (text_of text) (write_text w text p))
  emit_text-Keeps text p h = emit-Keeps (text_of text) (write_text w text p) (rw h refl)

  emit_mute-Keeps :
      (d : TurnDelta) (p : Progress) → text_part d.kind d.text ≡ [] → Matches p → Keeps (emit w d p)
  emit_mute-Keeps d p mute h =
      emit-Keeps d p
        (h ∙ sym (append-nil (told p.emitted)) ∙ ap (λ t. told p.emitted ++ t) (sym mute))

  emit_texts-Keeps : (texts : List Text) (p : Progress) → Matches p → Keeps (emit_texts w texts p)
  unfolding emit_texts
  emit_texts-Keeps [] p h = h
  emit_texts-Keeps (text ∷ texts) p h = elim (Bool-cases (is_empty text)) [
    | inl none_there ↦ rw none_there (emit_texts-Keeps texts p h)
    | inr some_there ↦ rw some_there (
        Succeeds-bind (λ _ p'. Matches p') (λ _ p'. Matches p')
          (emit w (text_of text) (write_text w text p)) (λ _ p'. emit_texts w texts p')
          (emit_text-Keeps text p h) (λ a p' k. emit_texts-Keeps texts p' k))
  ]

  answered-Keeps :
      (result : Result E ChatModelResponse)
      (f : ChatModelResponse → Progress → Outcome E ChatModelResponse) (p : Progress)
      → Matches p
      → ((r : ChatModelResponse) (p' : Progress) → Matches p' → Keeps (f r p'))
      → Keeps (answered w result f p)
  answered-Keeps (ok r) f p h k = k r p h
  answered-Keeps (err e) f p h k = tt

  after_completion-Keeps :
      (r : ChatModelResponse) (p : Progress) → Matches p → Keeps (after_completion w r p)
  after_completion-Keeps r p h = elim (Bool-cases (is_empty (response_text r))) [
    | inl none_there ↦ rw none_there h
    | inr some_there ↦ rw some_there (
        Succeeds-bind (λ _ p'. Matches p') (λ _ p'. Matches p')
          (emit w (text_of (response_text r)) (write_text w (response_text r) p)) _
          (emit_text-Keeps (response_text r) p h) (λ a p' k. k))
  ]

  run_model_step-Keeps :
      (messages : List ChatMessage) (p : Progress) → Matches p → Keeps (run_model_step w messages p)
  unfolding run_model_step
  run_model_step-Keeps messages p h =
      if-cases {A = Outcome E ChatModelResponse} (λ m. Keeps m) w.is_streaming
        (streamed_step w (w.stream messages) p)
        (answered w (w.complete messages) (after_completion w) p)
        (λ _. streamed (w.stream messages))
        (λ _. answered-Keeps (w.complete messages) (after_completion w) p h after_completion-Keeps)
    where
      streamed : (s : List Text × Result E ChatModelResponse) → Keeps (streamed_step w s p)
      streamed (texts, result) =
          Succeeds-bind (λ _ p'. Matches p') (λ _ p'. Matches p') (emit_texts w texts p) _
            (emit_texts-Keeps texts p h)
            (λ a p' k. answered-Keeps result (after_stream w (joined w texts)) p' k (λ r p'' m. m))

  execute_tool_calls-Keeps :
      (input : TurnInput) (index : ℕ) (calls : List ChatToolCall) (messages : List ChatMessage)
      (p : Progress)
      → Matches p
      → Keeps (execute_tool_calls w input index calls messages p)
  unfolding execute_tool_calls
  execute_tool_calls-Keeps input index [] messages p h = h
  execute_tool_calls-Keeps input index (c ∷ calls) messages p h =
      Succeeds-bind (λ _ p'. Matches p') (λ _ p'. Matches p')
        (emit w (call_delta (tool_call_for w input index c)) p) _
        (emit_mute-Keeps (call_delta (tool_call_for w input index c)) p refl h)
        λ a p' k.
          Succeeds-bind (λ _ p''. Matches p'') (λ _ p''. Matches p'')
            (emit w (result_delta (invoke_tool w p'.emitted (tool_call_for w input index c))) p') _
            (emit_mute-Keeps
              (result_delta (invoke_tool w p'.emitted (tool_call_for w input index c))) p' refl k)
            λ b p'' l.
              execute_tool_calls-Keeps input (index + 1) calls
                (messages
                  ++ tool_message (invoke_tool w p'.emitted (tool_call_for w input index c)) ∷ [])
                p'' l

-- The text of a result is what was emitted, without the blanks around it, and is not empty; the session
-- ends as the input asks.
abbrev pub IsTold : Text → TurnOutput → Progress → Type 0
IsTold input_text out p =
    out.text ≡ trim_space (told p.emitted)
    × is_empty out.text ≡ false
    × out.end_session ≡ should_end_session input_text

turn_output_from_text-fields :
    (input_text text : Text)
    → (turn_output_from_text input_text text).text ≡ text
      × (turn_output_from_text input_text text).end_session ≡ should_end_session input_text
unfolding turn_output_from_text
turn_output_from_text-fields input_text text = elim (Bool-cases (should_end_session input_text)) [
  | inl ends ↦ rw ends (refl, refl)
  | inr goes_on ↦ rw goes_on (refl, refl)
]

module _ {ℓ} {E : Type ℓ} (w : World E) where
  finished-IsTold :
      (input_text : Text) (p : Progress)
      → Matches p
      → Succeeds (IsTold input_text) (finished w input_text p)
  finished-IsTold input_text p h = elim (Bool-cases (is_empty (trim_space p.output_text))) [
    | inl none_there ↦ rw none_there tt
    | inr some_there ↦
        let (is_text, ends) = turn_output_from_text-fields input_text (trim_space p.output_text) in
        rw some_there (is_text ∙ ap trim_space h, ap is_empty is_text ∙ some_there, ends)
  ]

  tool_loop-IsTold :
      (input : TurnInput) (text : Text) (rounds : ℕ) (messages : List ChatMessage) (p : Progress)
      → Matches p
      → Succeeds (IsTold text) (tool_loop w input text rounds messages p)
  unfolding tool_loop
  tool_loop-IsTold input text zero messages p h = tt
  tool_loop-IsTold input text (suc rounds) messages p h =
      Succeeds-bind (λ _ p'. Matches p') (IsTold text) (run_model_step w messages p) _
        (run_model_step-Keeps w messages p h)
        λ r p' k.
          if-cases {A = Outcome E TurnOutput} (λ m. Succeeds (IsTold text) m)
            (is_empty (normalized_assistant_message r).tool_calls) (finished w text p') _
            (λ _. finished-IsTold text p' k)
            λ _.
              Succeeds-bind (λ _ p''. Matches p'') (IsTold text)
                (execute_tool_calls w input 0 (normalized_assistant_message r).tool_calls [] p') _
                (execute_tool_calls-Keeps w input 0 (normalized_assistant_message r).tool_calls []
                  p' k)
                λ tools p'' l.
                  tool_loop-IsTold input text rounds
                    (messages ++ normalized_assistant_message r ∷ tools) p'' l

  -- When the loop of streamLLMOutput succeeds, the text of its result is the texts of the deltas that were emitted,
  -- over all rounds of tool calls, without the blanks around the whole; it is not empty, and the session
  -- is to end exactly when the text of the input asks for it.
  pub run_tool_loop-IsTold :
      (input : TurnInput) (text : Text) (messages : List ChatMessage) (p : Progress)
      (out : TurnOutput)
      → run_tool_loop w input text messages ≡ (p, ok out)
      → IsTold text out p
  unfolding run_tool_loop
  run_tool_loop-IsTold input text messages p out e =
      subst {A = Outcome E TurnOutput} (λ m. Succeeds (IsTold text) m) e
        (tool_loop-IsTold input text default_tool_loop_max_steps messages
          (record { emitted = []; output_text = [] }) refl)
