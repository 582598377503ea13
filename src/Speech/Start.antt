-- ===== src/Speech/Start.antt =====
-- What WaitAudioStart of internal/voice/speech_planner.go is told.
use agent_server.Prelude.{
  ◌≡◌, ◌⊎◌, inl, inr, refl, ap, Bool, true, false, Bool-cases, if-cases, List, [], ◌∷◌, ◌++◌,
  append-nil, is_empty, none, some, if◌then◌else◌, arith,
}
use agent_server.Text.{trim_space}
use agent_server.Text.Trim.{trim_space-nil, trim_space-IsTrimmed}
use agent_server.Speech.Boundary.{SpeechPlannerConfig}
use agent_server.Speech.Clause.{PlannedSpeechClause, PlaybackSegment}
use agent_server.Speech.Channels.{IsBounded, Run-IsBounded}
use agent_server.Speech.Synthesis.{
  PlannedSpeechSynthesis, new_planned_speech_synthesis, resolve_start, close_queue, close_stream,
  add_planned_clause, tidied, enqueue_clause, finish, close, load_next_result, wait_audio_start,
  Step, Run, observe, finalize, finalized, abandon, prepare, send, give_up, synthesize, hand_over,
  drained, cancel, expire, next_segment, next, ended, close_reader, here, step,
}

module _ (voiced : PlannedSpeechClause → Bool) where
  -- The start is unresolved, or is the text of the first clause, or the caller stopped without one.
  abbrev IsStarted : List PlannedSpeechClause → PlannedSpeechSynthesis → Type 0
  IsStarted [] s =
      (s.enqueued ≡ false) × ((s.start ≡ none) ⊎ (s.start ≡ some []) × (s.queue_closed ≡ true))
  IsStarted (c ∷ clauses) s =
      (s.enqueued ≡ true) × (s.start ≡ some c.text) × (is_empty c.text ≡ false)

  -- What the start depends on is left alone.
  IsStarted-same :
      (sent more : List PlannedSpeechClause) (s s' : PlannedSpeechSynthesis)
      → more ≡ []
      → s'.enqueued ≡ s.enqueued
      → s'.start ≡ s.start
      → s'.queue_closed ≡ s.queue_closed
      → IsStarted sent s
      → IsStarted (sent ++ more) s'
  IsStarted-same [] more s s' e a b c h = rw (e, a, b, c) h
  IsStarted-same (d ∷ sent) more s s' e a b c h = rw (a, b) h

  close_stream-IsStarted :
      (sent : List PlannedSpeechClause) (s : PlannedSpeechSynthesis)
      → IsStarted sent s
      → IsStarted sent (close_stream s)
  unfolding close_stream
  close_stream-IsStarted [] s h = ground arith
  close_stream-IsStarted (d ∷ sent) s h = ground arith

  -- The caller closes the queue, and resolves a start that is not.
  resolved-IsStarted :
      (sent : List PlannedSpeechClause) (s : PlannedSpeechSynthesis)
      → IsStarted sent s
      → IsStarted sent (resolve_start [] (close_queue s))
  unfolding resolve_start close_queue
  resolved-IsStarted [] s h = ground (arith, trim_space-nil)
  resolved-IsStarted (d ∷ sent) s h = ground arith

  close-IsStarted :
      (sent : List PlannedSpeechClause) (s : PlannedSpeechSynthesis)
      → IsStarted sent s
      → IsStarted sent (close s)
  unfolding close
  close-IsStarted sent s h =
      close_stream-IsStarted sent (resolve_start [] (close_queue s)) (resolved-IsStarted sent s h)

  finish-IsStarted :
      (sent : List PlannedSpeechClause) (s : PlannedSpeechSynthesis)
      → IsStarted sent s
      → IsStarted sent (finish s)
  unfolding finish close close_queue
  finish-IsStarted [] s h =
      if-cases (IsStarted []) s.enqueued (close_queue s) (close s) (λ e. cc (h.0, e))
        (λ _. close-IsStarted [] s h)
  finish-IsStarted (d ∷ sent) s h =
      if-cases (IsStarted (d ∷ sent)) s.enqueued (close_queue s) (close s) (λ _. h)
        (λ e. cc (h.0, e))

  tidied_text : (c : PlannedSpeechClause) → (tidied c).text ≡ trim_space c.text
  unfolding tidied
  tidied_text c = ground arith

  first_or_later :
      (sent : List PlannedSpeechClause) (c : PlannedSpeechClause) (s s' : PlannedSpeechSynthesis)
      → s.queue_closed ≡ false
      → is_empty (trim_space c.text) ≡ false
      → s'.enqueued ≡ true
      → s'.start ≡ (resolve_start (trim_space c.text) s).start
      → IsStarted sent s
      → IsStarted (sent ++ tidied c ∷ []) s'
  unfolding resolve_start
  first_or_later [] c s s' q more on began (none_sent, inl fresh) = (
    on,
    rw (began, fresh, tidied_text c) (ap some (trim_space-IsTrimmed c.text)),
    rw (tidied_text c) more,
  )
  first_or_later [] c s s' q more on began (none_sent, inr old) = cc (q, old.1)
  first_or_later (d ∷ sent) c s s' q more on began h = (on, rw (began, h.1) refl, h.2)

  enqueue-IsStarted :
      (sent : List PlannedSpeechClause) (c : PlannedSpeechClause) (s : PlannedSpeechSynthesis)
      → s.queue_closed ≡ false
      → IsStarted sent s
      → IsStarted
          (sent ++ (if is_empty (trim_space c.text) then [] else tidied c ∷ []))
          (enqueue_clause c s)
  unfolding enqueue_clause resolve_start
  enqueue-IsStarted sent c s q h = elim (Bool-cases (is_empty (trim_space c.text))) [
    | inl blank ↦ rw (blank, append-nil sent) h
    | inr more ↦ rw more (
        first_or_later sent c s
          (record (resolve_start (trim_space c.text) s) {
            enqueued = true;
            planned = add_planned_clause (tidied c) s.planned;
            waiting = some (tidied c);
          })
          q more refl refl h)
  ]

  -- A queue with a clause to come is open.
  open_queue :
      (s : PlannedSpeechSynthesis) (c : PlannedSpeechClause) (clauses : List PlannedSpeechClause)
      → IsBounded voiced s
      → s.outgoing ≡ c ∷ clauses
      → s.queue_closed ≡ false
  open_queue s c clauses b o = elim (Bool-cases s.queue_closed) [
    | inr open_still ↦ open_still
    | inl shut ↦ cc (o, (b.at_rest shut).0)
  ]

  IsStarted-keep :
      (sent : List PlannedSpeechClause) (s : PlannedSpeechSynthesis)
      (clauses : List PlannedSpeechClause)
      → IsStarted sent s
      → IsStarted sent (record s { outgoing = clauses })
  IsStarted-keep [] s clauses h = h
  IsStarted-keep (d ∷ sent) s clauses h = h

  Step-IsStarted :
      (sent : List PlannedSpeechClause) (s s' : PlannedSpeechSynthesis)
      (more : List PlannedSpeechClause) (later : List PlaybackSegment)
      → IsBounded voiced s
      → IsStarted sent s
      → Step voiced s more later s'
      → IsStarted (sent ++ more) s'
  unfolding load_next_result
  Step-IsStarted sent s s' more later b h (observe text p clauses rest q f o e e' same) =
      IsStarted-same sent more s s' e (rw same) (rw same) (rw same) h
  Step-IsStarted sent s s' more later b h (finalize text p clauses rest q f o e e' same) =
      IsStarted-same sent more s s' e (rw same) (rw same) (rw same) h
  Step-IsStarted sent s s' more later b h (finalized rest f e e' same) =
      rw (same, e, append-nil sent) (finish-IsStarted sent s h)
  Step-IsStarted sent s s' more later b h (abandon rest e e' same) =
      rw (same, e, append-nil sent) (close-IsStarted sent s h)
  Step-IsStarted sent s s' more later b h (prepare c clauses o w e e' same) =
      rw (same, e)
        (enqueue-IsStarted sent c (record s { outgoing = clauses }) (open_queue s c clauses b o)
          (IsStarted-keep sent s clauses h))
  Step-IsStarted sent s s' more later b h (send c w room e e' same) =
      IsStarted-same sent more s s' e (rw same) (rw same) (rw same) h
  Step-IsStarted sent s s' more later b h (give_up c w on e e' same) =
      IsStarted-same sent more s s' e (rw same) (rw same) (rw same) h
  Step-IsStarted sent s s' more later b h (synthesize c clauses idling q e e' same) =
      IsStarted-same sent more s s' e (rw same) (rw same) (rw same) h
  Step-IsStarted sent s s' more later b h (hand_over c holds free e e' same) =
      IsStarted-same sent more s s' e (rw same) (rw same) (rw same) h
  Step-IsStarted sent s s' more later b h (drained idling empty over e e' same) =
      IsStarted-same sent more s s' e (rw same) (rw same) (rw same) h
  Step-IsStarted sent s s' more later b h (cancel on e e' same) =
      IsStarted-same sent more s s' e (rw same) (rw same) (rw same) h
  Step-IsStarted sent s s' more later b h (expire e e' same) =
      IsStarted-same sent more s s' e (rw same) (rw same) (rw same) h
  Step-IsStarted sent s s' more later b h (next_segment r rest free q e e' same) =
      IsStarted-same sent more s s' e (rw same) (rw same) (rw same) h
  Step-IsStarted sent s s' more later b h (next r rest free q e e' same) =
      IsStarted-same sent more s s' e (rw same) (rw same) (rw same) h
  Step-IsStarted sent s s' more later b h (ended e e' same) =
      IsStarted-same sent more s s' e (rw same) (rw same) (rw same) h
  Step-IsStarted sent s s' more later b h (close_reader e e' same) =
      rw (same, e, append-nil sent) (close_stream-IsStarted sent s h)

  Run-IsStarted :
      (cfg : SpeechPlannerConfig) {sent : List PlannedSpeechClause} {given : List PlaybackSegment}
      {s : PlannedSpeechSynthesis}
      → Run voiced cfg sent given s
      → IsStarted sent s
  unfolding new_planned_speech_synthesis
  Run-IsStarted cfg here = (refl, inl refl)
  Run-IsStarted cfg (step {sent} {given} {s} r more later s' st sent' given' e e') =
      rw e
        (Step-IsStarted sent s s' more later (Run-IsBounded voiced cfg r) (Run-IsStarted cfg r) st)

  told :
      (sent : List PlannedSpeechClause) (s : PlannedSpeechSynthesis)
      → IsStarted sent s
      → (wait_audio_start s ≡ none) × (sent ≡ [])
        ⊎ (wait_audio_start s ≡ some none) × (sent ≡ []) × (s.queue_closed ≡ true)
        ⊎ (c : PlannedSpeechClause) × (clauses : List PlannedSpeechClause) × (sent ≡ c ∷ clauses)
          × (wait_audio_start s ≡ some (some c.text))
          × (is_empty c.text ≡ false)
  unfolding wait_audio_start
  told [] s (none_sent, inl fresh) = inl (rw fresh refl, refl)
  told [] s (none_sent, inr (stop, shut)) = inr (inl (rw stop refl, refl, shut))
  told (c ∷ clauses) s (on, began, more) = inr (inr (c, clauses, refl, rw (began, more) refl, more))

  -- What WaitAudioStart says is settled once: it blocks as long as no clause is enqueued and the
  -- caller goes on, then it tells the text of the first clause, which is not blank; it tells of no
  -- audio only if the caller stopped with none enqueued.
  pub wait_audio_start_lem :
      (cfg : SpeechPlannerConfig) (sent : List PlannedSpeechClause) (given : List PlaybackSegment)
      (s : PlannedSpeechSynthesis)
      → Run voiced cfg sent given s
      → (wait_audio_start s ≡ none) × (sent ≡ [])
        ⊎ (wait_audio_start s ≡ some none) × (sent ≡ []) × (s.queue_closed ≡ true)
        ⊎ (c : PlannedSpeechClause) × (clauses : List PlannedSpeechClause) × (sent ≡ c ∷ clauses)
          × (wait_audio_start s ≡ some (some c.text))
          × (is_empty c.text ≡ false)
  wait_audio_start_lem cfg sent given s r = told sent s (Run-IsStarted cfg r)
