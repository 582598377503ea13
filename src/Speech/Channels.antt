-- ===== src/Speech/Channels.antt =====
-- The two channels between the goroutines of internal/voice/speech_planner.go, and when the worker
-- ends.
use agent_server.Prelude.{
  ◌≤◌, ◌≡◌, ◌⊎◌, inl, inr, sym, ◌∙◌, Bool, true, false, Bool-cases, List, [], ◌∷◌, ◌++◌, append-nil,
  length, length-append, none, arith,
}
use agent_server.Speech.Boundary.{SpeechPlannerConfig}
use agent_server.Speech.Clause.{PlannedSpeechClause, PlaybackSegment}
use agent_server.Speech.Queue.{segments, in_flight, Run-kept}
use agent_server.Speech.Synthesis.{
  PlannedSpeechSynthesis, stopped, new_planned_speech_synthesis, resolve_start, close_queue,
  close_stream, enqueue_clause, finish, close, load_next_result, Step, Run, observe, finalize,
  finalized, abandon, prepare, send, give_up, synthesize, hand_over, drained, cancel, expire,
  next_segment, next, ended, close_reader, here, step,
}

module _ (voiced : PlannedSpeechClause → Bool) where
  -- The channels hold no more than they may, a closed queue has no sender, and the worker is done
  -- only at the end.
  pub record IsBounded (s : PlannedSpeechSynthesis) : Type 0 where
    pub queue_bound : length s.queue ≤ 4
    pub result_bound : length s.results ≤ 1
    pub at_rest : (s.queue_closed ≡ true) → (s.outgoing ≡ []) × (s.waiting ≡ none)
    pub over :
        (s.worker ≡ stopped) → (s.cancelled ≡ true) ⊎ (s.queue ≡ []) × (s.queue_closed ≡ true)

  Step-IsBounded :
      (s s' : PlannedSpeechSynthesis) (more : List PlannedSpeechClause)
      (later : List PlaybackSegment)
      → IsBounded s
      → Step voiced s more later s'
      → IsBounded s'
  unfolding finish close close_queue close_stream resolve_start enqueue_clause load_next_result
  Step-IsBounded s s' more later b (observe text p clauses rest q f o e e' same) =
      rw same (ground arith)
  Step-IsBounded s s' more later b (finalize text p clauses rest q f o e e' same) =
      rw same (ground arith)
  Step-IsBounded s s' more later b (finalized rest f e e' same) = rw same (ground arith)
  Step-IsBounded s s' more later b (abandon rest e e' same) = rw same (ground arith)
  Step-IsBounded s s' more later b (prepare c clauses o w e e' same) = rw same (ground arith)
  Step-IsBounded s s' more later b (send c w room e e' same) =
      rw same (ground (arith, length-append s.queue (c ∷ [])))
  Step-IsBounded s s' more later b (give_up c w on e e' same) = rw same (ground arith)
  Step-IsBounded s s' more later b (synthesize c clauses idling q e e' same) =
      rw same (ground arith)
  Step-IsBounded s s' more later b (hand_over c holds free e e' same) = rw same (ground arith)
  Step-IsBounded s s' more later b (drained idling empty over e e' same) = rw same (ground arith)
  Step-IsBounded s s' more later b (cancel on e e' same) = rw same (ground arith)
  Step-IsBounded s s' more later b (expire e e' same) = rw same (ground arith)
  Step-IsBounded s s' more later b (next_segment r rest free q e e' same) = rw same (ground arith)
  Step-IsBounded s s' more later b (next r rest free q e e' same) = rw same (ground arith)
  Step-IsBounded s s' more later b (ended e e' same) = rw same (ground arith)
  Step-IsBounded s s' more later b (close_reader e e' same) = rw same (ground arith)

  pub Run-IsBounded :
      (cfg : SpeechPlannerConfig) {sent : List PlannedSpeechClause} {given : List PlaybackSegment}
      {s : PlannedSpeechSynthesis}
      → Run voiced cfg sent given s
      → IsBounded s
  unfolding new_planned_speech_synthesis
  Run-IsBounded cfg here = ground arith
  Run-IsBounded cfg (step {s} r more later s' st sent' given' e e') =
      Step-IsBounded s s' more later (Run-IsBounded cfg r) st

  -- In any run of the caller, the worker and the reader, cancelled or not and however their steps
  -- interleave: the queue holds at most four clauses and the results at most one; and unless the run
  -- was cancelled, the segments that the reader was given are, in order, those of the first clauses that were enqueued
  -- (a clause that has no audio is left out), and what is missing is on its way.
  pub Run-order :
      (cfg : SpeechPlannerConfig) (sent : List PlannedSpeechClause) (given : List PlaybackSegment)
      (s : PlannedSpeechSynthesis)
      → Run voiced cfg sent given s
      → (length s.queue ≤ 4)
        × (length s.results ≤ 1)
        × ((s.cancelled ≡ true) ⊎ (segments voiced sent ≡ given ++ in_flight voiced s))
  Run-order cfg sent given s r =
      let b = Run-IsBounded cfg r in
      let order : (s.cancelled ≡ true) ⊎ (segments voiced sent ≡ given ++ in_flight voiced s) =
        elim (Bool-cases s.cancelled) [
          | inl off ↦ inl off
          | inr on ↦ inr (sym (Run-kept voiced cfg r on))
        ] in
      (b.queue_bound, b.result_bound, order)

  -- Once the worker has returned without a cancellation and the reader finds no result, it was given
  -- the segments of all the clauses that were enqueued, in order, and none is left to enqueue.
  pub Run-complete :
      (cfg : SpeechPlannerConfig) (sent : List PlannedSpeechClause) (given : List PlaybackSegment)
      (s : PlannedSpeechSynthesis)
      → Run voiced cfg sent given s
      → s.cancelled ≡ false
      → s.worker ≡ stopped
      → s.results ≡ []
      → (given ≡ segments voiced sent) × (s.outgoing ≡ []) × (s.waiting ≡ none)
  Run-complete cfg sent given s r on over empty =
      let b = Run-IsBounded cfg r in
      elim (b.over over) [
        | inl off ↦ cc (on, off)
        | inr (no_queue, shut) ↦
            let (no_more, none_waits) = b.at_rest shut in
            (
              sym (append-nil given)
                  ∙ rw (over, empty, no_queue, none_waits) at (Run-kept voiced cfg r on),
              no_more,
              none_waits,
            )
      ]
