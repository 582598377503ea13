-- ===== src/Speech/Queue.antt =====
-- What the goroutines of internal/voice/speech_planner.go make of the clauses together: the channels
-- keep their order and lose nothing.
use agent_server.Prelude.{
  ◌≡◌, inl, inr, refl, sym, ap, ◌∙◌, Bool, false, Bool-cases, List, [], ◌∷◌, ◌++◌, append-nil,
  append_assoc, is_empty, Option, none, some, if◌then◌else◌, arith,
}
use agent_server.Text.{trim_space}
use agent_server.Speech.Boundary.{SpeechPlannerConfig}
use agent_server.Speech.Clause.{PlannedSpeechClause, PlaybackSegment, playback_segment_for_clause}
use agent_server.Speech.Synthesis.{
  PlannedSpeechSynthesis, Worker, idle, stopped, holding, new_planned_speech_synthesis,
  resolve_start, close_queue, close_stream, tidied, enqueue_clause, finish, close, load_next_result,
  Step, Run, observe, finalize, finalized, abandon, prepare, send, give_up, synthesize, hand_over,
  drained, cancel, expire, next_segment, next, ended, close_reader, here, step,
}

abbrev pub waiting_list : Option PlannedSpeechClause → List PlannedSpeechClause
waiting_list none = []
waiting_list (some c) = c ∷ []

abbrev pub held : Worker → List PlaybackSegment
held idle = []
held stopped = []
held (holding c) = playback_segment_for_clause c ∷ []

module _ (voiced : PlannedSpeechClause → Bool) where
  -- The segments of the clauses that are given a stream, in their order.
  abbrev pub segments : List PlannedSpeechClause → List PlaybackSegment
  segments [] = []
  segments (c ∷ clauses) =
      if voiced c then playback_segment_for_clause c ∷ segments clauses else segments clauses

  segments-append : (a b : List PlannedSpeechClause) → segments (a ++ b) ≡ segments a ++ segments b
  segments-append [] b = refl
  segments-append (c ∷ a) b = ground (arith, segments-append a b)

  -- What is on its way to the reader.
  abbrev pub in_flight : PlannedSpeechSynthesis → List PlaybackSegment
  in_flight s = s.results ++ (held s.worker ++ segments (s.queue ++ waiting_list s.waiting))

  -- A step that moves nothing.
  quiet :
      (s s' : PlannedSpeechSynthesis) (more : List PlannedSpeechClause)
      (later : List PlaybackSegment)
      → more ≡ []
      → later ≡ []
      → in_flight s' ≡ in_flight s
      → later ++ in_flight s' ≡ in_flight s ++ segments more
  quiet s s' more later e e' same = rw (e, e', same) (sym (append-nil (in_flight s)))

  close_stream_flight :
      (s : PlannedSpeechSynthesis)
      → (close_stream s).cancelled ≡ false
      → (s.cancelled ≡ false) × (in_flight (close_stream s) ≡ in_flight s)
  unfolding close_stream
  close_stream_flight s = elim (Bool-cases s.closed) [
    | inl old ↦ rw old (λ e. (e, refl))
    | inr new ↦ rw new (λ e. cc)
  ]

  finish_flight :
      (s : PlannedSpeechSynthesis)
      → (finish s).cancelled ≡ false
      → (s.cancelled ≡ false) × (in_flight (finish s) ≡ in_flight s)
  unfolding finish close_queue resolve_start
  finish_flight s = elim (Bool-cases s.enqueued) [
    | inl some_sent ↦ rw some_sent (λ e. (e, refl))
    | inr none_sent ↦ rw none_sent (close_stream_flight _)
  ]

  close_flight :
      (s : PlannedSpeechSynthesis)
      → (close s).cancelled ≡ false
      → (s.cancelled ≡ false) × (in_flight (close s) ≡ in_flight s)
  unfolding close close_queue resolve_start
  close_flight s = close_stream_flight _

  -- A clause behind all others.
  sent_last :
      (queue : List PlannedSpeechClause) (c : PlannedSpeechClause) (a b : List PlaybackSegment)
      → a ++ (b ++ segments (queue ++ c ∷ []))
        ≡ (a ++ (b ++ segments (queue ++ []))) ++ segments (c ∷ [])
  sent_last queue c a b =
      rw (segments-append queue (c ∷ []), append-nil queue)
        (ap (λ t. a ++ t) (sym (append_assoc b (segments queue) (segments (c ∷ []))))
          ∙ sym (append_assoc a (b ++ segments queue) (segments (c ∷ []))))

  -- The worker takes a clause, and drops it if it has no stream.
  taken :
      (c : PlannedSpeechClause) (a : List PlaybackSegment)
      (clauses behind : List PlannedSpeechClause)
      → a ++ (held (if voiced c then holding c else idle) ++ segments (clauses ++ behind))
        ≡ a ++ segments ((c ∷ clauses) ++ behind)
  taken c a clauses behind = elim (Bool-cases (voiced c)) [
    | inl stream ↦ rw stream refl
    | inr mute ↦ rw mute refl
  ]

  enqueue_flight :
      (c : PlannedSpeechClause) (s : PlannedSpeechSynthesis)
      → s.waiting ≡ none
      → ((enqueue_clause c s).cancelled ≡ s.cancelled)
        × (in_flight (enqueue_clause c s)
            ≡ in_flight s ++ segments (if is_empty (trim_space c.text) then [] else tidied c ∷ []))
  unfolding enqueue_clause resolve_start
  enqueue_flight c s w = elim (Bool-cases (is_empty (trim_space c.text))) [
    | inl blank ↦ rw blank (refl, sym (append-nil (in_flight s)))
    | inr more ↦ rw (more, w) (refl, sent_last s.queue (tidied c) s.results (held s.worker))
  ]

  -- The clauses of each step are added behind those on their way, and its segments are those in
  -- front.
  Step-kept :
      (s s' : PlannedSpeechSynthesis) (more : List PlannedSpeechClause)
      (later : List PlaybackSegment)
      → Step voiced s more later s'
      → s'.cancelled ≡ false
      → (s.cancelled ≡ false) × (later ++ in_flight s' ≡ in_flight s ++ segments more)
  unfolding load_next_result
  Step-kept s s' more later (observe text p clauses rest q f o e e' same) =
      rw same (λ c. (c, quiet s s more later e e' refl))
  Step-kept s s' more later (finalize text p clauses rest q f o e e' same) =
      rw same (λ c. (c, quiet s s more later e e' refl))
  Step-kept s s' more later (finalized rest f e e' same) =
      rw same (λ c. let (a, b) = finish_flight s c in (a, quiet s (finish s) more later e e' b))
  Step-kept s s' more later (abandon rest e e' same) =
      rw same (λ c. let (a, b) = close_flight s c in (a, quiet s (close s) more later e e' b))
  Step-kept s s' more later (prepare c clauses o w e e' same) =
      let (a, b) = enqueue_flight c (record s { outgoing = clauses }) w in
      rw (same, e, e') (λ z. (sym a ∙ z, b))
  Step-kept s s' more later (send c w room e e' same) = rw same (λ z. (
    z,
    quiet s (record s { waiting = none; queue = s.queue ++ c ∷ [] }) more later e e'
        (rw (w, append-nil (s.queue ++ c ∷ [])) refl),
  ))
  Step-kept s s' more later (give_up c w on e e' same) = rw (same, on) (λ z. cc)
  Step-kept s s' more later (synthesize c clauses idling q e e' same) = rw same (λ z. (
    z,
    quiet s (record s { queue = clauses; worker = if voiced c then holding c else idle }) more later
        e e' (rw (idling, q) (taken c s.results clauses (waiting_list s.waiting))),
  ))
  Step-kept s s' more later (hand_over c holds free e e' same) = rw same (λ z. (
    z,
    quiet s (record s { worker = idle; results = playback_segment_for_clause c ∷ [] }) more later e
        e' (rw (holds, free) refl),
  ))
  Step-kept s s' more later (drained idling empty over e e' same) =
      rw same (λ z.
        (z, quiet s (record s { worker = stopped }) more later e e' (rw (idling, empty) refl)))
  Step-kept s s' more later (cancel on e e' same) = rw (same, on) (λ z. cc)
  Step-kept s s' more later (expire e e' same) = rw same (λ z. cc)
  Step-kept s s' more later (next_segment r rest free q e e' same) =
      rw (same, e, e', q)
        (λ z. (
          z,
          sym (
              append-nil
                (r ∷ rest ++ (held s.worker ++ segments (s.queue ++ waiting_list s.waiting)))),
        ))
  Step-kept s s' more later (next r rest free q e e' same) =
      rw (same, e, e', q)
        (λ z. (
          z,
          sym (
              append-nil
                (r ∷ rest ++ (held s.worker ++ segments (s.queue ++ waiting_list s.waiting)))),
        ))
  Step-kept s s' more later (ended e e' same) = rw same (λ c. (c, quiet s s more later e e' refl))
  Step-kept s s' more later (close_reader e e' same) =
      rw same (λ c.
        let (a, b) = close_stream_flight s c in (a, quiet s (close_stream s) more later e e' b))

  -- Every clause that was enqueued, in its order: its segment was given, or is on its way.
  pub Run-kept :
      (cfg : SpeechPlannerConfig) {sent : List PlannedSpeechClause} {given : List PlaybackSegment}
      {s : PlannedSpeechSynthesis}
      → Run voiced cfg sent given s
      → s.cancelled ≡ false
      → given ++ in_flight s ≡ segments sent
  unfolding new_planned_speech_synthesis
  Run-kept cfg here on = refl
  Run-kept cfg (step {sent} {given} {s} r more later s' st sent' given' e e') on =
      let (on', kept) = Step-kept s s' more later st on in
      rw
        (
          e,
          e',
          append_assoc given later (in_flight s'),
          kept,
          sym (append_assoc given (in_flight s) (segments more)),
          Run-kept cfg r on',
        )
        (sym (segments-append sent more))
