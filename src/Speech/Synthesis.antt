-- ===== src/Speech/Synthesis.antt =====
-- The goroutines that speak the clauses of a reply: plannedSpeechSynthesis and queuedSpeechAudioStream
-- of internal/voice/speech_planner.go. The caller observes deltas and finalises, the worker has the
-- clauses synthesised, and the reader of the stream loads the results; the two channels hold at most
-- four clauses and one result. Each step is one channel operation, or what a goroutine does between
-- two. Synthesis is external: `voiced` says for which clauses synthesizedPlannedClauseStream gives a
-- stream, and a stream is named by its segment.
use agent_server.Prelude.{
  ◌<◌, ◌≡◌, Bool, true, false, List, [], ◌∷◌, ◌++◌, length, is_empty, Option, none, some,
  if◌then◌else◌, pos, leb_ℤ, add64,
}
use agent_server.Clock.{Duration}
use agent_server.Text.{Text, trim_space}
use agent_server.Speech.{
  SpeechPlanner, new_speech_planner, observe_text_delta_clauses, finalize_text_clauses,
}
use agent_server.Speech.Boundary.{SpeechPlannerConfig, default_speech_planner_queue_size}
use agent_server.Speech.Clause.{
  PlannedSpeechClause, PlaybackSegment, estimate_clause_playback_duration,
  playback_segment_for_clause,
}

-- runWorker: at its `select`, with a stream to hand over, or returned (which closes the results).
pub data Worker : Type 0 where
  idle stopped : Worker
  holding : PlannedSpeechClause → Worker

-- `outgoing` are the clauses that the running call still has to enqueue, `waiting` is the one that
-- enqueueClause is about to send. `start` is what resolveStart was first told.
pub record PlannedSpeechSynthesis : Type 0 where
  pub planner : SpeechPlanner
  pub outgoing : List PlannedSpeechClause
  pub waiting : Option PlannedSpeechClause
  pub finalizing : Bool
  pub queue : List PlannedSpeechClause
  pub queue_closed : Bool
  pub enqueued : Bool
  pub start : Option Text
  pub planned : Duration
  pub worker : Worker
  pub results : List PlaybackSegment
  pub current : Option PlaybackSegment
  pub segmented : Bool
  pub closed : Bool
  pub cancelled : Bool

unfoldable pub new_planned_speech_synthesis : SpeechPlannerConfig → PlannedSpeechSynthesis
new_planned_speech_synthesis cfg = record {
  planner = new_speech_planner cfg;
  outgoing = [];
  waiting = none;
  finalizing = false;
  queue = [];
  queue_closed = false;
  enqueued = false;
  start = none;
  planned = pos 0;
  worker = idle;
  results = [];
  current = none;
  segmented = false;
  closed = false;
  cancelled = false;
}

abbrev resolved : Option Text → Text → Option Text
resolved none text = some (trim_space text)
resolved (some t) text = some t

unfoldable pub resolve_start : Text → PlannedSpeechSynthesis → PlannedSpeechSynthesis
resolve_start text s = record s { start = resolved s.start text }

unfoldable pub close_queue : PlannedSpeechSynthesis → PlannedSpeechSynthesis
close_queue s = record s { queue_closed = true }

-- Close of the stream: once, it cancels the worker and drops what is there.
unfoldable pub close_stream : PlannedSpeechSynthesis → PlannedSpeechSynthesis
close_stream s =
    if s.closed
    then s
    else record s { closed = true; cancelled = true; current = none; results = [] }

-- addPlannedClause, on the planned duration of the stream.
unfoldable pub add_planned_clause : PlannedSpeechClause → Duration → Duration
add_planned_clause c planned =
    let duration =
      if leb_ℤ c.estimated_duration (pos 0)
      then estimate_clause_playback_duration c
      else c.estimated_duration in
    if is_empty (trim_space c.text) then planned else add64 planned duration

-- The clause as it is sent.
unfoldable pub tidied : PlannedSpeechClause → PlannedSpeechClause
tidied c =
    let c' = record c { text = trim_space c.text } in
    if leb_ℤ c'.estimated_duration (pos 0)
    then record c' { estimated_duration = estimate_clause_playback_duration c' }
    else c'

-- enqueueClause, up to its `select`.
unfoldable pub enqueue_clause :
    PlannedSpeechClause → PlannedSpeechSynthesis → PlannedSpeechSynthesis
enqueue_clause c s =
    if is_empty (trim_space c.text) then s else record (resolve_start (trim_space c.text) s) {
      enqueued = true;
      planned = add_planned_clause (tidied c) s.planned;
      waiting = some (tidied c);
    }

-- The end of Finalize, once its clauses are enqueued.
unfoldable pub finish : PlannedSpeechSynthesis → PlannedSpeechSynthesis
finish s = let s' = close_queue s in if s'.enqueued then s' else close_stream (resolve_start [] s')

-- Close of the synthesis.
unfoldable pub close : PlannedSpeechSynthesis → PlannedSpeechSynthesis
close s = close_stream (resolve_start [] (close_queue s))

-- What WaitAudioStart gives: `none` while it blocks, and then the text of the first clause, if there
-- is one.
unfoldable pub wait_audio_start : PlannedSpeechSynthesis → Option (Option Text)
wait_audio_start s = elim s.start [
  | none ↦ none
  | some text ↦ some (if is_empty text then none else some text)
]

-- A caller that has nothing left to send.
abbrev pub AtRest : PlannedSpeechSynthesis → Type 0
AtRest s = (s.outgoing ≡ []) × (s.waiting ≡ none)

-- loadNextResult and what its callers do with a result.
unfoldable pub load_next_result :
    PlaybackSegment → List PlaybackSegment → PlannedSpeechSynthesis → PlannedSpeechSynthesis
load_next_result r rest s = record s { results = rest; current = some r }

-- A step: the clauses that it enqueues, the segments that the reader is given, and the next state.
module _ (voiced : PlannedSpeechClause → Bool) where
  pub data Step (s : PlannedSpeechSynthesis) (sent : List PlannedSpeechClause)
      (given : List PlaybackSegment) (s' : PlannedSpeechSynthesis) : Type 0 where
    -- ObserveDelta, with a text delta
    observe :
        (text : Text) (p : SpeechPlanner) (clauses : List PlannedSpeechClause)
        → AtRest s
        → s.queue_closed ≡ false
        → s.finalizing ≡ false
        → observe_text_delta_clauses text s.planner ≡ some (p, clauses)
        → sent ≡ []
        → given ≡ []
        → s' ≡ record s { planner = p; outgoing = clauses }
        → Step s sent given s'
    -- Finalize
    finalize :
        (text : Text) (p : SpeechPlanner) (clauses : List PlannedSpeechClause)
        → AtRest s
        → s.queue_closed ≡ false
        → s.finalizing ≡ false
        → finalize_text_clauses text s.planner ≡ some (p, clauses)
        → sent ≡ []
        → given ≡ []
        → s' ≡ record s { planner = p; outgoing = clauses; finalizing = true }
        → Step s sent given s'
    finalized :
        AtRest s
        → s.finalizing ≡ true
        → sent ≡ []
        → given ≡ []
        → s' ≡ finish s
        → Step s sent given s'
    -- Close of the synthesis, by the caller
    abandon : AtRest s → sent ≡ [] → given ≡ [] → s' ≡ close s → Step s sent given s'
    prepare :
        (c : PlannedSpeechClause) (clauses : List PlannedSpeechClause)
        → s.outgoing ≡ c ∷ clauses
        → s.waiting ≡ none
        → sent ≡ (if is_empty (trim_space c.text) then [] else tidied c ∷ [])
        → given ≡ []
        → s' ≡ enqueue_clause c (record s { outgoing = clauses })
        → Step s sent given s'
    send :
        (c : PlannedSpeechClause)
        → s.waiting ≡ some c
        → length s.queue < default_speech_planner_queue_size
        → sent ≡ []
        → given ≡ []
        → s' ≡ record s { waiting = none; queue = s.queue ++ c ∷ [] }
        → Step s sent given s'
    give_up :
        (c : PlannedSpeechClause)
        → s.waiting ≡ some c
        → s.cancelled ≡ true
        → sent ≡ []
        → given ≡ []
        → s' ≡ record s { waiting = none }
        → Step s sent given s'
    -- the worker
    synthesize :
        (c : PlannedSpeechClause) (clauses : List PlannedSpeechClause)
        → s.worker ≡ idle
        → s.queue ≡ c ∷ clauses
        → sent ≡ []
        → given ≡ []
        → s' ≡ record s { queue = clauses; worker = if voiced c then holding c else idle }
        → Step s sent given s'
    hand_over :
        (c : PlannedSpeechClause)
        → s.worker ≡ holding c
        → s.results ≡ []
        → sent ≡ []
        → given ≡ []
        → s' ≡ record s { worker = idle; results = playback_segment_for_clause c ∷ [] }
        → Step s sent given s'
    drained :
        s.worker ≡ idle
        → s.queue ≡ []
        → s.queue_closed ≡ true
        → sent ≡ []
        → given ≡ []
        → s' ≡ record s { worker = stopped }
        → Step s sent given s'
    cancel :
        s.cancelled ≡ true
        → sent ≡ []
        → given ≡ []
        → s' ≡ record s { worker = stopped }
        → Step s sent given s'
    -- the end of the context that all of it runs under
    expire : sent ≡ [] → given ≡ [] → s' ≡ record s { cancelled = true } → Step s sent given s'
    -- the reader: NextSegment with a result, Next with one, and a stream that is at its end
    next_segment :
        (r : PlaybackSegment) (rest : List PlaybackSegment)
        → s.current ≡ none
        → s.results ≡ r ∷ rest
        → sent ≡ []
        → given ≡ r ∷ []
        → s' ≡ load_next_result r rest (record s { segmented = true })
        → Step s sent given s'
    next :
        (r : PlaybackSegment) (rest : List PlaybackSegment)
        → s.current ≡ none
        → s.results ≡ r ∷ rest
        → sent ≡ []
        → given ≡ r ∷ []
        → s' ≡ load_next_result r rest s
        → Step s sent given s'
    ended : sent ≡ [] → given ≡ [] → s' ≡ record s { current = none } → Step s sent given s'
    close_reader : sent ≡ [] → given ≡ [] → s' ≡ close_stream s → Step s sent given s'

  -- Steps one after another, with all clauses that they enqueued and all segments given, from the
  -- first on.
  pub data Run (cfg : SpeechPlannerConfig)
      : List PlannedSpeechClause → List PlaybackSegment → PlannedSpeechSynthesis → Type 0 where
    here : Run cfg [] [] (new_planned_speech_synthesis cfg)
    step :
        {sent : List PlannedSpeechClause} {given : List PlaybackSegment}
        {s : PlannedSpeechSynthesis}
        → Run cfg sent given s
        → (more : List PlannedSpeechClause) (later : List PlaybackSegment)
          (s' : PlannedSpeechSynthesis)
        → Step s more later s'
        → (sent' : List PlannedSpeechClause) (given' : List PlaybackSegment) → sent' ≡ sent ++ more
        → given' ≡ given ++ later
        → Run cfg sent' given' s'
