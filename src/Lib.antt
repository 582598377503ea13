-- ===== src/Lib.antt =====
-- The voice core of agent-server: sessions, turn taking, and what was heard of a reply.
--
-- agent-server is a voice server. A client streams audio into a session; a turn detector watches
-- the audio and the partial transcripts of a preview and suggests when the turn of the user is
-- over; the turn is committed, a responder answers, and the reply is played while the
-- orchestrator keeps account of how much of it was heard, so that an interruption, a resumption
-- and the memory of the conversation start from what the user heard.
--
-- Session (internal/session/realtime_session.go, internal/session/types.go): `RealtimeSession`
--   with one function per method. A method takes the clock reading that the source takes from
--   time.Now, and returns the session and its result; the mutex makes each one atomic step.
--   Session.Types has the data, Session.Steps the calls as data, Session.Invariant what holds
--   between calls, Session.Lanes the input and output lanes, Session.Audio the buffered audio
--   against a byte queue.
-- Lexicon (internal/voice/turn_detector.go, barge_in.go, semantic_task_family.go there): the
--   lexical tests of an utterance, with the word lists of the source in Lexicon.Words.
-- Preview (internal/voice/contracts.go): `InputPreview` and `TurnArbitration`.
-- Turn (internal/voice/turn_detector.go): the arbitration of a turn; Turn.Waits has the settings
--   and the parts of a wait, Turn.Stable has updateStablePrefix, Turn.Detector the state of
--   SilenceTurnDetector and its methods. Turn.Stages, Turn.Unfinished and Turn.Latch have the
--   theorems.
-- Playback (internal/voice/session_orchestrator.go): the turn that is played, from PrepareTurn
--   to its outcome. Playback.Policy has the string types, Playback.State the records,
--   Playback.Heard the functions on texts, Playback.Turn the helpers on a turn,
--   Playback.Annotations the metadata of a memory record, Playback.Context what the next turn is
--   told; Playback.Run has the calls as data.
--   Playback.Prefix, Outcome, Sound, Truthful, Interrupt, Boundary, TalkedOver, Recovery and
--   Played have the theorems.
-- InputTurn (internal/voice/session_orchestrator.go): what the gateway is told of the snapshots
--   of a preview, whose session is external; InputTurn.Commit has the theorem.
-- BargeIn (internal/voice/barge_in.go, and the intents of semantic_judge.go there):
--   EvaluateBargeIn. BargeIn.Signals has the signals and the scores, BargeIn the rules,
--   BargeIn.Directive what a decision does to the playback; BargeIn.Policy and BargeIn.Runes
--   have theorems.
-- Speech (internal/voice/speech_planner.go): how the deltas of a reply become clauses, and the
--   clauses audio. Speech.Boundary and Speech.Clause have the cuts and the clauses, Speech the
--   planner, Speech.Queue and Speech.Synthesis the shared state of the goroutines that enqueue,
--   synthesise and read, with a step relation for their interleavings. Speech.Cut, Segment,
--   Advance, Drain, Reply, Spoken, Tail, Final, Prompt, Channels and Start have the theorems.
-- Memory (internal/agent/runtime_backends.go): `InMemoryMemoryStore`. Memory.Scopes has the
--   scopes of a query and of a record, Memory SaveTurn, Memory.Context LoadTurnContext;
--   Memory.Keys, Records, Kept, Saves and Told have the theorems.
-- Agent (internal/agent/llm_executor.go, with the types of llm.go and contracts.go there): a turn
--   of the executor over a model and its tools. Agent has the loop of streamLLMOutput, Agent.Chat
--   the messages and the deltas, Agent.ToolNames the names that tools have for the model,
--   Agent.Prewarm the candidates that a preview prepares for the turn to come, Agent.FollowUp and
--   Agent.Hints the questions about the last reply (playback_followup.go there), Agent.Bootstrap
--   the executor without a model (bootstrap_executor.go there), and Agent.Turns StreamTurn, which
--   joins them with the memory (memory_context.go there). Agent.Deltas, Calls, Candidates,
--   Signature, Continued and Resumed have the theorems. The model, the tools, the sink, the tables
--   of Unicode and the text of the prompt are parameters.
-- Prelude, Clock, Text, Floats: numbers with the wrap of int64, instants and durations, the
--   package strings, and the operations on float64.
--
-- A text is the list of its runes: the source cuts texts at runes, and what it does by bytes
-- (strings.HasPrefix, TrimSpace, the length of an ASCII word) is the same on valid UTF-8. Lower
-- case is modelled for the runes whose lower case is ASCII, as lowered texts are only compared
-- with ASCII texts or with runes that have no case. A string type with named values is a data
-- type with one constructor more for any other string. An int and a time.Duration are integers
-- whose sums, differences and products are brought back to 64 bits. The operations on float64
-- are the fields of `Floats`, of which no theorem supposes a law; `exact`, on fractions, serves
-- to run the code. format_int has the fuel of 20 digits, and a number of 64 bits has no more. The
-- loop of drainClauses has the length of the text and one as its fuel, as each clause takes at
-- least one rune; that it is enough is a theorem on every reply. The six rounds of the loop over
-- the tools are the bound of the source. The verb %q of package fmt is a parameter of
-- Memory.Context.
--
-- Not modelled: the sessions of a preview of the voice package, the semantic judge and the slot
-- parser, the audio codecs, the providers of recognition and synthesis, the prompt, the skills
-- and PrewarmTurn of the agent, the gateways, and the programs in other languages. They are
-- input and output, calls of external services, or parts that these theorems do not need.
-- Playback lists the records that SaveTurn is handed, and does not store them.
pub mod Prelude
pub mod Clock
pub mod Text
pub mod Floats
pub mod Session
pub mod Lexicon
pub mod Preview
pub mod Turn
pub mod Playback
pub mod BargeIn
pub mod InputTurn
pub mod Speech
pub mod Memory
pub mod Agent
