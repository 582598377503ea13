-- ===== src/Session/Audio.antt =====
-- The audio of a turn: the frames that internal/session/realtime_session.go buffers are the bytes
-- that the next `CommitTurn` hands over, in order and once.
use agent_server.Prelude.{
  ◌≡◌, refl, sym, ap, ◌∙◌, Bool, true, false, List, [], ◌∷◌, ◌++◌, append-nil, append_assoc, concat,
  concat-append, map, Option, none, some, ℤ, arith,
}
use agent_server.Clock.{Time}
use agent_server.Session.{flatten_turn_audio_chunks}
use agent_server.Session.Types.{Bytes, RealtimeSession}
use agent_server.Session.Steps.{
  Op, start_op, ingest_op, commit_op, clear_op, reset_op, Answer, committed_turn, step, run,
  answers,
}

-- The specification: a flag and the bytes that wait.
pub record Intake : Type 0 where
  pub is_open : Bool
  pub pending : Bytes

-- The specification of a call: what it does to the waiting bytes, and the bytes that it hands over.
intake_at : Op → Bool → Bytes → Intake × Option Bytes
intake_at (start_op req) false p = (record { is_open = true; pending = [] }, none)
intake_at (ingest_op payload) true p = (record { is_open = true; pending = p ++ payload }, none)
intake_at commit_op true p = (record { is_open = true; pending = [] }, some p)
intake_at clear_op b p = (record { is_open = b; pending = [] }, none)
intake_at reset_op b p = (record { is_open = false; pending = [] }, none)
intake_at op b p = (record { is_open = b; pending = p }, none)

unfoldable pub intake_step : Op → Intake → Intake × Option Bytes
unfolding intake_at
intake_step op i = intake_at op i.is_open i.pending

unfoldable pub intake_run : List (Time × Op) → Intake → Intake
intake_run [] i = i
intake_run ((now, op) ∷ ops) i = intake_run ops (intake_step op i).0

-- The bytes that each call of a list hands over.
unfoldable pub intake_outputs : List (Time × Op) → Intake → List (Option Bytes)
intake_outputs [] i = []
intake_outputs ((now, op) ∷ ops) i = (intake_step op i).1 ∷ intake_outputs ops (intake_step op i).0

-- The abstract view of a session.
abbrev pub view : RealtimeSession → Intake
view s = record { is_open = s.active; pending = concat s.turn_audio_chunks }

abbrev pub handed : Answer → Option Bytes
handed (committed_turn t) = some t.audio_pcm
handed a = none

flatten-concat : (chunks : List Bytes) (n : ℤ) → flatten_turn_audio_chunks chunks n ≡ concat chunks
unfolding flatten_turn_audio_chunks
flatten-concat [] n = refl
flatten-concat (c ∷ []) n = sym (append-nil c)
flatten-concat (c ∷ d ∷ rest) n = refl

concat-push : (chunks : List Bytes) (b : Bytes) → concat (chunks ++ b ∷ []) ≡ concat chunks ++ b
concat-push chunks b = concat-append chunks (b ∷ []) ∙ rw append-nil

-- One call does to the view what the specification says, and hands over the same bytes.
step-refines :
    (now : Time) (op : Op) (s : RealtimeSession)
    → intake_step op (view s) ≡ (view (step now op s).0, handed (step now op s).1)
unfolding step intake_step
step-refines now (ingest_op []) s = ground (arith, append-nil (concat s.turn_audio_chunks))
step-refines now (ingest_op (b ∷ bs)) s = ground (arith, concat-push s.turn_audio_chunks (b ∷ bs))
step-refines now commit_op s =
    ground (arith, flatten-concat s.turn_audio_chunks s.current.audio_bytes)
step-refines now _ s = ground arith

-- The session refines the specification: after any calls the bytes that wait are those that the
-- specification has, and the calls hand over the same bytes, commit for commit.
pub run-refines :
    (ops : List (Time × Op)) (s : RealtimeSession)
    → (view (run ops s) ≡ intake_run ops (view s))
      × (map handed (answers ops s) ≡ intake_outputs ops (view s))
unfolding run answers intake_run intake_outputs
run-refines [] s = (refl, refl)
run-refines ((now, op) ∷ ops) s =
    let (later, outputs) = run-refines ops (step now op s).0 in
    let one = step-refines now op s in
    (rw one later, rw one (ap (λ rest. handed (step now op s).1 ∷ rest) outputs))

-- The calls that deliver frames, each at its clock reading.
abbrev pub frames : List (Time × Bytes) → List (Time × Op)
frames [] = []
frames ((now, payload) ∷ rest) = (now, ingest_op payload) ∷ frames rest

abbrev pub payloads : List (Time × Bytes) → Bytes
payloads [] = []
payloads ((now, payload) ∷ rest) = payload ++ payloads rest

-- One frame on an active session, in the terms of the view.
view-ingest :
    (now : Time) (payload : Bytes) (s : RealtimeSession)
    → s.active ≡ true
    → let t = (step now (ingest_op payload) s).0 in
      (t.active ≡ true) × (concat t.turn_audio_chunks ≡ concat s.turn_audio_chunks ++ payload)
unfolding intake_step
view-ingest now payload s h = ground (arith, step-refines now (ingest_op payload) s)

run-frames :
    (fs : List (Time × Bytes)) (s : RealtimeSession)
    → s.active ≡ true
    → let t = run (frames fs) s in
      (t.active ≡ true) × (concat t.turn_audio_chunks ≡ concat s.turn_audio_chunks ++ payloads fs)
unfolding run
run-frames [] s h = (h, sym (append-nil (concat s.turn_audio_chunks)))
run-frames ((now, payload) ∷ fs) s h =
    let (still, more) = view-ingest now payload s h in
    let (open_after, all_of) = run-frames fs (step now (ingest_op payload) s).0 still in
    (open_after, all_of ∙ rw more (append_assoc (concat s.turn_audio_chunks) payload (payloads fs)))

-- A commit after any frames hands over what waited before them and then every frame, in the order
-- of arrival; frames with no bytes in them change nothing.
pub commit-frames :
    (now : Time) (fs : List (Time × Bytes)) (s : RealtimeSession)
    → s.active ≡ true
    → handed (step now commit_op (run (frames fs) s)).1
      ≡ some (concat s.turn_audio_chunks ++ payloads fs)
unfolding intake_step
commit-frames now fs s h =
    let (is_open, waiting) = run-frames fs s h in
    ground (arith, is_open, waiting, step-refines now commit_op (run (frames fs) s))
