-- ===== src/Agent/Prewarm.antt =====
-- The candidates that PrewarmTurn prepares for a turn: llmPrewarmState with store, consumeMatch and
-- llmPrewarmMetadataSignature of internal/agent/llm_executor.go.
use agent_server.Prelude.{
  Bool, true, false, ◌&&◌, ◌||◌, List, [], ◌∷◌, ◌++◌, if◌then◌else◌, is_empty, Option, none, some,
  ◌==◌, ltb, ltb_ℤ, pos,
}
use agent_server.Text.{Text, codes, text_eq, trim_space, has_prefix}
use agent_server.Clock.{Time, Duration, time_sub}

-- Of llmPrewarmCandidate, the fields that are compared; what was prepared, that is the prompt, the memory
-- context, the tools and their names, is handed on as it is.
pub record Candidate {ℓ} (P : Type ℓ) : Type ℓ where
  pub session_id : Text
  pub device_id : Text
  pub client_type : Text
  pub user_text : Text
  pub metadata_sig : Text
  pub prepared_at : Time
  pub prepared : P

-- What consumeMatch is asked with: the input, its trimmed text and its metadata.
pub record Request : Type 0 where
  pub session_id : Text
  pub device_id : Text
  pub client_type : Text
  pub user_text : Text
  pub metadata : List (Text × Text)

abbrev pub prewarm_ttl : Duration
prewarm_ttl = pos 15000000000

-- s <= t in the order of Go's strings
unfoldable pub text_leb : Text → Text → Bool
text_leb [] t = true
text_leb (c ∷ s) [] = false
text_leb (c ∷ s) (d ∷ t) = ltb c d || c == d && text_leb s t

unfoldable pub insert_text : Text → List Text → List Text
insert_text t [] = t ∷ []
insert_text t (u ∷ us) = if text_leb t u then t ∷ u ∷ us else u ∷ insert_text t us

-- sort.Strings
unfoldable pub sort_texts : List Text → List Text
sort_texts [] = []
sort_texts (t ∷ ts) = insert_text t (sort_texts ts)

-- strings.Join(ts, "&")
unfoldable pub join_texts : List Text → Text
join_texts [] = []
join_texts (t ∷ []) = t
join_texts (t ∷ u ∷ us) = t ++ b'&' ∷ join_texts (u ∷ us)

abbrev pub is_skipped : Text → Text → Bool
is_skipped key value =
    is_empty (trim_space key)
    || has_prefix (trim_space key) (codes "voice.preview.")
    || is_empty (trim_space value)

-- The loop over the metadata, in the order in which its pairs come.
unfoldable pub signature_entries : List (Text × Text) → List Text
signature_entries [] = []
signature_entries ((key, value) ∷ metadata) =
    let rest = signature_entries metadata in
    if is_skipped key value then rest else (trim_space key ++ b'=' ∷ trim_space value) ∷ rest

unfoldable pub metadata_signature : List (Text × Text) → Text
metadata_signature metadata = join_texts (sort_texts (signature_entries metadata))

-- bySession
abbrev pub PrewarmState {ℓ} : Type ℓ → Type ℓ
PrewarmState P = Text → Option (Candidate P)

-- The calls of the executor on its candidates.
pub data PrewarmOp {ℓ} (P : Type ℓ) : Type ℓ where
  store_op : Candidate P → PrewarmOp P
  consume_op : Time → Request → PrewarmOp P

module _ {ℓ} {P : Type ℓ} where
  unfoldable pub store_candidate : Candidate P → PrewarmState P → PrewarmState P
  store_candidate c s = if is_empty (trim_space c.session_id) then s else λ session_id.
      if text_eq session_id c.session_id then some c else s session_id

  abbrev pub without : Text → PrewarmState P → PrewarmState P
  without consumed s session_id = if text_eq session_id consumed then none else s session_id

  unfoldable pub matches_request : Request → Candidate P → Bool
  matches_request r c =
      text_eq (trim_space c.device_id) (trim_space r.device_id)
      && text_eq (trim_space c.client_type) (trim_space r.client_type)
      && text_eq (trim_space c.user_text) (trim_space r.user_text)
      && text_eq c.metadata_sig (metadata_signature r.metadata)

  unfoldable pub offered : Time → Request → Option (Candidate P) → Option (Candidate P)
  offered now r none = none
  offered now r (some c) =
      if ltb_ℤ prewarm_ttl (time_sub now c.prepared_at)
      then none
      else if matches_request r c
      then some c
      else none

  unfoldable pub consume_match :
      Time → Request → PrewarmState P → PrewarmState P × Option (Candidate P)
  consume_match now r s =
      if is_empty (trim_space r.session_id)
      then (s, none)
      else (without r.session_id s, offered now r (s r.session_id))

  -- The state after the calls, of which the latest stands first.
  abbrev pub candidates_after : List (PrewarmOp P) → PrewarmState P
  candidates_after [] = λ session_id. none
  candidates_after (store_op c ∷ earlier) = store_candidate c (candidates_after earlier)
  candidates_after (consume_op now r ∷ earlier) = (consume_match now r (candidates_after earlier)).0
