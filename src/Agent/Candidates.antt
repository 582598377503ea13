-- ===== src/Agent/Candidates.antt =====
-- Which candidate consumeMatch of internal/agent/llm_executor.go hands out, after any calls.
use agent_server.Prelude.{
  ◌≡◌, ◌≢◌, ◌↔◌, refl, sym, ap, ◌∙◌, subst, true, false, inl, inr, Bool-cases, if-cases, List, [],
  ◌∷◌, ◌++◌, is_empty, Option, none, some, All, ltb_ℤ, ◌≤ℤ◌, arith,
}
use agent_server.Text.{Text, text_eq, trim_space}
use agent_server.Text.Laws.{text_eq→eq, text_eq_refl}
use agent_server.Clock.{Time, time_sub}
use agent_server.Agent.Prewarm.{
  Candidate, Request, prewarm_ttl, metadata_signature, PrewarmState, PrewarmOp, store_op,
  consume_op, store_candidate, matches_request, offered, consume_match, candidates_after,
}

apart : (s t : Text) → text_eq s t ≡ false → t ≢ s
apart s t h e = ground (arith, text_eq_refl s)

text_eq_of : (s t : Text) → s ≡ t → text_eq s t ≡ true
text_eq_of s t e = rw e (text_eq_refl t)

unlike : (s t : Text) → t ≢ s → text_eq s t ≡ false
unlike s t h = ground (arith, text_eq→eq s t)

not_late :
    (now t : Time) → time_sub now t ≤ℤ prewarm_ttl → ltb_ℤ prewarm_ttl (time_sub now t) ≡ false
not_late now t h = ground arith

blank_apart :
    (s t : Text)
    → is_empty (trim_space s) ≡ false
    → is_empty (trim_space t) ≡ true
    → text_eq s t ≡ false
blank_apart s t named blank = ground (arith, text_eq→eq s t)

module _ {ℓ} {P : Type ℓ} where
  abbrev pub op_session : PrewarmOp P → Text
  op_session (store_op c) = c.session_id
  op_session (consume_op now r) = r.session_id

  -- The last call of a session stored the candidate.
  abbrev pub IsStoredLast : Text → List (PrewarmOp P) → Candidate P → Type ℓ
  IsStoredLast session_id ops c =
      (later : List (PrewarmOp P)) × (earlier : List (PrewarmOp P)) × (ops
        ≡ later ++ store_op c ∷ earlier)
      × All (λ op. op_session op ≢ session_id) later
      × (c.session_id ≡ session_id)

  -- The candidate was prepared for the same question, and not long ago.
  abbrev pub IsFor : Time → Request → Candidate P → Type 0
  IsFor now r c =
      (time_sub now c.prepared_at ≤ℤ prewarm_ttl)
      × (trim_space c.device_id ≡ trim_space r.device_id)
      × (trim_space c.client_type ≡ trim_space r.client_type)
      × (trim_space c.user_text ≡ trim_space r.user_text)
      × (c.metadata_sig ≡ metadata_signature r.metadata)

  past :
      (session_id : Text) (op : PrewarmOp P) (ops : List (PrewarmOp P)) (c : Candidate P)
      → op_session op ≢ session_id
      → IsStoredLast session_id ops c
      → IsStoredLast session_id (op ∷ ops) c
  past session_id op ops c other (later, earlier, e, others, same) =
      (op ∷ later, earlier, ap (λ t. op ∷ t) e, (other, others), same)

  store_other :
      (d : Candidate P) (s : PrewarmState P) (session_id : Text)
      → text_eq session_id d.session_id ≡ false
      → store_candidate d s session_id ≡ s session_id
  unfolding store_candidate
  store_other d s session_id h =
      if-cases (λ (s' : PrewarmState P). s' session_id ≡ s session_id)
        (is_empty (trim_space d.session_id)) s _ (λ _. refl) (λ _. rw h refl)

  store_same :
      (d : Candidate P) (s : PrewarmState P) (session_id : Text)
      → is_empty (trim_space session_id) ≡ false
      → text_eq session_id d.session_id ≡ true
      → store_candidate d s session_id ≡ some d
  unfolding store_candidate
  store_same d s session_id named h =
      rw (ap (λ t. is_empty (trim_space t)) (sym (text_eq→eq session_id d.session_id h)) ∙ named, h)
        refl

  consume_held :
      (now : Time) (r : Request) (s : PrewarmState P) (session_id : Text) (c : Candidate P)
      → is_empty (trim_space session_id) ≡ false
      → (consume_match now r s).0 session_id ≡ some c
      → (text_eq session_id r.session_id ≡ false) × (s session_id ≡ some c)
  unfolding consume_match
  consume_held now r s session_id c named =
      if-cases
        (λ (m : PrewarmState P × Option (Candidate P)).
          m.0 session_id ≡ some c
          → (text_eq session_id r.session_id ≡ false) × (s session_id ≡ some c))
        (is_empty (trim_space r.session_id)) (s, none) _
        (λ blank k. (blank_apart session_id r.session_id named blank, k))
        (λ _.
          if-cases
            (λ (o : Option (Candidate P)).
              o ≡ some c → (text_eq session_id r.session_id ≡ false) × (s session_id ≡ some c))
            (text_eq session_id r.session_id) none (s session_id) (λ _ k. ground arith)
            (λ other k. (other, k)))

  matching-IsFor :
      (now : Time) (r : Request) (c : Candidate P)
      → ltb_ℤ prewarm_ttl (time_sub now c.prepared_at) ≡ false
      → matches_request r c ≡ true
      → IsFor now r c
  unfolding matches_request
  matching-IsFor now r c on_time matching = ground (
    arith,
    text_eq→eq (trim_space c.device_id) (trim_space r.device_id),
    text_eq→eq (trim_space c.client_type) (trim_space r.client_type),
    text_eq→eq (trim_space c.user_text) (trim_space r.user_text),
    text_eq→eq c.metadata_sig (metadata_signature r.metadata),
  )

  offered-IsFor :
      (now : Time) (r : Request) (o : Option (Candidate P)) (c : Candidate P)
      → offered now r o ≡ some c
      → (o ≡ some c) × IsFor now r c
  unfolding offered
  offered-IsFor now r none c = λ h. ground arith
  offered-IsFor now r (some d) c =
      if-cases (λ (o : Option (Candidate P)). o ≡ some c → (some d ≡ some c) × IsFor now r c)
        (ltb_ℤ prewarm_ttl (time_sub now d.prepared_at)) none _ (λ _ k. ground arith)
        (λ on_time.
          if-cases (λ (o : Option (Candidate P)). o ≡ some c → (some d ≡ some c) × IsFor now r c)
            (matches_request r d) (some d) none
            (λ matching k.
              let same : d ≡ c = cc in
              (k, subst (IsFor now r) same (matching-IsFor now r d on_time matching)))
            (λ _ k. ground arith))

  held-IsStoredLast :
      (session_id : Text) (ops : List (PrewarmOp P)) (c : Candidate P)
      → is_empty (trim_space session_id) ≡ false
      → candidates_after ops session_id ≡ some c
      → IsStoredLast session_id ops c
  held-IsStoredLast session_id [] c named h = ground arith
  held-IsStoredLast session_id (store_op d ∷ ops) c named h =
      elim (Bool-cases (text_eq session_id d.session_id)) [
        | inl same ↦
            let stored : some d ≡ some c =
              sym (store_same d (candidates_after ops) session_id named same) ∙ h in
            (
              [],
              ops,
              ap (λ t. store_op t ∷ ops) (cc),
              tt,
              cc (text_eq→eq session_id d.session_id same),
            )
        | inr other ↦ past session_id (store_op d) ops c (apart session_id d.session_id other) (
            held-IsStoredLast session_id ops c named
              (sym (store_other d (candidates_after ops) session_id other) ∙ h))
      ]
  held-IsStoredLast session_id (consume_op now r ∷ ops) c named h =
      let (other, held) = consume_held now r (candidates_after ops) session_id c named h in
      past session_id (consume_op now r) ops c (apart session_id r.session_id other)
        (held-IsStoredLast session_id ops c named held)

  consume_other :
      (now : Time) (r : Request) (s : PrewarmState P) (session_id : Text)
      → text_eq session_id r.session_id ≡ false
      → (consume_match now r s).0 session_id ≡ s session_id
  unfolding consume_match
  consume_other now r s session_id other =
      if-cases (λ (m : PrewarmState P × Option (Candidate P)). m.0 session_id ≡ s session_id)
        (is_empty (trim_space r.session_id)) (s, none) _ (λ _. refl) (λ _. rw other refl)

  stored_last-held :
      (session_id : Text) (later earlier : List (PrewarmOp P)) (c : Candidate P)
      → is_empty (trim_space session_id) ≡ false
      → c.session_id ≡ session_id
      → All (λ op. op_session op ≢ session_id) later
      → candidates_after (later ++ store_op c ∷ earlier) session_id ≡ some c
  stored_last-held session_id [] earlier c named same others =
      store_same c (candidates_after earlier) session_id named
        (text_eq_of session_id c.session_id (sym same))
  stored_last-held session_id (store_op d ∷ later) earlier c named same (other, others) =
      store_other d (candidates_after (later ++ store_op c ∷ earlier)) session_id
        (unlike session_id d.session_id other)
      ∙ stored_last-held session_id later earlier c named same others
  stored_last-held session_id (consume_op now r ∷ later) earlier c named same (other, others) =
      consume_other now r (candidates_after (later ++ store_op c ∷ earlier)) session_id
        (unlike session_id r.session_id other)
      ∙ stored_last-held session_id later earlier c named same others

  IsFor-offered :
      (now : Time) (r : Request) (c : Candidate P) → IsFor now r c → offered now r (some c) ≡ some c
  unfolding offered matches_request
  IsFor-offered now r c (on_time, device, client, text, sig) =
      rw
        (
          not_late now c.prepared_at on_time,
          text_eq_of _ _ device,
          text_eq_of _ _ client,
          text_eq_of _ _ text,
          text_eq_of _ _ sig,
        )
        refl

  -- For a named session and after any calls, consumeMatch hands out a candidate exactly when the last
  -- call that named the session stored it, so that it was not handed out or dropped before, and when it
  -- was prepared no longer than the time to live ago, for the same device, client type and text up to
  -- blanks, and for metadata of the same signature.
  pub consume_match_iff :
      (now : Time) (r : Request) (ops : List (PrewarmOp P)) (c : Candidate P)
      → is_empty (trim_space r.session_id) ≡ false
      → ((consume_match now r (candidates_after ops)).1 ≡ some c)
        ↔ (IsStoredLast r.session_id ops c × IsFor now r c)
  unfolding consume_match
  consume_match_iff now r ops c named = rw named (
    λ k.
        let (held, is_for) = offered-IsFor now r (candidates_after ops r.session_id) c k in
        (held-IsStoredLast r.session_id ops c named held, is_for),
    λ ((later, earlier, e, others, same), is_for).
        ap (λ o. offered now r o)
          (ap (λ os. candidates_after os r.session_id) e
            ∙ stored_last-held r.session_id later earlier c named same others)
        ∙ IsFor-offered now r c is_for,
  )
