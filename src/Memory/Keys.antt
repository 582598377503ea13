-- ===== src/Memory/Keys.antt =====
-- The keys of the scopes of a record in internal/agent/runtime_backends.go: each stands once, and what
-- a save does to the records of a key.
use agent_server.Prelude.{
  ◌≡◌, inl, inr, refl, sym, ap, ◌∙◌, Bool, true, false, Bool-cases, List, [], ◌∷◌, any,
  if◌then◌else◌,
}
use agent_server.Text.{Text, text_eq}
use agent_server.Text.Laws.{text_eq→eq, text_eq_refl}
use agent_server.Memory.{
  InMemoryMemoryStore, updated_records, keep_last, save_in_scope, save_in_scopes, save_turn,
}
use agent_server.Memory.Scopes.{
  MemoryScope, MemoryRecord, dedupe_onto, dedupe_memory_scopes, memory_scopes, memory_record_scopes,
}

abbrev pub has_key : Text → List MemoryScope → Bool
has_key key scopes = any (λ scope. text_eq key scope.key) scopes

-- No key stands twice.
abbrev pub AreDistinct : List MemoryScope → Type 0
AreDistinct [] = Unit
AreDistinct (scope ∷ scopes) = (has_key scope.key scopes ≡ false) × AreDistinct scopes

-- What was seen stands no more among the scopes that are left.
dedupe-seen :
    (key : Text) (seen : List Text) (scopes : List MemoryScope)
    → any (text_eq key) seen ≡ true
    → has_key key (dedupe_onto seen scopes) ≡ false
unfolding dedupe_onto
dedupe-seen key seen [] h = refl
dedupe-seen key seen (scope ∷ scopes) h = elim (Bool-cases (any (text_eq scope.key) seen)) [
  | inl known ↦ rw known (dedupe-seen key seen scopes h)
  | inr fresh ↦ elim (Bool-cases (text_eq key scope.key)) [
    | inl same ↦ cc (h, fresh, text_eq→eq key scope.key same)
    | inr other ↦ rw (fresh, other) (dedupe-seen key (scope.key ∷ seen) scopes (rw other h))
  ]
]

dedupe-AreDistinct :
    (seen : List Text) (scopes : List MemoryScope) → AreDistinct (dedupe_onto seen scopes)
unfolding dedupe_onto
dedupe-AreDistinct seen [] = tt
dedupe-AreDistinct seen (scope ∷ scopes) = elim (Bool-cases (any (text_eq scope.key) seen)) [
  | inl known ↦ rw known (dedupe-AreDistinct seen scopes)
  | inr fresh ↦ rw fresh (
    dedupe-seen scope.key (scope.key ∷ seen) scopes (rw (text_eq_refl scope.key) refl),
    dedupe-AreDistinct (scope.key ∷ seen) scopes,
  )
]

pub record_scopes-AreDistinct : (r : MemoryRecord) → AreDistinct (memory_record_scopes r)
unfolding memory_record_scopes memory_scopes dedupe_memory_scopes
record_scopes-AreDistinct r = dedupe-AreDistinct [] _

-- The records of a key after a save in some scopes.
save_in_scopes_lem :
    (r : MemoryRecord) (scopes : List MemoryScope) (s : InMemoryMemoryStore) (key : Text)
    → AreDistinct scopes
    → ((save_in_scopes r scopes s).max_turns ≡ s.max_turns)
      × ((save_in_scopes r scopes s).records_by_scope key ≡ (
          if has_key key scopes
          then keep_last s.max_turns (updated_records r (s.records_by_scope key))
          else s.records_by_scope key))
unfolding save_in_scopes save_in_scope
save_in_scopes_lem r [] s key h = (refl, refl)
save_in_scopes_lem r (scope ∷ scopes) s key h =
    let (most, later) = save_in_scopes_lem r scopes (save_in_scope r scope s) key h.1 in
    elim (Bool-cases (text_eq key scope.key)) [
      | inl same ↦
          let e = text_eq→eq key scope.key same in
          let gone : has_key key scopes ≡ false = ap (λ k. has_key k scopes) e ∙ h.0 in
          (
            most,
            later
                ∙ rw (same, gone)
                    (ap (λ k. keep_last s.max_turns (updated_records r (s.records_by_scope k)))
                      (sym e)),
          )
      | inr other ↦ (most, later ∙ rw other refl)
    ]

-- A save changes the records of the keys of its scopes, and of no others: there the record takes the
-- place of the one of the same turn or is appended, and the oldest are dropped beyond the limit.
pub save_turn_lem :
    (r : MemoryRecord) (s : InMemoryMemoryStore) (key : Text)
    → ((save_turn r s).max_turns ≡ s.max_turns)
      × ((save_turn r s).records_by_scope key ≡ (
          if has_key key (memory_record_scopes r)
          then keep_last s.max_turns (updated_records r (s.records_by_scope key))
          else s.records_by_scope key))
unfolding save_turn
save_turn_lem r s key =
    save_in_scopes_lem r (memory_record_scopes r) s key (record_scopes-AreDistinct r)
