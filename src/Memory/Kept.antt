-- ===== src/Memory/Kept.antt =====
-- What holds of the records of one key through every save, in internal/agent/runtime_backends.go.
use agent_server.Prelude.{
  ℕ, zero, suc, ◌+◌, ◌-◌, ◌≡◌, inl, inr, refl, ap, false, Bool-cases, List, [], ◌∷◌, ◌++◌, All,
  All-append, if◌then◌else◌, if-cases, is_empty, length, Option, none, some, Option-cases, arith, ℤ,
  pos, pos_part, ltb_ℤ, ◌≤ℤ◌, drop,
}
use agent_server.Text.{text_eq}
use agent_server.Text.Laws.{text_eq_refl}
use agent_server.Memory.Records.{
  turn_ids, AreOnce, AreOnce-append, AreOnce-drop, All-drop, length-drop, find_turn, IsReplaced,
  replace_turn_lem, keep_last_all, kept_update, kept_replaced, kept_appended,
}
use agent_server.Memory.{replace_turn, put_before, or_appended, updated_records, keep_last}
use agent_server.Memory.Scopes.{MemoryRecord}

keep_last-length :
    (most : ℤ) (records : List MemoryRecord)
    → pos 1 ≤ℤ most
    → pos (length (keep_last most records)) ≤ℤ most
unfolding keep_last
keep_last-length most records h =
    ground (arith, length-drop (length records - pos_part most) records)

find_turn_last :
    (n : ℕ) (r : MemoryRecord) (existing : List MemoryRecord)
    → All (λ j. text_eq j r.turn_id ≡ false) (turn_ids existing)
    → find_turn r.turn_id (drop n existing ++ r ∷ []) ≡ some r
find_turn_last zero r [] h = rw (text_eq_refl r.turn_id) refl
find_turn_last (suc n) r [] h = rw (text_eq_refl r.turn_id) refl
find_turn_last zero r (x ∷ existing) h = rw h.0 (find_turn_last zero r existing h.1)
find_turn_last (suc n) r (x ∷ existing) h = find_turn_last n r existing h.1

pub kept_update-length :
    (most : ℤ) (r : MemoryRecord) (existing : List MemoryRecord)
    → pos 1 ≤ℤ most
    → pos (length (kept_update most r existing)) ≤ℤ most
kept_update-length most r existing h = keep_last-length most (updated_records r existing) h

keep_last-AreOnce :
    (most : ℤ) (records : List MemoryRecord)
    → AreOnce (turn_ids records)
    → AreOnce (turn_ids (keep_last most records))
unfolding keep_last
keep_last-AreOnce most records h =
    if-cases (λ l. AreOnce (turn_ids l)) (ltb_ℤ most (pos (length records)))
      (drop (length records - pos_part most) records) records
      (λ _. AreOnce-drop (length records - pos_part most) records h) (λ _. h)

turn_ids-append :
    (records : List MemoryRecord) (r : MemoryRecord)
    → turn_ids (records ++ r ∷ []) ≡ turn_ids records ++ r.turn_id ∷ []
turn_ids-append [] r = refl
turn_ids-append (x ∷ records) r = ap (λ ids. x.turn_id ∷ ids) (turn_ids-append records r)

updated-AreOnce :
    (r : MemoryRecord) (existing : List MemoryRecord)
    → AreOnce (turn_ids existing)
    → AreOnce (turn_ids (updated_records r existing))
unfolding updated_records
updated-AreOnce r existing h = elim (Bool-cases (is_empty r.turn_id)) [
  | inl blank ↦
      rw (blank, turn_ids-append existing r)
        (AreOnce-append (turn_ids existing) r.turn_id h (inl blank))
  | inr named ↦ elim (Option-cases (replace_turn r existing)) [
    | inl missing ↦
        rw (named, missing, turn_ids-append existing r)
          (AreOnce-append (turn_ids existing) r.turn_id h
            (inr (rw missing at (replace_turn_lem r existing))))
    | inr (updated, found) ↦
        let whole : IsReplaced r existing updated = rw found at (replace_turn_lem r existing) in
        rw (named, found, whole.same_turns) h
  ]
]

pub kept_update-AreOnce :
    (most : ℤ) (r : MemoryRecord) (existing : List MemoryRecord)
    → AreOnce (turn_ids existing)
    → AreOnce (turn_ids (kept_update most r existing))
kept_update-AreOnce most r existing h =
    keep_last-AreOnce most (updated_records r existing) (updated-AreOnce r existing h)

-- Whatever holds of all records and of the new one.
abbrev AllOf : (MemoryRecord → Type 0) → Option (List MemoryRecord) → Type 0
AllOf P none = Unit
AllOf P (some records) = All P records

put_before-AllOf :
    (P : MemoryRecord → Type 0) (x : MemoryRecord) (o : Option (List MemoryRecord))
    → P x
    → AllOf P o
    → AllOf P (put_before x o)
put_before-AllOf P x none h all = tt
put_before-AllOf P x (some later) h all = (h, all)

replace_turn-AllOf :
    (P : MemoryRecord → Type 0) (r : MemoryRecord) (existing : List MemoryRecord)
    → P r
    → All P existing
    → AllOf P (replace_turn r existing)
unfolding replace_turn
replace_turn-AllOf P r [] h all = tt
replace_turn-AllOf P r (x ∷ existing) h all = elim (Bool-cases (text_eq x.turn_id r.turn_id)) [
  | inl same ↦ rw same (h, all.1)
  | inr other ↦ rw other (
      put_before-AllOf P x (replace_turn r existing) all.0
        (replace_turn-AllOf P r existing h all.1))
]

or_appended-All :
    (P : MemoryRecord → Type 0) (r : MemoryRecord) (existing : List MemoryRecord)
    (o : Option (List MemoryRecord))
    → P r
    → All P existing
    → AllOf P o
    → All P (or_appended r existing o)
or_appended-All P r existing none h all new = All-append P existing (r ∷ []) all (h, tt)
or_appended-All P r existing (some updated) h all new = new

pub kept_update-All :
    (P : MemoryRecord → Type 0) (most : ℤ) (r : MemoryRecord) (existing : List MemoryRecord)
    → P r
    → All P existing
    → All P (kept_update most r existing)
unfolding keep_last updated_records
kept_update-All P most r existing h all =
    let found = if is_empty r.turn_id then none else replace_turn r existing in
    let records = or_appended r existing found in
    let each : All P records = or_appended-All P r existing found h all (
      if-cases (AllOf P) (is_empty r.turn_id) none (replace_turn r existing) (λ _. tt)
        (λ _. replace_turn-AllOf P r existing h all)) in
    if-cases (All P) (ltb_ℤ most (pos (length records)))
      (drop (length records - pos_part most) records) records
      (λ _. All-drop P (length records - pos_part most) records each) (λ _. each)

-- The record of a turn is the one that was saved last.
pub kept_update_found :
    (most : ℤ) (r : MemoryRecord) (existing : List MemoryRecord)
    → pos 1 ≤ℤ most
    → pos (length existing) ≤ℤ most
    → is_empty r.turn_id ≡ false
    → find_turn r.turn_id (kept_update most r existing) ≡ some r
kept_update_found most r existing h k named = elim (Option-cases (replace_turn r existing)) [
  | inl missing ↦ rw (kept_appended most r existing h k named missing) (
      find_turn_last (length existing + 1 - pos_part most) r existing
        (rw missing at (replace_turn_lem r existing)))
  | inr (updated, found) ↦
      let whole : IsReplaced r existing updated = rw found at (replace_turn_lem r existing) in
      rw
        (
          kept_replaced most r existing updated named found,
          keep_last_all most updated (rw whole.same_length k),
        )
        whole.found
]
