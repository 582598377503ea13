-- ===== src/Memory/Records.antt =====
-- The records of one key in internal/agent/runtime_backends.go: their turns, and what a new record
-- does to them.
use agent_server.Prelude.{
  ℕ, zero, suc, ◌+◌, ◌-◌, ◌≤◌, ◌≡◌, ◌⊎◌, inl, inr, refl, sym, ap, ◌∙◌, true, false, Bool-cases,
  List, [], ◌∷◌, ◌++◌, map, All, All-append, if◌then◌else◌, is_empty, length, length-append, Option,
  none, some, Option-cases, arith, ℤ, pos, pos_part, ltb_ℤ, ◌≤ℤ◌, drop,
}
use agent_server.Text.{Text, text_eq}
use agent_server.Text.Laws.{text_eq→eq, text_eq_refl}
use agent_server.Memory.{replace_turn, put_before, updated_records, keep_last}
use agent_server.Memory.Scopes.{MemoryRecord}

abbrev pub turn_ids : List MemoryRecord → List Text
turn_ids records = map (λ (r : MemoryRecord). r.turn_id) records

-- A turn that has an identifier stands once.
abbrev pub AreOnce : List Text → Type 0
AreOnce [] = Unit
AreOnce (i ∷ ids) = ((is_empty i ≡ true) ⊎ All (λ j. text_eq i j ≡ false) ids) × AreOnce ids

blank_apart :
    (i : Text) (ids : List Text) (id : Text)
    → All (λ j. text_eq i j ≡ false) ids
    → is_empty id ≡ true
    → (is_empty i ≡ true) ⊎ All (λ j. text_eq i j ≡ false) (ids ++ id ∷ [])
unfolding text_eq
blank_apart [] ids id others blank = inl refl
blank_apart (c ∷ i) ids [] others blank =
    inr (All-append (λ j. text_eq (c ∷ i) j ≡ false) ids ([] ∷ []) others (refl, tt))
blank_apart (c ∷ i) ids (d ∷ id) others blank = cc

pub AreOnce-append :
    (ids : List Text) (id : Text)
    → AreOnce ids
    → ((is_empty id ≡ true) ⊎ All (λ j. text_eq j id ≡ false) ids)
    → AreOnce (ids ++ id ∷ [])
AreOnce-append [] id h k = (inr tt, tt)
AreOnce-append (i ∷ ids) id h (inr apart) = (
  elim h.0 [
    | inl blank ↦ inl blank
    | inr others ↦ inr (All-append (λ j. text_eq i j ≡ false) ids (id ∷ []) others (apart.0, tt))
  ],
  AreOnce-append ids id h.1 (inr apart.1),
)
AreOnce-append (i ∷ ids) id h (inl blank) = (
  elim h.0 [ inl first ↦ inl first | inr others ↦ blank_apart i ids id others blank ],
  AreOnce-append ids id h.1 (inl blank),
)

pub AreOnce-drop :
    (n : ℕ) (records : List MemoryRecord)
    → AreOnce (turn_ids records)
    → AreOnce (turn_ids (drop n records))
AreOnce-drop zero records h = h
AreOnce-drop (suc n) [] h = h
AreOnce-drop (suc n) (r ∷ records) h = AreOnce-drop n records h.1

pub All-drop {ℓ} :
    (P : MemoryRecord → Type ℓ) (n : ℕ) (records : List MemoryRecord)
    → All P records
    → All P (drop n records)
All-drop P zero records h = h
All-drop P (suc n) [] h = h
All-drop P (suc n) (r ∷ records) h = All-drop P n records h.1

pub length-drop :
    (n : ℕ) (records : List MemoryRecord) → length (drop n records) ≡ length records - n
length-drop zero records = omega arith
length-drop (suc n) [] = omega arith
length-drop (suc n) (r ∷ records) = omega (arith, length-drop n records)

-- The record of a turn.
abbrev pub find_turn : Text → List MemoryRecord → Option MemoryRecord
find_turn id [] = none
find_turn id (r ∷ records) = if text_eq r.turn_id id then some r else find_turn id records

-- What replacing makes of the records: the turns stay, and the new record stands for its turn.
pub record IsReplaced (r : MemoryRecord) (existing updated : List MemoryRecord) : Type 0 where
  pub same_turns : turn_ids updated ≡ turn_ids existing
  pub same_length : length updated ≡ length existing
  pub found : find_turn r.turn_id updated ≡ some r

-- Whether a record of the turn is there, with what replacing gives.
abbrev pub Replacing : MemoryRecord → List MemoryRecord → Option (List MemoryRecord) → Type 0
Replacing r existing none = All (λ j. text_eq j r.turn_id ≡ false) (turn_ids existing)
Replacing r existing (some updated) = IsReplaced r existing updated

Replacing-cons :
    (r e : MemoryRecord) (existing : List MemoryRecord) (o : Option (List MemoryRecord))
    → text_eq e.turn_id r.turn_id ≡ false
    → Replacing r existing o
    → Replacing r (e ∷ existing) (put_before e o)
Replacing-cons r e existing none other h = (other, h)
Replacing-cons r e existing (some updated) other h = record {
  same_turns = ap (λ ids. e.turn_id ∷ ids) h.same_turns;
  same_length = omega (arith, h.same_length);
  found = rw other h.found;
}

pub replace_turn_lem :
    (r : MemoryRecord) (existing : List MemoryRecord)
    → Replacing r existing (replace_turn r existing)
unfolding replace_turn
replace_turn_lem r [] = tt
replace_turn_lem r (e ∷ existing) = elim (Bool-cases (text_eq e.turn_id r.turn_id)) [
  | inl same ↦ rw same (record {
    same_turns = ap (λ i. i ∷ turn_ids existing) (sym (text_eq→eq e.turn_id r.turn_id same));
    same_length = refl;
    found = rw (text_eq_refl r.turn_id) refl;
  })
  | inr other ↦
      rw other
        (Replacing-cons r e existing (replace_turn r existing) other (replace_turn_lem r existing))
]

-- Replacing once more gives what replacing by the last record gives.
abbrev Again : MemoryRecord → List MemoryRecord → Option (List MemoryRecord) → Type 0
Again r' existing none = replace_turn r' existing ≡ none
Again r' existing (some updated) =
    (last : List MemoryRecord) × (replace_turn r' updated ≡ some last)
    × (replace_turn r' existing ≡ some last)

Again-cons :
    (r' x : MemoryRecord) (existing : List MemoryRecord) (o : Option (List MemoryRecord))
    → text_eq x.turn_id r'.turn_id ≡ false
    → Again r' existing o
    → Again r' (x ∷ existing) (put_before x o)
unfolding replace_turn
Again-cons r' x existing none other h = rw (other, h) refl
Again-cons r' x existing (some updated) other (last, a, b) =
    (x ∷ last, rw (other, a) refl, rw (other, b) refl)

replace-Again :
    (r r' : MemoryRecord) (existing : List MemoryRecord)
    → r.turn_id ≡ r'.turn_id
    → Again r' existing (replace_turn r existing)
unfolding replace_turn
replace-Again r r' [] e = refl
replace-Again r r' (x ∷ existing) e = elim (Bool-cases (text_eq x.turn_id r.turn_id)) [
  | inl same ↦
      let this : text_eq r.turn_id r'.turn_id ≡ true =
        ap (λ i. text_eq i r'.turn_id) e ∙ text_eq_refl r'.turn_id in
      let that : text_eq x.turn_id r'.turn_id ≡ true =
        ap (λ i. text_eq i r'.turn_id) (text_eq→eq x.turn_id r.turn_id same) ∙ this in
      rw same (r' ∷ existing, rw this refl, rw that refl)
  | inr other ↦ rw other (
      Again-cons r' x existing (replace_turn r existing)
        (ap (λ i. text_eq x.turn_id i) (sym e) ∙ other) (replace-Again r r' existing e))
]

-- Where no record is of the turn, one behind them is replaced.
replace_last :
    (r r' : MemoryRecord) (existing : List MemoryRecord)
    → r.turn_id ≡ r'.turn_id
    → All (λ j. text_eq j r'.turn_id ≡ false) (turn_ids existing)
    → replace_turn r' (existing ++ r ∷ []) ≡ some (existing ++ r' ∷ [])
unfolding replace_turn
replace_last r r' [] e h = rw (ap (λ i. text_eq i r'.turn_id) e ∙ text_eq_refl r'.turn_id) refl
replace_last r r' (x ∷ existing) e h = rw (h.0, replace_last r r' existing e h.1) refl

drop-append_last :
    (n : ℕ) (records : List MemoryRecord) (r : MemoryRecord)
    → n ≤ length records
    → drop n (records ++ r ∷ []) ≡ drop n records ++ r ∷ []
drop-append_last zero records r h = refl
drop-append_last (suc n) [] r h = absurd (omega arith)
drop-append_last (suc n) (x ∷ records) r h = drop-append_last n records r (omega arith)

pub keep_last_all :
    (most : ℤ) (records : List MemoryRecord)
    → pos (length records) ≤ℤ most
    → keep_last most records ≡ records
unfolding keep_last
keep_last_all most records h = ground arith

-- Of records within the limit and one more, the last stays.
pub keep_last-append :
    (most : ℤ) (records : List MemoryRecord) (r : MemoryRecord)
    → pos 1 ≤ℤ most
    → pos (length records) ≤ℤ most
    → keep_last most (records ++ r ∷ [])
      ≡ drop (length records + 1 - pos_part most) records ++ r ∷ []
unfolding keep_last
keep_last-append most records r h k =
    elim (Bool-cases (ltb_ℤ most (pos (length (records ++ r ∷ []))))) [
      | inl more ↦
          rw (more, length-append records (r ∷ []))
            (drop-append_last (length records + 1 - pos_part most) records r (omega arith))
      | inr fits ↦ rw fits (none_dropped (length records + 1 - pos_part most) (few fits))
    ]
  where
    none_dropped : (n : ℕ) → n ≡ 0 → records ++ r ∷ [] ≡ drop n records ++ r ∷ []
    none_dropped n e = rw e refl

    few :
        ltb_ℤ most (pos (length (records ++ r ∷ []))) ≡ false
        → length records + 1 - pos_part most ≡ 0
    few fits = ground (arith, length-append records (r ∷ []))

abbrev pub kept_update : ℤ → MemoryRecord → List MemoryRecord → List MemoryRecord
kept_update most r existing = keep_last most (updated_records r existing)

pub kept_replaced :
    (most : ℤ) (r : MemoryRecord) (existing updated : List MemoryRecord)
    → is_empty r.turn_id ≡ false
    → replace_turn r existing ≡ some updated
    → kept_update most r existing ≡ keep_last most updated
unfolding updated_records
kept_replaced most r existing updated named e = rw (named, e) refl

pub kept_appended :
    (most : ℤ) (r : MemoryRecord) (existing : List MemoryRecord)
    → pos 1 ≤ℤ most
    → pos (length existing) ≤ℤ most
    → is_empty r.turn_id ≡ false
    → replace_turn r existing ≡ none
    → kept_update most r existing ≡ drop (length existing + 1 - pos_part most) existing ++ r ∷ []
unfolding updated_records
kept_appended most r existing h k named e = rw (named, e) (keep_last-append most existing r h k)

turn_ids-drop {ℓ} :
    (Q : Text → Type ℓ) (n : ℕ) (records : List MemoryRecord)
    → All Q (turn_ids records)
    → All Q (turn_ids (drop n records))
turn_ids-drop Q zero records h = h
turn_ids-drop Q (suc n) [] h = h
turn_ids-drop Q (suc n) (r ∷ records) h = turn_ids-drop Q n records h.1

-- The later of two records of a turn is what stays.
pub update_again :
    (most : ℤ) (r r' : MemoryRecord) (existing : List MemoryRecord)
    → pos 1 ≤ℤ most
    → pos (length existing) ≤ℤ most
    → r.turn_id ≡ r'.turn_id
    → is_empty r'.turn_id ≡ false
    → kept_update most r' (kept_update most r existing) ≡ kept_update most r' existing
update_again most r r' existing h k e named =
    let named_first : is_empty r.turn_id ≡ false = ap is_empty e ∙ named in
    elim (Option-cases (replace_turn r existing)) [
      | inl missing ↦
          let n = length existing + 1 - pos_part most in
          let again : replace_turn r' existing ≡ none =
            rw missing at (replace-Again r r' existing e) in
          let apart : All (λ j. text_eq j r'.turn_id ≡ false) (turn_ids existing) =
            rw again at (replace_turn_lem r' existing) in
          let replaced : replace_turn r' (drop n existing ++ r ∷ [])
              ≡ some (drop n existing ++ r' ∷ []) =
            replace_last r r' (drop n existing) e
              (turn_ids-drop (λ j. text_eq j r'.turn_id ≡ false) n existing apart) in
          ap (kept_update most r') (kept_appended most r existing h k named_first missing)
          ∙ kept_replaced most r' (drop n existing ++ r ∷ []) (drop n existing ++ r' ∷ []) named
              replaced
          ∙ keep_last_all most (drop n existing ++ r' ∷ []) (fits n refl)
          ∙ sym (kept_appended most r' existing h k named again)
      | inr (updated, found) ↦
          let (last, a, b) : Again r' existing (some updated) =
            rw found at (replace-Again r r' existing e) in
          let same : length updated ≡ length existing =
            (let whole : IsReplaced r existing updated =
                rw found at (replace_turn_lem r existing) in
              whole.same_length) in
          ap (kept_update most r') (
            kept_replaced most r existing updated named_first found
            ∙ keep_last_all most updated (omega arith))
          ∙ kept_replaced most r' updated last named a
          ∙ sym (kept_replaced most r' existing last named b)
    ]
  where
    fits :
        (n : ℕ)
        → n ≡ length existing + 1 - pos_part most
        → pos (length (drop n existing ++ r' ∷ [])) ≤ℤ most
    fits n same = ground (arith, length-append (drop n existing) (r' ∷ []), length-drop n existing)
