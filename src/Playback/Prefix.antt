-- ===== src/Playback/Prefix.antt =====
-- What was heard begins what was delivered: the text functions of
-- internal/voice/session_orchestrator.go.
use agent_server.Prelude.{
  ◌≤◌, ◌≡◌, ◌≢◌, refl, sym, ap, ◌∙◌, inl, inr, Bool, true, false, not, ◌||◌, [], ◌∷◌, ◌++◌,
  is_empty, length, length-append, take, drop, take-append, drop-append, if◌then◌else◌, Bool-cases,
  pos, leb_ℤ, arith,
}
use agent_server.Clock.{Duration}
use agent_server.Text.{Text, trim_space}
use agent_server.Text.Laws.{
  IsPrefix, IsPrefix-nil, IsPrefix-refl, IsPrefix-take, text_eq→eq, text_eq_refl, text_eq_iff,
  has_prefix→IsPrefix,
}
use agent_server.Text.Trim.{trim_space-IsTrimmed, trim_space-IsPrefix, trim_space-nil}
use agent_server.Floats.{Floats}
use agent_server.Playback.Policy.{HeardTextBoundary}
use agent_server.Playback.Heard.{
  heard_text_for_playback, has_exact_heard_text_prefix, heard_text_boundary_for_texts,
  missed_text_for_texts,
}

-- The heard part of a text, as the texts of an outcome are compared: both trimmed.
abbrev pub Begins : Text → Text → Type 0
Begins heard delivered = IsPrefix (trim_space heard) (trim_space delivered)

if-IsPrefix :
    (test : Bool) {s : Text} (a b : Text)
    → IsPrefix a s
    → IsPrefix b s
    → IsPrefix (if test then a else b) s
if-IsPrefix true a b ha hb = ha
if-IsPrefix false a b ha hb = hb

-- However much was played of however much was planned, and whatever the rounding of the ratio, the
-- heard text begins the delivered text, trimmed.
pub heard-IsPrefix :
    (F : Floats) (text : Text) (played planned : Duration)
    → IsPrefix (heard_text_for_playback F text played planned) (trim_space text)
unfolding heard_text_for_playback
heard-IsPrefix F text played planned =
    if-IsPrefix (is_empty t || leb_ℤ played (pos 0)) _ _ (IsPrefix-nil t) (
      if-IsPrefix (not (leb_ℤ planned (pos 0))) _ _
        (if-IsPrefix (F.ge ratio (F.hundredths 100)) _ _ (IsPrefix-refl t) (IsPrefix-take _ t))
        (IsPrefix-take _ t))
  where
    t : Text
    t = trim_space text

    ratio : F.Float
    ratio = F.div (F.of_int played) (F.of_int planned)

pub IsPrefix-Begins :
    (heard delivered : Text) → IsPrefix heard (trim_space delivered) → Begins heard delivered
IsPrefix-Begins heard delivered h =
    trim_space-IsPrefix heard (trim_space delivered) (trim_space-IsTrimmed delivered) h

pub exact-Begins :
    (delivered heard : Text)
    → has_exact_heard_text_prefix delivered heard ≡ true
    → Begins heard delivered
unfolding has_exact_heard_text_prefix
exact-Begins delivered heard h =
    has_prefix→IsPrefix (trim_space delivered) (trim_space heard) (ground (arith, h))

take-of_prefix : (q s : Text) → IsPrefix q s → take (length q) s ≡ q
take-of_prefix q s (rest, e) = rw e (take-append q rest)

drop-of_length : (q s : Text) → IsPrefix q s → length s ≤ length q → drop (length q) s ≡ []
drop-of_length q s (rest, e) h = rw e (drop-append q rest ∙ nothing_left rest (ap length e))
  where
    nothing_left : (r : Text) → length s ≡ length (q ++ r) → r ≡ []
    nothing_left [] k = refl
    nothing_left (c ∷ r) k = absurd (omega (arith, length-append q (c ∷ r)))

length-of_empty : (t : Text) → is_empty t ≡ true → length t ≡ 0
length-of_empty [] e = refl
length-of_empty (c ∷ t) e = cc

nil-of_empty : (t : Text) → is_empty t ≡ true → t ≡ []
nil-of_empty [] e = refl
nil-of_empty (c ∷ t) e = cc

nothing_missed :
    (q s : Text) → IsPrefix q s → length s ≤ length q → trim_space (drop (length q) s) ≡ []
nothing_missed q s p h = rw (drop-of_length q s p h) trim_space-nil

all_missed :
    (q s : Text) → is_empty q ≡ true → trim_space s ≡ s → trim_space (drop (length q) s) ≡ s
all_missed [] s e t = t
all_missed (c ∷ q) s e t = cc

-- Where the heard text begins the delivered one, the missed text is all that follows it, trimmed.
pub missed-eq-rest :
    (delivered heard : Text)
    → Begins heard delivered
    → missed_text_for_texts delivered heard
      ≡ trim_space (drop (length (trim_space heard)) (trim_space delivered))
unfolding missed_text_for_texts
missed-eq-rest delivered heard h = ground (
  arith,
  nothing_missed q s h,
  length-of_empty s,
  take-of_prefix q s h,
  text_eq_refl q,
  all_missed q s,
  trim_space-IsTrimmed delivered,
)
  where
    q : Text
    q = trim_space heard

    s : Text
    s = trim_space delivered

-- And where a text is missed, the heard text begins the delivered one.
pub missed-Begins :
    (delivered heard : Text)
    → is_empty (missed_text_for_texts delivered heard) ≡ false
    → Begins heard delivered
unfolding missed_text_for_texts
missed-Begins delivered heard h = elim (Bool-cases (is_empty (trim_space heard))) [
  | inl e ↦ (trim_space delivered, rw (nil-of_empty (trim_space heard) e) refl)
  | inr e ↦
      rw
        (sym (
          text_eq→eq (take (length (trim_space heard)) (trim_space delivered)) (trim_space heard)
            (ground (arith, h, e))))
        (IsPrefix-take _ _)
]

-- Where the heard text begins the delivered one, the boundary is `none_heard` exactly if nothing was
-- heard, `full` only if all that was delivered was heard, and `prefix` only if something was heard
-- and not all (blanks at the ends aside).
pub boundary_lem :
    (delivered heard : Text)
    → Begins heard delivered
    → let b = heard_text_boundary_for_texts delivered heard in
      ((trim_space heard ≡ []) → (b ≡ HeardTextBoundary.none_heard))
      × ((b ≡ HeardTextBoundary.none_heard) → (trim_space heard ≡ []))
      × ((b ≡ HeardTextBoundary.full) → (trim_space heard ≡ trim_space delivered))
      × ((b ≡ HeardTextBoundary.prefix)
          → (trim_space heard ≢ []) × (trim_space heard ≢ trim_space delivered))
unfolding heard_text_boundary_for_texts
boundary_lem delivered heard h =
    ground (
      arith,
      text_eq_iff (trim_space heard) (trim_space delivered),
      text_eq_refl (trim_space heard),
    )
