-- ===== src/Playback/Boundary.antt =====
-- Which of two recovery points is the later: preferredSoftRecoveryBoundary and the functions that it
-- calls, of internal/voice/session_orchestrator.go.
use agent_server.Prelude.{
  ℕ, ◌≤◌, ◌<◌, ◌≡◌, ◌∙◌, ◌⊎◌, inl, inr, refl, ap, true, false, Bool-cases, [], ◌∷◌, ◌++◌,
  append-nil, is_empty, length, length-append, if-cases, arith,
}
use agent_server.Text.{Text, text_eq, has_prefix, trim_space}
use agent_server.Text.Laws.{
  IsPrefix, has_prefix→IsPrefix, IsPrefix→has_prefix, text_eq→eq, text_eq_refl,
}
use agent_server.Text.Trim.{trim_space-IsTrimmed}
use agent_server.Playback.Heard.{missed_text_for_texts}
use agent_server.Playback.Prefix.{missed-Begins}
use agent_server.Playback.Turn.{
  SoftRecoverySnapshot, usable_soft_recovery_boundary, better_soft_recovery_boundary,
  preferred_soft_recovery_boundary,
}

-- A text that was heard in part: it begins what was delivered, and is neither blank nor all of it.
abbrev pub IsPart : Text → Text → Type 0
IsPart delivered heard =
    (is_empty (trim_space heard) ≡ false)
    × IsPrefix (trim_space heard) (trim_space delivered)
    × (length (trim_space heard) < length (trim_space delivered))

shorter : (h d : Text) → IsPrefix h d → text_eq h d ≡ false → length h < length d
shorter h d (rest, e) other = elim rest_cases [
  | inl none ↦ absurd_eq (e ∙ ap (λ t. h ++ t) none ∙ append-nil h)
  | inr some_more ↦ rw (ap length e ∙ length-append h rest) (omega (arith, some_more))
]
  where
    rest_cases : (rest ≡ []) ⊎ (0 < length rest)
    rest_cases = of_list rest
      where
        of_list : (t : Text) → (t ≡ []) ⊎ (0 < length t)
        of_list [] = inl refl
        of_list (c ∷ t) = inr (omega arith)

    absurd_eq : d ≡ h → length h < length d
    absurd_eq same = ground (arith, text_eq_refl h)

pub nonempty_of : (n : ℕ) (t : Text) → n < length t → is_empty t ≡ false
nonempty_of n [] h = ground arith
nonempty_of n (c ∷ t) h = refl

not_whole : (h d : Text) → length h < length d → text_eq h d ≡ false
not_whole h d less = elim (Bool-cases (text_eq h d)) [
  | inl same ↦ let e : length h ≡ length d = ap length (text_eq→eq h d same) in ground arith
  | inr other ↦ other
]

usable-IsPart :
    (delivered heard : Text)
    → usable_soft_recovery_boundary delivered heard ≡ true
    → IsPart delivered heard
unfolding usable_soft_recovery_boundary
usable-IsPart delivered heard h =
    let h' = trim_space heard in
    let d = trim_space delivered in
    let (named, begins, other) : (is_empty h' ≡ false)
        × (has_prefix d h' ≡ true)
        × (text_eq h' d ≡ false) =
      ground (arith, h) in
    let prefix = has_prefix→IsPrefix d h' begins in (named, prefix, shorter h' d prefix other)

IsPart-usable :
    (delivered heard : Text)
    → IsPart delivered heard
    → usable_soft_recovery_boundary delivered heard ≡ true
unfolding usable_soft_recovery_boundary
IsPart-usable delivered heard (named, begins, less) =
    let h' = trim_space heard in
    let d = trim_space delivered in
    rw (named, nonempty_of (length h') d less, IsPrefix→has_prefix d h' begins, not_whole h' d less)
      refl

pub missed-length :
    (delivered heard : Text)
    → is_empty (missed_text_for_texts delivered heard) ≡ false
    → length (trim_space heard) < length (trim_space delivered)
unfolding missed_text_for_texts
missed-length delivered heard h = ground (arith, h)

-- Where a text is missed, the heard text begins the delivered one and is not all of it.
missed-shorter :
    (delivered heard : Text)
    → is_empty (missed_text_for_texts (trim_space delivered) heard) ≡ false
    → IsPrefix (trim_space heard) (trim_space delivered)
      × (length (trim_space heard) < length (trim_space delivered))
missed-shorter delivered heard h = (
  rw (trim_space-IsTrimmed delivered) at (missed-Begins (trim_space delivered) heard h),
  rw (trim_space-IsTrimmed delivered) at (missed-length (trim_space delivered) heard h),
)

-- The text that is heard up to the later of two points, of which some text is missed behind the first:
-- it begins what was delivered and is not all of it; it is the text of one of the two points, and
-- none of the two is longer, of the second if it is a part of what was delivered.
pub record IsLater (delivered first second heard : Text) : Type 0 where
  pub one_of : (heard ≡ trim_space first) ⊎ (heard ≡ trim_space second)
  pub not_before_first : length (trim_space first) ≤ length heard
  pub not_before_second : (¬ IsPart delivered second) ⊎ (length (trim_space second) ≤ length heard)
  pub begins : IsPrefix heard (trim_space delivered)
  pub not_all : length heard < length (trim_space delivered)

length-blank : (t : Text) (n : ℕ) → is_empty t ≡ true → length t ≤ n
length-blank [] n h = omega arith
length-blank (c ∷ t) n h = cc

-- Of what the test of the two points looks at, where it says yes, and where it says no.
better-longer :
    (delivered : Text) (s c : SoftRecoverySnapshot)
    → IsPrefix (trim_space s.heard_text) (trim_space delivered)
    → length (trim_space s.heard_text) < length (trim_space delivered)
    → better_soft_recovery_boundary delivered s c ≡ true
    → IsPart delivered c.heard_text
      × (length (trim_space s.heard_text) ≤ length (trim_space c.heard_text))
unfolding better_soft_recovery_boundary
better-longer delivered s c begins less h =
    let usable : usable_soft_recovery_boundary delivered c.heard_text ≡ true = ground (arith, h) in
    let longer : length (trim_space s.heard_text) ≤ length (trim_space c.heard_text) =
      elim (Bool-cases (is_empty (trim_space s.heard_text))) [
        | inl blank ↦
            length-blank (trim_space s.heard_text) (length (trim_space c.heard_text)) blank
        | inr named ↦
            let mine = IsPart-usable delivered s.heard_text (named, begins, less) in
            ground (arith, h)
      ] in
    (usable-IsPart delivered c.heard_text usable, longer)

worse-shorter :
    (delivered : Text) (s c : SoftRecoverySnapshot)
    → better_soft_recovery_boundary delivered s c ≡ false
    → (¬ IsPart delivered c.heard_text)
      ⊎ (length (trim_space c.heard_text) ≤ length (trim_space s.heard_text))
unfolding better_soft_recovery_boundary
worse-shorter delivered s c h =
    elim (Bool-cases (usable_soft_recovery_boundary delivered c.heard_text)) [
      | inl usable ↦ inr (ground (arith, h))
      | inr useless ↦
          inl (λ part. let yes = IsPart-usable delivered c.heard_text part in ground arith)
    ]

pub preferred-IsLater :
    (delivered : Text) (s c : SoftRecoverySnapshot)
    → is_empty (missed_text_for_texts (trim_space delivered) s.heard_text) ≡ false
    → IsLater delivered s.heard_text c.heard_text
        (trim_space (preferred_soft_recovery_boundary delivered s c).heard_text)
unfolding preferred_soft_recovery_boundary
preferred-IsLater delivered s c missed =
    let (begins, less) = missed-shorter delivered s.heard_text missed in
    if-cases {A = SoftRecoverySnapshot}
      (λ r. IsLater delivered s.heard_text c.heard_text (trim_space r.heard_text))
      (better_soft_recovery_boundary delivered s c) c s
      (λ yes.
        let (part, longer) = better-longer delivered s c begins less yes in
        record {
          one_of = inr refl;
          not_before_first = longer;
          not_before_second = inr (omega arith);
          begins = part.1;
          not_all = part.2;
        })
      (λ never. record {
        one_of = inl refl;
        not_before_first = omega arith;
        not_before_second = worse-shorter delivered s c never;
        begins = begins;
        not_all = less;
      })

-- Blanks around the second text do not matter.
pub trimmed-IsLater :
    (delivered first second heard : Text)
    → IsLater delivered first (trim_space second) heard
    → IsLater delivered first second heard
trimmed-IsLater delivered first second heard l = record {
  one_of = rw (trim_space-IsTrimmed second) at l.one_of;
  not_before_first = l.not_before_first;
  not_before_second = rw (trim_space-IsTrimmed second) at l.not_before_second;
  begins = l.begins;
  not_all = l.not_all;
}
