-- ===== src/Turn/Stable.antt =====
-- The stable prefix of a preview: `updateStablePrefix` and `longestCommonPrefix` of
-- internal/voice/turn_detector.go.
use agent_server.Prelude.{
  ◌≡◌, ◌⊎◌, refl, inl, inr, Bool, true, false, not, ◌&&◌, ◌||◌, [], ◌∷◌, is_empty, if◌then◌else◌,
  ◌==◌, arith,
}
use agent_server.Text.{Text, text_eq, has_prefix, trim_space}
use agent_server.Text.Laws.{
  IsPrefix, IsPrefix-nil, IsPrefix-refl, has_prefix→IsPrefix, IsPrefix→has_prefix,
}
use agent_server.Text.Trim.{IsTrimmed, trim_space-IsTrimmed, trim_space-IsPrefix}
use agent_server.Lexicon.{analyze_utterance_completeness}

unfoldable pub longest_common_prefix : Text → Text → Text
longest_common_prefix [] b = []
longest_common_prefix (c ∷ a) [] = []
longest_common_prefix (c ∷ a) (d ∷ b) = if c == d then c ∷ longest_common_prefix a b else []

-- The partial came twice in a row. The stable part before an unfinished tail is kept.
unfoldable pub repeated_partial : Text → Text → Text
repeated_partial stable next =
    if not (is_empty stable)
      && has_prefix next stable
      && (analyze_utterance_completeness stable).complete
      && not (analyze_utterance_completeness next).complete
    then stable
    else next

unfoldable pub update_stable_prefix : Text → Text → Text → Bool → Text
update_stable_prefix previous_partial previous_stable next_partial final =
    let next = trim_space next_partial in
    let prev = trim_space previous_partial in
    let stable = trim_space previous_stable in
    let common = trim_space (longest_common_prefix prev next) in
    if is_empty next
    then stable
    else if final
    then next
    else if is_empty prev
    then stable
    else if text_eq prev next
    then repeated_partial stable next
    else if is_empty common
    then stable
    else if is_empty stable || has_prefix common stable
    then common
    else stable

common-left : (a b : Text) → has_prefix a (longest_common_prefix a b) ≡ true
unfolding longest_common_prefix has_prefix
common-left [] b = refl
common-left (c ∷ a) [] = refl
common-left (c ∷ a) (d ∷ b) = ground (arith, common-left a b)

common-right : (a b : Text) → has_prefix b (longest_common_prefix a b) ≡ true
unfolding longest_common_prefix has_prefix
common-right [] [] = refl
common-right [] (d ∷ b) = refl
common-right (c ∷ a) [] = refl
common-right (c ∷ a) (d ∷ b) = ground (arith, common-right a b)

common-greatest :
    (q a b : Text)
    → has_prefix a q ≡ true
    → has_prefix b q ≡ true
    → has_prefix (longest_common_prefix a b) q ≡ true
unfolding longest_common_prefix has_prefix
common-greatest [] [] b h k = refl
common-greatest [] (c ∷ a) [] h k = refl
common-greatest [] (c ∷ a) (d ∷ b) h k = ground arith
common-greatest (e ∷ q) [] b h k = cc
common-greatest (e ∷ q) (c ∷ a) [] h k = cc
common-greatest (e ∷ q) (c ∷ a) (d ∷ b) h k = ground (arith, common-greatest q a b)

-- The longest common prefix begins both texts, and every common prefix begins it.
pub longest_common_prefix_lem :
    (a b : Text)
    → IsPrefix (longest_common_prefix a b) a
      × IsPrefix (longest_common_prefix a b) b
      × ((q : Text) → IsPrefix q a → IsPrefix q b → IsPrefix q (longest_common_prefix a b))
longest_common_prefix_lem a b = (
  has_prefix→IsPrefix a (longest_common_prefix a b) (common-left a b),
  has_prefix→IsPrefix b (longest_common_prefix a b) (common-right a b),
  λ q h k.
      has_prefix→IsPrefix (longest_common_prefix a b) q
        (common-greatest q a b (IsPrefix→has_prefix a q h) (IsPrefix→has_prefix b q k)),
)

-- A text that is empty, or that the test finds at the front of another, begins it.
grows :
    (stable common : Text)
    → (is_empty stable ≡ true) ⊎ (has_prefix common stable ≡ true)
    → IsPrefix stable common
grows [] common h = IsPrefix-nil common
grows (c ∷ s) common (inl e) = cc
grows (c ∷ s) common (inr e) = has_prefix→IsPrefix common (c ∷ s) e

module _ (previous_partial previous_stable next_partial : Text) (final : Bool) where
  abbrev updated : Text
  updated = update_stable_prefix previous_partial previous_stable next_partial final

  abbrev prev : Text
  prev = trim_space previous_partial

  abbrev stable : Text
  stable = trim_space previous_stable

  abbrev next : Text
  next = trim_space next_partial

  abbrev common : Text
  common = trim_space (longest_common_prefix prev next)

  -- The values that the update can have.
  update-cases :
      ((updated ≡ stable) × ((is_empty next ≡ true) ⊎ (final ≡ false)))
      ⊎ ((updated ≡ next) × ((final ≡ true) ⊎ (text_eq prev next ≡ true)))
      ⊎ ((updated ≡ common)
          × (final ≡ false)
          × ((is_empty stable ≡ true) ⊎ (has_prefix common stable ≡ true)))
  unfolding update_stable_prefix repeated_partial
  update-cases = ground arith

  common-IsPrefix : IsPrefix common prev × IsPrefix common next
  common-IsPrefix =
      let (left, right, _) = longest_common_prefix_lem prev next in
      (
        trim_space-IsPrefix (longest_common_prefix prev next) prev
            (trim_space-IsTrimmed previous_partial) left,
        trim_space-IsPrefix (longest_common_prefix prev next) next
            (trim_space-IsTrimmed next_partial) right,
      )

  -- The stable prefix is trimmed, and it is either the one before or begins the new partial.
  pub update-begins_partial : IsTrimmed updated × ((updated ≡ stable) ⊎ IsPrefix updated next)
  update-begins_partial = elim update-cases [
    | inl (e, _) ↦ (rw e (trim_space-IsTrimmed previous_stable), inl e)
    | inr (inl (e, _)) ↦ (rw e (trim_space-IsTrimmed next_partial), inr (rw e (IsPrefix-refl next)))
    | inr (inr (e, _, _)) ↦ (
      rw e (trim_space-IsTrimmed (longest_common_prefix prev next)),
      inr (rw e common-IsPrefix.1),
    )
  ]

  -- While the partials differ and none is final, the stable prefix stays as it was, or becomes text
  -- that both of the last two partials begin with and that goes on from the stable prefix before.
  pub update-agreed :
      final ≡ false
      → text_eq prev next ≡ false
      → (updated ≡ stable)
        ⊎ (IsPrefix updated prev × IsPrefix updated next × IsPrefix stable updated)
  update-agreed live differ = elim update-cases [
    | inl (e, _) ↦ inl e
    | inr (inl (e, inl last)) ↦ cc
    | inr (inl (e, inr same)) ↦ cc
    | inr (inr (e, _, grown)) ↦
        inr (rw e (common-IsPrefix.0, common-IsPrefix.1, grows stable common grown))
  ]

-- A final partial that is not blank becomes the stable prefix.
pub update-final :
    (previous_partial previous_stable next_partial : Text)
    → is_empty (trim_space next_partial) ≡ false
    → update_stable_prefix previous_partial previous_stable next_partial true
      ≡ trim_space next_partial
unfolding update_stable_prefix
update-final previous_partial previous_stable next_partial h = rw h
