-- ===== src/Speech/Tail.antt =====
-- What is left of a final text behind its deltas: plannerRemainingTail in
-- internal/voice/speech_planner.go.
use agent_server.Prelude.{
  Bool, ◌&&◌, ℕ, ◌+◌, ◌≡◌, refl, sym, ap, ◌∙◌, true, false, Bool-cases, inl, inr, List, [], ◌∷◌,
  ◌++◌, append-nil, length, is_empty, concat, map, drop-append, ◌==◌, ==_refl, ==_iff, arith,
}
use agent_server.Text.{Text, is_space, trim_space, trim_left, trim_right}
use agent_server.Speech.{common_length, planner_remaining_tail}
use agent_server.Speech.Segment.{solid, solid-append, blank_solid, is_empty-trim_space}
use agent_server.Speech.Advance.{is_blank}
use agent_server.Speech.Reply.{noted}

common_length-append :
    (observed a b : Text)
    → common_length (observed ++ a) (observed ++ b) ≡ length observed + common_length a b
unfolding common_length
common_length-append [] a b = omega arith
common_length-append (c ∷ observed) a b =
    rw (==_refl c) (omega (arith, common_length-append observed a b))

common_length-nil : (a : Text) → common_length [] a ≡ 0
unfolding common_length
common_length-nil a = refl

nil_right : (a b : Text) → a ++ b ≡ [] → b ≡ []
nil_right [] b e = e
nil_right (c ∷ a) b e = cc

-- The tail behind what both texts begin with, where the final text goes on otherwise.
pub tail_of :
    (observed a b : Text)
    → is_blank (observed ++ b) ≡ false
    → is_empty (observed ++ a) ≡ false
    → common_length a b ≡ 0
    → planner_remaining_tail (observed ++ a) (observed ++ b) ≡ b
unfolding planner_remaining_tail
tail_of observed a b k h e =
    let n : common_length (observed ++ a) (observed ++ b) ≡ length observed =
      omega (arith, common_length-append observed a b) in
    rw (k, h, n) (drop-append observed b)

-- The tail of a final text that continues what was observed.
pub tail_of_more :
    (observed more : Text) → solid (planner_remaining_tail observed (observed ++ more)) ≡ solid more
unfolding planner_remaining_tail
tail_of_more [] more = elim (Bool-cases (is_blank more)) [
  | inl blank ↦ rw blank (sym (blank_solid more blank))
  | inr text ↦ rw text refl
]
tail_of_more (c ∷ observed) more = elim (Bool-cases (is_blank (c ∷ observed ++ more))) [
  | inl blank ↦ rw blank (
      sym (
        nil_right (solid (c ∷ observed)) (solid more)
          (sym (solid-append (c ∷ observed) more) ∙ blank_solid (c ∷ observed ++ more) blank)))
  | inr text ↦ ap solid (
      ap (λ t. planner_remaining_tail t (c ∷ observed ++ more)) (sym (append-nil (c ∷ observed)))
      ∙ tail_of (c ∷ observed) [] more text refl (common_length-nil more))
]

solid-noted : (text : Text) → solid (noted text) ≡ solid text
solid-noted text = elim (Bool-cases (is_blank text)) [
  | inl blank ↦ rw blank (sym (blank_solid text blank))
  | inr more ↦ rw more refl
]

pub solid-noted_all :
    (deltas : List Text) → solid (concat (map noted deltas)) ≡ solid (concat deltas)
solid-noted_all [] = refl
solid-noted_all (text ∷ deltas) =
    rw
      (
        solid-append (noted text) (concat (map noted deltas)),
        solid-noted text,
        solid-noted_all deltas,
      )
      (sym (solid-append text (concat deltas)))

pub nonblank_append : (a b : Text) → is_blank a ≡ false → is_blank (a ++ b) ≡ false
nonblank_append a b h =
    is_empty-trim_space (a ++ b)
    ∙ rw (solid-append a b) (more (solid a) (solid b) (sym (is_empty-trim_space a) ∙ h))
  where
    more : (s t : Text) → is_empty s ≡ false → is_empty (s ++ t) ≡ false
    more [] t e = cc
    more (d ∷ s) t e = refl

pub nonempty_append : (a b : Text) (c : ℕ) → is_empty (a ++ c ∷ b) ≡ false
nonempty_append [] b c = refl
nonempty_append (d ∷ a) b c = refl

-- A blank and a rune that is none have nothing in common.
pub common_length-blank :
    (c : ℕ) (last blanks rest : Text)
    → is_space c ≡ false
    → is_empty blanks ≡ false
    → solid blanks ≡ []
    → common_length (c ∷ last) (blanks ++ rest) ≡ 0
unfolding common_length
common_length-blank c last [] rest n k b = cc
common_length-blank c last (d ∷ blanks) rest n k b = elim (Bool-cases (c == d)) [
  | inr other ↦ rw other refl
  | inl same ↦ elim (Bool-cases (is_space d)) [
    | inl space ↦ cc (space, n, (==_iff c d).0 same)
    | inr none ↦ cc (let e : d ∷ solid blanks ≡ [] = rw none at b in e)
  ]
]

pub blank-common_length :
    (c : ℕ) (last blanks rest : Text)
    → is_space c ≡ false
    → is_empty blanks ≡ false
    → solid blanks ≡ []
    → common_length (blanks ++ rest) (c ∷ last) ≡ 0
unfolding common_length
blank-common_length c last [] rest n k b = cc
blank-common_length c last (d ∷ blanks) rest n k b = elim (Bool-cases (d == c)) [
  | inr other ↦ rw other refl
  | inl same ↦ elim (Bool-cases (is_space d)) [
    | inl space ↦ cc (space, n, (==_iff d c).0 same)
    | inr none ↦ cc (let e : d ∷ solid blanks ≡ [] = rw none at b in e)
  ]
]

pub solid_around :
    (first blanks rest : Text)
    → solid blanks ≡ []
    → solid (first ++ (blanks ++ rest)) ≡ solid first ++ solid rest
solid_around first blanks rest b =
    solid-append first (blanks ++ rest)
    ∙ ap (λ t. solid first ++ t) (solid-append blanks rest ∙ rw b refl)

pub rune_nonblank : (c : ℕ) (s : Text) → is_space c ≡ false → is_blank (c ∷ s) ≡ false
rune_nonblank c s n = is_empty-trim_space (c ∷ s) ∙ rw n refl

and_false : (b : Bool) → (b && false) ≡ false
and_false true = refl
and_false false = refl

trim_right_solid :
    (c : ℕ) (rest : Text)
    → is_space c ≡ false
    → trim_right is_space (c ∷ rest) ≡ c ∷ trim_right is_space rest
unfolding trim_right
trim_right_solid c rest n = rw (n, and_false (is_empty (trim_right is_space rest))) refl

-- What strings.TrimSpace leaves of a text whose blanks in front are known.
pub trimmed_around :
    (blanks rest : Text) (c : ℕ)
    → solid blanks ≡ []
    → is_space c ≡ false
    → trim_space (blanks ++ c ∷ rest) ≡ c ∷ trim_right is_space rest
unfolding trim_space trim_left
trimmed_around [] rest c b n = rw n (trim_right_solid c rest n)
trimmed_around (d ∷ blanks) rest c b n = elim (Bool-cases (is_space d)) [
  | inl space ↦ rw space (trimmed_around blanks rest c (rw space at b) n)
  | inr none ↦ cc (let e : d ∷ solid blanks ≡ [] = rw none at b in e)
]
