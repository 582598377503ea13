-- ===== src/Text/Trim.antt =====
-- Trimming: what it leaves, and what it does to the prefixes of a trimmed text.
use agent_server.Prelude.{
  ℕ, ◌≤◌, ◌≡◌, inl, inr, refl, ap, Bool, false, ◌&&◌, [], ◌∷◌, ◌++◌, Bool-cases, if-cases, zero,
  suc, drop, is_empty, length, arith,
}
use agent_server.Text.{Text, is_space, trim_left, trim_right, trim_space}
use agent_server.Text.Laws.{IsPrefix, IsPrefix-trans}

-- Trimming changes nothing.
abbrev pub IsTrimmed : Text → Type 0
IsTrimmed s = trim_space s ≡ s

pub trim_left-length : (p : ℕ → Bool) (s : Text) → length (trim_left p s) ≤ length s
unfolding trim_left
trim_left-length p [] = omega arith
trim_left-length p (c ∷ s) = ground (arith, trim_left-length p s)

pub trim_left_idem : (p : ℕ → Bool) (s : Text) → trim_left p (trim_left p s) ≡ trim_left p s
unfolding trim_left
trim_left_idem p [] = refl
trim_left_idem p (c ∷ s) = ground (arith, trim_left_idem p s)

trim_right_idem : (p : ℕ → Bool) (s : Text) → trim_right p (trim_right p s) ≡ trim_right p s
unfolding trim_right
trim_right_idem p [] = refl
trim_right_idem p (c ∷ s) = ground (arith, trim_right_idem p s)

trim_right-IsPrefix : (p : ℕ → Bool) (s : Text) → IsPrefix (trim_right p s) s
unfolding trim_right
trim_right-IsPrefix p [] = ([], refl)
trim_right-IsPrefix p (c ∷ s) = elim (Bool-cases (is_empty (trim_right p s) && p c)) [
  | inl gone ↦ rw gone (c ∷ s, refl)
  | inr kept ↦ rw kept (let (rest, e) = trim_right-IsPrefix p s in (rest, ap (◌∷◌ c) e))
]

trim_right-length : (s : Text) → length (trim_right is_space s) ≤ length s
unfolding trim_right
trim_right-length [] = omega arith
trim_right-length (c ∷ s) = ground (arith, trim_right-length s)

-- A text that begins with no space: no prefix of it does.
keeps_head : (p : ℕ → Bool) (c : ℕ) (s : Text) → trim_left p (c ∷ s) ≡ c ∷ s → p c ≡ false
unfolding trim_left
keeps_head p c s e = elim (Bool-cases (p c)) [
  | inr other ↦ other
  | inl space ↦ absurd (omega (arith, ap length (rw space at e), trim_left-length p s))
]

trim_left-prefix :
    (p : ℕ → Bool) (q s : Text) → trim_left p s ≡ s → IsPrefix q s → trim_left p q ≡ q
unfolding trim_left
trim_left-prefix p [] s e h = refl
trim_left-prefix p (c ∷ q) s e (rest, split) = rw (keeps_head p c (q ++ rest) (rw split at e)) refl

pub trim_space-IsTrimmed : (s : Text) → IsTrimmed (trim_space s)
unfolding trim_space
trim_space-IsTrimmed s =
    let once = trim_left is_space s in
    rw
      (trim_left-prefix is_space (trim_right is_space once) once (trim_left_idem is_space s)
        (trim_right-IsPrefix is_space once))
      (trim_right_idem is_space once)

pub trim_left-of_IsTrimmed : (s : Text) → IsTrimmed s → trim_left is_space s ≡ s
unfolding trim_space
trim_left-of_IsTrimmed s h =
    let once = trim_left is_space s in
    rw h at (
      trim_left-prefix is_space (trim_right is_space once) once (trim_left_idem is_space s)
        (trim_right-IsPrefix is_space once))

-- A prefix of a trimmed text, trimmed, is a prefix of it still.
pub trim_space-IsPrefix : (q s : Text) → IsTrimmed s → IsPrefix q s → IsPrefix (trim_space q) s
unfolding trim_space
trim_space-IsPrefix q s t h =
    rw (trim_left-prefix is_space q s (trim_left-of_IsTrimmed s t) h)
      (IsPrefix-trans (trim_right is_space q) q s (trim_right-IsPrefix is_space q) h)

trim_right-nil : (p : ℕ → Bool) → trim_right p [] ≡ []
unfolding trim_right
trim_right-nil p = refl

pub trim_space-nil : trim_space [] ≡ []
unfolding trim_space trim_left trim_right
trim_space-nil = refl

pub IsTrimmed-nil : IsTrimmed []
IsTrimmed-nil = trim_space-nil

-- A trimmed text begins with no space.
pub IsTrimmed-head : (c : ℕ) (s : Text) → IsTrimmed (c ∷ s) → is_space c ≡ false
IsTrimmed-head c s h = keeps_head is_space c s (trim_left-of_IsTrimmed (c ∷ s) h)

-- No blanks stand at the end.
abbrev pub EndsSolid : Text → Type 0
EndsSolid s = trim_right is_space s ≡ s

pub IsTrimmed-EndsSolid : (s : Text) → IsTrimmed s → EndsSolid s
unfolding trim_space
IsTrimmed-EndsSolid s h = rw (trim_left-of_IsTrimmed s h) at h

pub EndsSolid-tail : (c : ℕ) (s : Text) → EndsSolid (c ∷ s) → EndsSolid s
unfolding trim_right
EndsSolid-tail c s h = elim (Bool-cases (is_empty (trim_right is_space s) && is_space c)) [
  | inl gone ↦ cc (let e : [] ≡ c ∷ s = rw gone at h in e)
  | inr kept ↦ cc (let e : c ∷ trim_right is_space s ≡ c ∷ s = rw kept at h in e)
]

pub EndsSolid-drop : (n : ℕ) (s : Text) → EndsSolid s → EndsSolid (drop n s)
EndsSolid-drop zero s h = h
EndsSolid-drop (suc n) [] h = h
EndsSolid-drop (suc n) (c ∷ s) h = EndsSolid-drop n s (EndsSolid-tail c s h)

pub EndsSolid-trim_left : (s : Text) → EndsSolid s → EndsSolid (trim_left is_space s)
unfolding trim_left
EndsSolid-trim_left [] h = h
EndsSolid-trim_left (c ∷ s) h =
    if-cases (λ t. EndsSolid t) (is_space c) (trim_left is_space s) (c ∷ s)
      (λ _. EndsSolid-trim_left s (EndsSolid-tail c s h)) (λ _. h)

pub EndsSolid-IsTrimmed : (s : Text) → EndsSolid s → IsTrimmed (trim_left is_space s)
unfolding trim_space
EndsSolid-IsTrimmed s h = rw (trim_left_idem is_space s) (EndsSolid-trim_left s h)

pub trim_space-length : (s : Text) → length (trim_space s) ≤ length s
unfolding trim_space
trim_space-length s =
    omega (arith, trim_right-length (trim_left is_space s), trim_left-length is_space s)
