-- ===== src/Text/Laws.antt =====
-- Equality, prefixes and suffixes of texts as statements about lists.
use agent_server.Prelude.{
  ℕ, ◌≡◌, ◌↔◌, refl, sym, true, [], ◌∷◌, ◌++◌, append_assoc, append-nil, ◌==◌, ==_iff, &&_parts,
  take, drop, take-append-drop, arith,
}
use agent_server.Text.{Text, text_eq, has_prefix}

-- `p` begins `s`.
abbrev pub IsPrefix : Text → Text → Type 0
IsPrefix p s = (rest : Text) × (s ≡ p ++ rest)

pub text_eq→eq : (s t : Text) → text_eq s t ≡ true → s ≡ t
unfolding text_eq
text_eq→eq [] [] h = refl
text_eq→eq [] (d ∷ t) h = cc
text_eq→eq (c ∷ s) [] h = cc
text_eq→eq (c ∷ s) (d ∷ t) h = ground (arith, text_eq→eq s t)

pub text_eq_refl : (s : Text) → text_eq s s ≡ true
unfolding text_eq
text_eq_refl [] = refl
text_eq_refl (c ∷ s) = ground (arith, text_eq_refl s)

pub text_eq_iff : (s t : Text) → (text_eq s t ≡ true) ↔ (s ≡ t)
text_eq_iff s t = (text_eq→eq s t, λ e. rw e (text_eq_refl t))

pub has_prefix→IsPrefix : (s p : Text) → has_prefix s p ≡ true → IsPrefix p s
unfolding has_prefix
has_prefix→IsPrefix s [] h = (s, refl)
has_prefix→IsPrefix [] (d ∷ p) h = cc
has_prefix→IsPrefix (c ∷ s) (d ∷ p) h =
    let (same, later) = &&_parts (c == d) (has_prefix s p) h in
    let (rest, e) = has_prefix→IsPrefix s p later in (rest, cc ((==_iff c d).0 same))

pub has_prefix-append : (p rest : Text) → has_prefix (p ++ rest) p ≡ true
unfolding has_prefix
has_prefix-append [] [] = refl
has_prefix-append [] (c ∷ rest) = refl
has_prefix-append (c ∷ p) rest = ground (arith, has_prefix-append p rest)

pub IsPrefix→has_prefix : (s p : Text) → IsPrefix p s → has_prefix s p ≡ true
IsPrefix→has_prefix s p (rest, e) = rw e (has_prefix-append p rest)

pub IsPrefix-refl : (s : Text) → IsPrefix s s
IsPrefix-refl s = ([], sym (append-nil s))

pub IsPrefix-nil : (s : Text) → IsPrefix [] s
IsPrefix-nil s = (s, refl)

pub IsPrefix-trans : (a b c : Text) → IsPrefix a b → IsPrefix b c → IsPrefix a c
IsPrefix-trans a b c (r, e) (r', e') = (r ++ r', rw (e', e) (append_assoc a r r'))

pub IsPrefix-take : (n : ℕ) (s : Text) → IsPrefix (take n s) s
IsPrefix-take n s = (drop n s, sym (take-append-drop n s))

pub text_eq_sym : (s t : Text) → text_eq s t ≡ text_eq t s
unfolding text_eq
text_eq_sym [] [] = refl
text_eq_sym [] (d ∷ t) = refl
text_eq_sym (c ∷ s) [] = refl
text_eq_sym (c ∷ s) (d ∷ t) = ground (arith, text_eq_sym s t)
