-- ===== src/Text.antt =====
-- Go's strings, as the runes that they hold, and what the program uses of package `strings`.
pub mod Laws
pub mod Trim
use Prim.Native.Char.{Char, code}
use Prim.Native.String.{String}
use agent_server.Prelude.{
  ℕ, ◌+◌, ◌-◌, ◌/◌, ◌%◌, Bool, true, false, ◌&&◌, ◌||◌, List, [], ◌∷◌, ◌++◌, ◌==◌, leb,
  if◌then◌else◌, is_empty, length, take, any, zero, suc, ℤ, pos, negsuc, ltb,
}

abbrev pub Text : Type 0
Text = List ℕ

-- The runes of a literal.
abbrev pub codes : String → Text
codes String.[] = []
codes (String.◌∷◌ c s) = code c ∷ codes s

unfoldable pub text_eq : Text → Text → Bool
text_eq [] [] = true
text_eq [] (d ∷ t) = false
text_eq (c ∷ s) [] = false
text_eq (c ∷ s) (d ∷ t) = c == d && text_eq s t

-- strings.HasPrefix(s, p)
unfoldable pub has_prefix : Text → Text → Bool
has_prefix s [] = true
has_prefix [] (d ∷ p) = false
has_prefix (c ∷ s) (d ∷ p) = c == d && has_prefix s p

-- strings.HasSuffix(s, p)
unfoldable pub has_suffix : Text → Text → Bool
unfolding text_eq
has_suffix [] p = is_empty p
has_suffix (c ∷ s) p = text_eq (c ∷ s) p || has_suffix s p

-- strings.Contains(s, t)
unfoldable pub contains : Text → Text → Bool
unfolding has_prefix
contains [] t = is_empty t
contains (c ∷ s) t = has_prefix (c ∷ s) t || contains s t

-- strings.TrimSuffix(s, p)
unfoldable pub trim_suffix : Text → Text → Text
unfolding has_suffix
trim_suffix s p = if has_suffix s p then take (length s - length p) s else s

-- unicode.IsSpace(r)
unfoldable pub is_space : ℕ → Bool
is_space c =
    leb 0x9 c && leb c 0xd
    || c == 0x20
    || c == 0x85
    || c == 0xa0
    || c == 0x1680
    || leb 0x2000 c && leb c 0x200a
    || c == 0x2028
    || c == 0x2029
    || c == 0x202f
    || c == 0x205f
    || c == 0x3000

-- strings.TrimLeftFunc(s, p) and strings.TrimRightFunc(s, p).
unfoldable pub trim_left : (ℕ → Bool) → Text → Text
trim_left p [] = []
trim_left p (c ∷ s) = if p c then trim_left p s else c ∷ s

unfoldable pub trim_right : (ℕ → Bool) → Text → Text
trim_right p [] = []
trim_right p (c ∷ s) = let rest = trim_right p s in if is_empty rest && p c then [] else c ∷ rest

-- strings.TrimSpace(s)
unfoldable pub trim_space : Text → Text
unfolding trim_left trim_right is_space
trim_space s = trim_right is_space (trim_left is_space s)

-- Membership in a cutset, for strings.Trim(s, cutset) and strings.TrimRight(s, cutset).
unfoldable pub in_set : Text → ℕ → Bool
in_set cutset c = any (λ d. c == d) cutset

-- unicode.ToLower(r), on the runes whose lower case is ASCII: A to Z, U+0130 and the Kelvin sign. All
-- others are left, since the program compares lowered texts with ASCII texts only.
unfoldable pub lower_rune : ℕ → ℕ
lower_rune c =
    if leb b'A' c && leb c b'Z'
    then c + 32
    else if c == 0x130
    then b'i'
    else if c == 0x212a
    then b'k'
    else c

-- strings.ToLower(s)
unfoldable pub to_lower : Text → Text
unfolding lower_rune
to_lower [] = []
to_lower (c ∷ s) = lower_rune c ∷ to_lower s

-- The decimal digits of `n` before `acc`, with fuel; a number below 2 ^ 64 has at most 20.
unfoldable pub digits_onto : ℕ → ℕ → Text → Text
digits_onto zero n acc = acc
digits_onto (suc fuel) n acc =
    let more = digits_onto fuel (n / 10) ((48 + n % 10) ∷ acc) in
    if ltb n 10 then (48 + n) ∷ acc else more

-- The format `%d` of an `int64`.
unfoldable pub format_int : ℤ → Text
unfolding digits_onto
format_int (pos n) = digits_onto 20 n []
format_int (negsuc n) = b'-' ∷ digits_onto 20 (n + 1) []
