-- ===== src/Lexicon/Backchannel.antt =====
-- Acknowledgements: `looksLikeBackchannel` of internal/voice/barge_in.go.
use agent_server.Prelude.{ℕ, ◌≡◌, refl, Bool, true, false, [], ◌∷◌, arith}
use agent_server.Text.{is_space, trim_space, in_set, trim_left, trim_right}
use agent_server.Lexicon.{looks_like_backchannel, infer_lexical_task_family, backchannel}
use agent_server.Lexicon.Words.{backchannel_cutset}

pub trim_space-rune : (c : ℕ) → is_space c ≡ false → trim_space (c ∷ []) ≡ c ∷ []
unfolding trim_space
trim_space-rune c h = ground (arith, h)

trim_cutset-rune :
    (p : ℕ → Bool) (c : ℕ) → p c ≡ false → trim_right p (trim_left p (c ∷ [])) ≡ c ∷ []
unfolding trim_left trim_right
trim_cutset-rune p c h = rw (h, h) refl

pub rune-backchannel :
    (c : ℕ)
    → is_space c ≡ false
    → in_set backchannel_cutset c ≡ false
    → looks_like_backchannel (c ∷ []) ≡ true
unfolding looks_like_backchannel
rune-backchannel c h k =
    rw (trim_space-rune c h) (rw (trim_cutset-rune (in_set backchannel_cutset) c k) (ground arith))

-- Every text of a single rune that is neither a blank nor in the cutset counts as an
-- acknowledgement, whatever the rune says: "停" (stop) as much as "嗯".
pub single_rune_backchannel :
    (c : ℕ)
    → is_space c ≡ false
    → in_set backchannel_cutset c ≡ false
    → (looks_like_backchannel (c ∷ []) ≡ true) × (infer_lexical_task_family (c ∷ []) ≡ backchannel)
single_rune_backchannel c h k =
    let yes_it_is = rune-backchannel c h k in
    (yes_it_is, unfold infer_lexical_task_family in rw (trim_space-rune c h) (rw yes_it_is))
