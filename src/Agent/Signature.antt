-- ===== src/Agent/Signature.antt =====
-- The order of metadata does not matter to llmPrewarmMetadataSignature of
-- internal/agent/llm_executor.go: Go gives the pairs of a map in any order.
use agent_server.Prelude.{
  ◌≡◌, refl, sym, ap, ◌∙◌, true, false, inl, inr, Bool-cases, List, [], ◌∷◌, ◌++◌, arith,
  if◌then◌else◌,
}
use mathlib.Core.List.{Perm, foldr}
use mathlib.Core.List.Perm
use agent_server.Text.{Text, trim_space}
use agent_server.Agent.Prewarm.{
  text_leb, insert_text, sort_texts, is_skipped, signature_entries, metadata_signature, join_texts,
}

text_leb_total : (s t : Text) → text_leb s t ≡ false → text_leb t s ≡ true
unfolding text_leb
text_leb_total [] t h = cc
text_leb_total (c ∷ s) [] h = refl
text_leb_total (c ∷ s) (d ∷ t) h = ground (arith, text_leb_total s t)

text_leb_trans : (s t u : Text) → text_leb s t ≡ true → text_leb t u ≡ true → text_leb s u ≡ true
unfolding text_leb
text_leb_trans [] t u h k = refl
text_leb_trans (c ∷ s) [] u h k = cc
text_leb_trans (c ∷ s) (d ∷ t) [] h k = cc
text_leb_trans (c ∷ s) (d ∷ t) (e ∷ u) h k = ground (arith, text_leb_trans s t u)

text_leb_antisym : (s t : Text) → text_leb s t ≡ true → text_leb t s ≡ true → s ≡ t
unfolding text_leb
text_leb_antisym [] [] h k = refl
text_leb_antisym [] (d ∷ t) h k = cc
text_leb_antisym (c ∷ s) [] h k = cc
text_leb_antisym (c ∷ s) (d ∷ t) h k = ground (arith, text_leb_antisym s t)

insert_comm :
    (s t : Text) (us : List Text)
    → insert_text s (insert_text t us) ≡ insert_text t (insert_text s us)
unfolding insert_text
insert_comm s t [] = ground (arith, text_leb_total s t, text_leb_antisym s t)
insert_comm s t (u ∷ us) = ground (
  arith,
  text_leb_total s t,
  text_leb_antisym s t,
  text_leb_trans s t u,
  text_leb_trans t s u,
  insert_comm s t us,
)

abbrev entered : Text × Text → List Text → List Text
entered (key, value) us =
    if is_skipped key value then us else insert_text (trim_space key ++ b'=' ∷ trim_space value) us

entered_comm :
    (a b : Text × Text) (us : List Text) → entered a (entered b us) ≡ entered b (entered a us)
entered_comm (key, value) (key', value') us = ground (
  arith,
  insert_comm (trim_space key ++ b'=' ∷ trim_space value)
      (trim_space key' ++ b'=' ∷ trim_space value') us,
)

sorted_entries :
    (metadata : List (Text × Text))
    → sort_texts (signature_entries metadata) ≡ foldr entered [] metadata
unfolding sort_texts signature_entries
sorted_entries [] = refl
sorted_entries ((key, value) ∷ metadata) = elim (Bool-cases (is_skipped key value)) [
  | inl skipped ↦ rw skipped (sorted_entries metadata)
  | inr kept ↦
      rw kept
        (ap (insert_text (trim_space key ++ b'=' ∷ trim_space value)) (sorted_entries metadata))
]

-- The signature of metadata is the same for any order of its pairs.
pub metadata_signature_any_order :
    (m m' : List (Text × Text)) → Perm m m' → metadata_signature m ≡ metadata_signature m'
unfolding metadata_signature
metadata_signature_any_order m m' p =
    ap join_texts (
      sorted_entries m ∙ Perm.foldr-eq (hlevel) entered entered_comm p [] ∙ sym (sorted_entries m'))
