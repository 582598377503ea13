-- ===== src/Playback/Annotations.antt =====
-- The metadata that describes a playback to the memory and to the next turn:
-- internal/voice/session_orchestrator.go. A Go map is an association list with one entry for a key.
use agent_server.Prelude.{
  Bool, true, false, not, ◌&&◌, ◌||◌, [], ◌∷◌, is_empty, if◌then◌else◌, pos, leb_ℤ, ltb_ℤ, quot,
  ◌≡◌, refl, Option, none, some, arith, Bool-cases, inl, inr,
}
use agent_server.Text.{Text, codes, text_eq, trim_space, format_int}
use agent_server.Text.Laws.{text_eq→eq, text_eq_refl}
use agent_server.Floats.{Floats}
use agent_server.Playback.Policy.{
  HeardTextSource, HeardTextConfidence, HeardTextPrecisionTier, HeardTextBoundary, policy_text,
  normalize_interruption_policy, normalize_heard_text_source, heard_text_confidence_for_source,
  heard_text_precision_tier_for_source, is_ignore,
}
use agent_server.Playback.Heard.{
  heard_ratio_percent, resume_anchor_for_texts, missed_text_for_texts,
}
use agent_server.Playback.Turn.{Metadata, OrchestratedTurn}

unfoldable pub lookup : Text → Metadata → Option Text
lookup k [] = none
lookup k ((j, v) ∷ m) = if text_eq j k then some v else lookup k m

-- metadata[key] = value
unfoldable pub assign : Text → Text → Metadata → Metadata
assign k v [] = (k, v) ∷ []
assign k v ((j, w) ∷ m) = if text_eq j k then (k, v) ∷ m else (j, w) ∷ assign k v m

-- The `put` of `enrichPlaybackMetadata`: a blank value is left out.
unfoldable pub put : Text → Text → Metadata → Metadata
put k v m = if is_empty (trim_space v) then m else assign k v m

-- The `put` of `playbackOutcomeContextMetadata`, which trims the value.
unfoldable pub put_trimmed : Text → Text → Metadata → Metadata
put_trimmed k v m = if is_empty (trim_space v) then m else assign k (trim_space v) m

unfoldable pub source_text : HeardTextSource → Text
source_text HeardTextSource.unknown = []
source_text HeardTextSource.heuristic_bytes = codes "heuristic_bytes"
source_text HeardTextSource.playback_started = codes "playback_started"
source_text HeardTextSource.segment_mark = codes "segment_mark"
source_text HeardTextSource.playback_completed = codes "playback_completed"
source_text (HeardTextSource.other t) = t

unfoldable pub confidence_text : HeardTextConfidence → Text
confidence_text HeardTextConfidence.unknown = []
confidence_text HeardTextConfidence.low = codes "low"
confidence_text HeardTextConfidence.medium = codes "medium"
confidence_text HeardTextConfidence.high = codes "high"

unfoldable pub tier_text : HeardTextPrecisionTier → Text
tier_text HeardTextPrecisionTier.unknown = []
tier_text HeardTextPrecisionTier.tier0 = codes "tier0_heuristic"
tier_text HeardTextPrecisionTier.tier1 = codes "tier1_segment_mark"

unfoldable pub boundary_text : HeardTextBoundary → Text
boundary_text HeardTextBoundary.unset = []
boundary_text HeardTextBoundary.none_heard = codes "none"
boundary_text HeardTextBoundary.prefix = codes "prefix"
boundary_text HeardTextBoundary.full = codes "full"

unfoldable pub bool_text : Bool → Text
bool_text true = codes "true"
bool_text false = codes "false"

abbrev interruption_policy_metadata_key : Text
interruption_policy_metadata_key = codes "voice.interruption_policy"

abbrev interruption_reason_metadata_key : Text
interruption_reason_metadata_key = codes "voice.interruption_reason"

abbrev pub heard_text_boundary_metadata_key : Text
heard_text_boundary_metadata_key = codes "voice.heard_text_boundary"

abbrev played_duration_metadata_key : Text
played_duration_metadata_key = codes "voice.played_duration_ms"

abbrev planned_duration_metadata_key : Text
planned_duration_metadata_key = codes "voice.planned_duration_ms"

abbrev heard_source_metadata_key : Text
heard_source_metadata_key = codes "voice.heard_source"

abbrev heard_confidence_metadata_key : Text
heard_confidence_metadata_key = codes "voice.heard_confidence"

abbrev heard_precision_tier_metadata_key : Text
heard_precision_tier_metadata_key = codes "voice.heard_precision_tier"

abbrev heard_ratio_metadata_key : Text
heard_ratio_metadata_key = codes "voice.heard_ratio_pct"

abbrev resume_anchor_metadata_key : Text
resume_anchor_metadata_key = codes "voice.resume_anchor"

abbrev missed_text_metadata_key : Text
missed_text_metadata_key = codes "voice.missed_text"

-- `if test { put(key, value) }`
abbrev put_if : Bool → Text → Text → Metadata → Metadata
put_if test k v m = if test then put k v m else m

module _ (F : Floats) where
  unfoldable pub enrich_playback_metadata : Metadata → OrchestratedTurn → Metadata
  enrich_playback_metadata m t =
      let policy = normalize_interruption_policy t.interruption_policy in
      let named = not (is_ignore policy) in
      let ended = t.response_interrupted || t.playback_completed in
      let ratio = heard_ratio_percent F t.delivered_text t.heard_text in
      let m1 = put_if named interruption_policy_metadata_key (policy_text policy) m in
      let m2 = put_if named interruption_reason_metadata_key t.interruption_reason m1 in
      let m3 =
        put_if (ended || named) heard_text_boundary_metadata_key
          (boundary_text t.heard_text_boundary) m2 in
      let m4 =
        put_if (ltb_ℤ (pos 0) t.played_duration && ended) played_duration_metadata_key
          (format_int (quot t.played_duration 1000000)) m3 in
      let m5 =
        put_if (ltb_ℤ (pos 0) t.planned_duration && ended) planned_duration_metadata_key
          (format_int (quot t.planned_duration 1000000)) m4 in
      let m6 =
        put heard_source_metadata_key
          (source_text (normalize_heard_text_source t.heard_source HeardTextSource.unknown)) m5 in
      let m7 =
        put heard_confidence_metadata_key
          (confidence_text (heard_text_confidence_for_source t.heard_source)) m6 in
      let m8 =
        put heard_precision_tier_metadata_key
          (tier_text (heard_text_precision_tier_for_source t.heard_source)) m7 in
      let m9 = put_if (leb_ℤ (pos 0) ratio) heard_ratio_metadata_key (format_int ratio) m8 in
      let m10 =
        put resume_anchor_metadata_key (resume_anchor_for_texts t.delivered_text t.heard_text) m9 in
      put missed_text_metadata_key (missed_text_for_texts t.delivered_text t.heard_text) m10

-- A key that was assigned holds the value, and every other key what it held.
pub lookup-assign :
    (k j : Text) (v : Text) (m : Metadata)
    → lookup j (assign k v m) ≡ (if text_eq k j then some v else lookup j m)
unfolding lookup assign
lookup-assign k j v [] = refl
lookup-assign k j v ((i, w) ∷ m) = elim (Bool-cases (text_eq i k)) [
  | inl same ↦ rw (same, text_eq→eq i k same) (ground arith)
  | inr other ↦ rw other (ground (arith, lookup-assign k j v m, excludes i k j other))
]
  where
    excludes : (a b c : Text) → text_eq a b ≡ false → text_eq a c ≡ true → text_eq b c ≡ false
    excludes a b c h e = elim (Bool-cases (text_eq b c)) [
      | inr no_match ↦ no_match
      | inl same ↦ absurd (differ (text_eq→eq a c e) (text_eq→eq b c same) h)
    ]
      where
        differ : a ≡ c → b ≡ c → text_eq a b ≡ false → ⊥
        differ p q r = cc (rw (p, q) at r, text_eq_refl c)
