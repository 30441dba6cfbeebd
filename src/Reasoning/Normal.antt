-- ===== src/Reasoning/Normal.antt =====
-- Normalizing a configuration twice changes nothing more (reasoning.rs,
-- `normalize_reasoning_config`).
use ibis_assistant.Prelude.{◌≡◌, refl, ap, ◌∙◌, false, List, [], ◌∷◌, map, arith}
use ibis_assistant.Text.{Text, str, text_eq_iff, is_empty}
use ibis_assistant.Text.Trim.{trim}
use ibis_assistant.Text.Map.{lookup, lookup-insert}
use ibis_assistant.Text.Run.{text_runs}
use ibis_assistant.Text.Number.{ℤ}
use ibis_assistant.Reasoning.{
  GeminiKeyConfig, ReasoningConfig, no_items, or_default, or_if_empty, order_or_default,
  model_overrides_defaults, is_blank, fill_override, fill_overrides, with_rpm, migrated_keys,
  legacy_keys, timeout_or_default, normalize_reasoning_config,
}

or_default_idem :
    (d s : Text) → is_empty (trim d) ≡ false → or_default d (or_default d s) ≡ or_default d s
unfolding or_default
or_default_idem d s h = ground (arith, h)

or_if_empty_idem :
    (d s : Text) → is_empty d ≡ false → or_if_empty d (or_if_empty d s) ≡ or_if_empty d s
unfolding or_if_empty
or_if_empty_idem d s h = ground (arith, h)

order_idem : (o : List Text) → order_or_default (order_or_default o) ≡ order_or_default o
unfolding order_or_default
order_idem [] = refl
order_idem (n ∷ o) = refl

timeout_idem : (t : ℤ) → timeout_or_default (timeout_or_default t) ≡ timeout_or_default t
unfolding timeout_or_default
timeout_idem t = ground arith

with_rpm_idem : (d : ℤ) (k : GeminiKeyConfig) → with_rpm d (with_rpm d k) ≡ with_rpm d k
unfolding with_rpm
with_rpm_idem d k = ground arith

map-with_rpm_idem :
    (d : ℤ) (ks : List GeminiKeyConfig)
    → map (with_rpm d) (map (with_rpm d) ks) ≡ map (with_rpm d) ks
map-with_rpm_idem d [] = refl
map-with_rpm_idem d (k ∷ ks) = rw (with_rpm_idem d k, map-with_rpm_idem d ks)

no_items-map : (d : ℤ) (ks : List GeminiKeyConfig) → no_items (map (with_rpm d) ks) ≡ no_items ks
no_items-map d [] = refl
no_items-map d (k ∷ ks) = refl

-- an override that is there stays
fill_override-keeps :
    (j k v : Text) (m : List (Text × Text))
    → is_empty (trim v) ≡ false
    → is_blank (lookup j m) ≡ false
    → is_blank (lookup j (fill_override k v m)) ≡ false
unfolding fill_override
fill_override-keeps j k v m n h = ground (arith, lookup-insert k j v m)

fill_override-fills :
    (k v : Text) (m : List (Text × Text))
    → is_empty (trim v) ≡ false
    → is_blank (lookup k (fill_override k v m)) ≡ false
unfolding fill_override
fill_override-fills k v m n = ground (arith, lookup-insert k k v m, text_eq_iff k k)

fill_override_stays :
    (k v : Text) (m : List (Text × Text)) → is_blank (lookup k m) ≡ false → fill_override k v m ≡ m
unfolding fill_override
fill_override_stays k v m h = rw h

-- no default is blank
abbrev AreFilled : List (Text × Text) → Type 0
AreFilled [] = Unit
AreFilled ((_, v) ∷ ds) = (is_empty (trim v) ≡ false) × AreFilled ds

fill_overrides-keeps :
    (j : Text) (ds m : List (Text × Text))
    → AreFilled ds
    → is_blank (lookup j m) ≡ false
    → is_blank (lookup j (fill_overrides ds m)) ≡ false
unfolding fill_overrides
fill_overrides-keeps j [] m f h = h
fill_overrides-keeps j ((k, v) ∷ ds) m f h =
    fill_overrides-keeps j ds (fill_override k v m) f.1 (fill_override-keeps j k v m f.0 h)

-- the defaults are all there
abbrev HasAll : List (Text × Text) → List (Text × Text) → Type 0
HasAll [] m = Unit
HasAll ((k, _) ∷ ds) m = (is_blank (lookup k m) ≡ false) × HasAll ds m

fill_overrides-HasAll : (ds m : List (Text × Text)) → AreFilled ds → HasAll ds (fill_overrides ds m)
unfolding fill_overrides
fill_overrides-HasAll [] m f = tt
fill_overrides-HasAll ((k, v) ∷ ds) m f = (
  fill_overrides-keeps k ds (fill_override k v m) f.1 (fill_override-fills k v m f.0),
  fill_overrides-HasAll ds (fill_override k v m) f.1,
)

fill_overrides_stays : (ds m : List (Text × Text)) → HasAll ds m → fill_overrides ds m ≡ m
unfolding fill_overrides
fill_overrides_stays [] m h = refl
fill_overrides_stays ((k, v) ∷ ds) m h =
    ap (fill_overrides ds) (fill_override_stays k v m h.0) ∙ fill_overrides_stays ds m h.1

defaults-AreFilled : AreFilled model_overrides_defaults
unfolding text_runs
defaults-AreFilled = (refl, (refl, (refl, (refl, tt))))

fill_overrides_idem :
    (m : List (Text × Text))
    → fill_overrides model_overrides_defaults (fill_overrides model_overrides_defaults m)
      ≡ fill_overrides model_overrides_defaults m
fill_overrides_idem m =
    fill_overrides_stays model_overrides_defaults (fill_overrides model_overrides_defaults m)
      (fill_overrides-HasAll model_overrides_defaults m defaults-AreFilled)

migrated_keys_idem :
    (d : ℤ) (g k : List GeminiKeyConfig)
    → migrated_keys (map (with_rpm d) (migrated_keys g k)) (legacy_keys (migrated_keys g k) k)
      ≡ map (with_rpm d) (migrated_keys g k)
unfolding migrated_keys legacy_keys
migrated_keys_idem d [] [] = refl
migrated_keys_idem d [] (y ∷ k) = refl
migrated_keys_idem d (x ∷ g) k = refl

legacy_keys_idem :
    (d : ℤ) (g k : List GeminiKeyConfig)
    → legacy_keys
        (migrated_keys (map (with_rpm d) (migrated_keys g k)) (legacy_keys (migrated_keys g k) k))
        (legacy_keys (migrated_keys g k) k)
      ≡ legacy_keys (migrated_keys g k) k
unfolding migrated_keys legacy_keys
legacy_keys_idem d [] [] = refl
legacy_keys_idem d [] (y ∷ k) = refl
legacy_keys_idem d (x ∷ g) [] = refl
legacy_keys_idem d (x ∷ g) (y ∷ k) = refl

-- Normalizing a configuration that is normalized changes nothing.
normalize_reasoning_config_idem :
    (d : ℤ) (r : ReasoningConfig)
    → normalize_reasoning_config d (normalize_reasoning_config d r) ≡ normalize_reasoning_config d r
unfolding normalize_reasoning_config text_runs
normalize_reasoning_config_idem d r = rw (
  legacy_keys_idem d r.clouds.gemini.keys r.keys,
  migrated_keys_idem d r.clouds.gemini.keys r.keys,
  map-with_rpm_idem d (migrated_keys r.clouds.gemini.keys r.keys),
  fill_overrides_idem r.model_overrides,
  order_idem r.routing.cloud_fallback_order,
  timeout_idem r.routing.local_timeout_ms,
  or_default_idem (str "hybrid") r.provider refl,
  or_default_idem (str "auto") r.model refl,
  or_default_idem (str "https://api.openai.com/v1") r.clouds.openai_compat.base_url refl,
  or_default_idem (str "gpt-4.1") r.clouds.openai_compat.model refl,
  or_default_idem (str "claude-sonnet-4") r.clouds.claude.model refl,
  or_if_empty_idem (str "auto") r.routing.mode refl,
  or_if_empty_idem (str "ollama") r.routing.local_provider refl,
  or_if_empty_idem (str "auto") r.routing.cloud_provider refl,
)
