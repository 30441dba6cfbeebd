-- ===== src/Reasoning.antt =====
-- crates/ibis-core/src/reasoning.rs: the defaults of the reasoning configuration and the clouds
-- that have credentials, over the records of crates/ibis-core/src/config.rs.
pub mod Normal
pub mod Clouds
mod Tests
use ibis_assistant.Prelude.{
  ltb, Bool, true, false, not, ◌&&◌, ◌||◌, Option, none, some, List, [], ◌∷◌, map, any,
  if◌then◌else◌,
}
use ibis_assistant.Text.{Text, str, text_eq, is_empty}
use ibis_assistant.Text.Trim.{trim}
use ibis_assistant.Text.Map.{lookup, insert}
use ibis_assistant.Text.Number.{ℤ, pos, negsuc}

pub record GeminiKeyConfig : Type 0 where
  pub key : Text
  pub rpm : ℤ
  pub tpm : ℤ
  pub rpd : ℤ
  pub owner : Text
  pub allow_overage : Bool

pub record GeminiCloudConfig : Type 0 where
  pub keys : List GeminiKeyConfig

pub record OpenAiCompatCloudConfig : Type 0 where
  pub base_url : Text
  pub api_key : Text
  pub model : Text

pub record ClaudeCloudConfig : Type 0 where
  pub api_key : Text
  pub model : Text

pub record CloudsConfig : Type 0 where
  pub gemini : GeminiCloudConfig
  pub openai_compat : OpenAiCompatCloudConfig
  pub claude : ClaudeCloudConfig

pub record RoutingConfig : Type 0 where
  pub mode : Text
  pub local_provider : Text
  pub cloud_provider : Text
  pub cloud_fallback_order : List Text
  pub use_cloud_when_no_gpu : Bool
  pub local_timeout_ms : ℤ

pub record ReasoningConfig : Type 0 where
  pub provider : Text
  pub model : Text
  pub keys : List GeminiKeyConfig
  pub clouds : CloudsConfig
  pub routing : RoutingConfig
  pub model_overrides : List (Text × Text)
  pub context_only_fallback : Bool
  pub always_smallest_local : Bool
  pub use_ide_provided_models : Bool

abbrev pub no_items : {A : Type 0} → List A → Bool
no_items [] = true
no_items (_ ∷ _) = false

-- `> 0` of an `i64`
abbrev pub is_positive : ℤ → Bool
is_positive (pos n) = ltb 0 n
is_positive (negsuc _) = false

-- a value that is blank takes the default
unfoldable pub or_default : Text → Text → Text
or_default default s = if is_empty (trim s) then default else s

-- a value that is empty does
unfoldable pub or_if_empty : Text → Text → Text
or_if_empty default s = if is_empty s then default else s

abbrev pub default_order : List Text
default_order = str "gemini" ∷ str "openai_compat" ∷ str "claude" ∷ []

unfoldable pub order_or_default : List Text → List Text
order_or_default order = if no_items order then default_order else order

abbrev pub model_overrides_defaults : List (Text × Text)
model_overrides_defaults =
    (str "S", str "granite4.1:3b")
    ∷ (str "M", str "qwen2.5-coder:7b")
    ∷ (str "L", str "gemma4:12b")
    ∷ (str "XL", str "muse-glimmer")
    ∷ []

abbrev pub is_blank : Option Text → Bool
is_blank none = true
is_blank (some s) = is_empty (trim s)

unfoldable pub fill_override : Text → Text → List (Text × Text) → List (Text × Text)
fill_override k v m = if is_blank (lookup k m) then insert k v m else m

-- the loop over the defaults
unfoldable pub fill_overrides : List (Text × Text) → List (Text × Text) → List (Text × Text)
fill_overrides [] m = m
fill_overrides ((k, v) ∷ ds) m = fill_overrides ds (fill_override k v m)

unfoldable pub with_rpm : ℤ → GeminiKeyConfig → GeminiKeyConfig
with_rpm default_rpm k =
    if not (is_positive k.rpm) && is_positive default_rpm then record k { rpm = default_rpm } else k

-- the keys of the cloud, taken from the legacy ones if there are none
unfoldable pub migrated_keys : List GeminiKeyConfig → List GeminiKeyConfig → List GeminiKeyConfig
migrated_keys gemini_keys keys =
    if no_items gemini_keys && not (no_items keys) then keys else gemini_keys

-- the legacy keys, taken from the cloud's if there are none
unfoldable pub legacy_keys : List GeminiKeyConfig → List GeminiKeyConfig → List GeminiKeyConfig
legacy_keys gemini_keys keys =
    if no_items keys && not (no_items gemini_keys) then gemini_keys else keys

unfoldable pub timeout_or_default : ℤ → ℤ
timeout_or_default t = if not (is_positive t) then pos 120000 else t

unfoldable pub normalize_reasoning_config : ℤ → ReasoningConfig → ReasoningConfig
normalize_reasoning_config default_rpm r = record r {
  provider = or_default (str "hybrid") r.provider;
  model = or_default (str "auto") r.model;
  keys = legacy_keys (migrated_keys r.clouds.gemini.keys r.keys) r.keys;
  clouds = record {
    gemini = record {
      keys = map (with_rpm default_rpm) (migrated_keys r.clouds.gemini.keys r.keys);
    };
    openai_compat = record {
      base_url = or_default (str "https://api.openai.com/v1") r.clouds.openai_compat.base_url;
      api_key = r.clouds.openai_compat.api_key;
      model = or_default (str "gpt-4.1") r.clouds.openai_compat.model;
    };
    claude = record {
      api_key = r.clouds.claude.api_key;
      model = or_default (str "claude-sonnet-4") r.clouds.claude.model;
    };
  };
  routing = record {
    mode = or_if_empty (str "auto") r.routing.mode;
    local_provider = or_if_empty (str "ollama") r.routing.local_provider;
    cloud_provider = or_if_empty (str "auto") r.routing.cloud_provider;
    cloud_fallback_order = order_or_default r.routing.cloud_fallback_order;
    use_cloud_when_no_gpu = r.routing.use_cloud_when_no_gpu;
    local_timeout_ms = timeout_or_default r.routing.local_timeout_ms;
  };
  model_overrides = fill_overrides model_overrides_defaults r.model_overrides;
}

unfoldable pub gemini_keys_effective : ReasoningConfig → List GeminiKeyConfig
gemini_keys_effective r =
    if not (no_items r.clouds.gemini.keys) then r.clouds.gemini.keys else r.keys

abbrev pub first_or_empty : List Text → Text
first_or_empty [] = []
first_or_empty (name ∷ _) = name

module _ (to_lowercase : Text → Text) where
  unfoldable pub cloud_has_credentials : ReasoningConfig → Text → Bool
  cloud_has_credentials r raw =
      let name = to_lowercase (trim raw) in
      if text_eq name (str "gemini")
      then any (λ k. not (is_empty (trim k.key))) (gemini_keys_effective r)
      else if text_eq name (str "openai_compat") || text_eq name (str "openai")
      then not (is_empty (trim r.clouds.openai_compat.api_key))
      else if text_eq name (str "claude") || text_eq name (str "anthropic")
      then not (is_empty (trim r.clouds.claude.api_key))
      else false

  unfoldable pub with_credentials : ReasoningConfig → List Text → List Text
  with_credentials r [] = []
  with_credentials r (name ∷ names) =
      let rest = with_credentials r names in
      if cloud_has_credentials r name then name ∷ rest else rest

  unfoldable pub configured_clouds : ReasoningConfig → List Text
  configured_clouds r = with_credentials r (order_or_default r.routing.cloud_fallback_order)

  unfoldable pub resolve_cloud_primary : ReasoningConfig → Text
  resolve_cloud_primary r =
      let forced = to_lowercase (trim r.routing.cloud_provider) in
      if not (is_empty forced)
        && not (text_eq forced (str "auto"))
        && cloud_has_credentials r forced
      then forced
      else first_or_empty (configured_clouds r)
