-- ===== src/Reasoning/Tests.antt =====
-- Runs of the reasoning configuration, and the theorems at concrete configurations.
use ibis_assistant.Prelude.{◌≡◌, refl, true, false, List, [], ◌∷◌, map}
use ibis_assistant.Text.{Text, str, ascii_lower}
use ibis_assistant.Text.Run.{text_runs}
use ibis_assistant.Text.Number.{pos}
use ibis_assistant.Reasoning.{
  GeminiKeyConfig, CloudsConfig, RoutingConfig, ReasoningConfig, migrated_keys, legacy_keys,
  with_rpm, gemini_keys_effective, normalize_reasoning_config, cloud_has_credentials,
  with_credentials, configured_clouds, order_or_default, resolve_cloud_primary,
}

abbrev lower : Text → Text
lower = map ascii_lower

abbrev one_key : List GeminiKeyConfig
one_key =
    record {
      key = str "k";
      rpm = pos 0;
      tpm = pos 0;
      rpd = pos 0;
      owner = [];
      allow_overage = false;
    }
    ∷ []

abbrev no_clouds : CloudsConfig
no_clouds = record {
  gemini = record { keys = [] };
  openai_compat = record { base_url = []; api_key = []; model = [] };
  claude = record { api_key = str "ck"; model = [] };
}

abbrev no_routing : RoutingConfig
no_routing = record {
  mode = [];
  local_provider = [];
  cloud_provider = str "openai";
  cloud_fallback_order = [];
  use_cloud_when_no_gpu = true;
  local_timeout_ms = pos 0;
}

abbrev legacy_config : ReasoningConfig
legacy_config = record {
  provider = [];
  model = str " ";
  keys = one_key;
  clouds = no_clouds;
  routing = no_routing;
  model_overrides = (str "M", str "mine") ∷ [];
  context_only_fallback = false;
  always_smallest_local = false;
  use_ide_provided_models = false;
}

keys_migrated :
    (normalize_reasoning_config (pos 55) legacy_config).clouds.gemini.keys
    ≡ map (with_rpm (pos 55)) one_key
unfolding normalize_reasoning_config migrated_keys legacy_keys
keys_migrated = refl

primary_is_gemini : resolve_cloud_primary lower legacy_config ≡ str "gemini"
unfolding resolve_cloud_primary configured_clouds with_credentials order_or_default
    cloud_has_credentials gemini_keys_effective text_runs
primary_is_gemini = refl
