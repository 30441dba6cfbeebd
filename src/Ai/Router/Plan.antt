-- ===== src/Ai/Router/Plan.antt =====
-- Which providers the router tries, and in which order (router.rs, `generate_content`).
use ibis_assistant.Prelude.{◌≡◌, refl, Bool, false, Option, none, some, arith, ◌⊎◌, if◌then◌else◌}
use ibis_assistant.Text.{Text, str, text_eq, text_eq-excludes}
use ibis_assistant.Ai.Router.{RouterConfig, Step, local, cloud, prefer_cloud, plan}

-- what the documentation of the router promises, with no probe of the cloud in it
unfoldable pub documented : RouterConfig → Text → Step × Option Step
documented cfg hint =
    if prefer_cloud cfg hint
    then (cloud, some local)
    else if text_eq hint (str "local_only")
    then (local, none)
    else (local, some cloud)

-- The plan is the documented one for every hint and every configuration, whether the cloud was
-- ready or not when it was probed.
plan-eq-documented :
    (cfg : RouterConfig) (hint : Text) (cloud_ready : Bool)
    → plan cfg hint cloud_ready ≡ documented cfg hint
unfolding plan documented text_eq
plan-eq-documented cfg hint cloud_ready = ground (
  arith,
  text_eq-excludes hint (str "local_only") (str "quality"),
  text_eq-excludes hint (str "local_only") (str "auto"),
  text_eq-excludes hint (str "bulk") (str "quality"),
  text_eq-excludes hint (str "bulk") (str "auto"),
  text_eq-excludes hint (str "bulk_local") (str "quality"),
  text_eq-excludes hint (str "bulk_local") (str "auto"),
)

pub plan_local_only :
    (cfg : RouterConfig) (cloud_ready : Bool)
    → plan cfg (str "local_only") cloud_ready ≡ (local, none)
unfolding plan text_eq
plan_local_only cfg cloud_ready = refl

-- A plan holds both steps unless the hint is `local_only`.
pub plan_both :
    (cfg : RouterConfig) (hint : Text) (cloud_ready : Bool)
    → text_eq hint (str "local_only") ≡ false
    → (plan cfg hint cloud_ready ≡ (cloud, some local))
      ⊎ (plan cfg hint cloud_ready ≡ (local, some cloud))
unfolding plan
plan_both cfg hint cloud_ready h = ground arith
