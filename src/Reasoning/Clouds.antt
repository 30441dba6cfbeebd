-- ===== src/Reasoning/Clouds.antt =====
-- Which cloud is primary (reasoning.rs, `configured_clouds`, `resolve_cloud_primary`).
use ibis_assistant.Prelude.{
  ◌≡◌, ◌⊎◌, inl, inr, refl, Bool, true, false, not, ◌&&◌, List, [], ◌∷◌, all, arith, if◌then◌else◌,
}
use ibis_assistant.Text.{Text, str, text_eq, is_empty}
use ibis_assistant.Text.Trim.{trim}
use ibis_assistant.Reasoning.{
  ReasoningConfig, order_or_default, cloud_has_credentials, with_credentials, configured_clouds,
  first_or_empty, resolve_cloud_primary,
}

module _ (to_lowercase : Text → Text) (r : ReasoningConfig) where
  with_credentials-all :
      (names : List Text)
      → all (cloud_has_credentials to_lowercase r) (with_credentials to_lowercase r names) ≡ true
  unfolding with_credentials
  with_credentials-all [] = refl
  with_credentials-all (name ∷ names) = ground (arith, with_credentials-all names)

  first-credentials :
      (names : List Text)
      → all (cloud_has_credentials to_lowercase r) names ≡ true
      → (first_or_empty names ≡ [])
        ⊎ (cloud_has_credentials to_lowercase r (first_or_empty names) ≡ true)
  first-credentials [] h = inl refl
  first-credentials (name ∷ names) h = inr (ground arith)

  keep_credentials :
      (asked : Bool) (forced first : Text)
      → (asked ≡ true → cloud_has_credentials to_lowercase r forced ≡ true)
      → (first ≡ []) ⊎ (cloud_has_credentials to_lowercase r first ≡ true)
      → ((if asked then forced else first) ≡ [])
        ⊎ (cloud_has_credentials to_lowercase r (if asked then forced else first) ≡ true)
  keep_credentials true forced first f h = inr (f refl)
  keep_credentials false forced first f h = h

  -- The primary cloud has credentials, whatever cloud is asked for, or there is none.
  primary_has_credentials :
      (resolve_cloud_primary to_lowercase r ≡ [])
      ⊎ (cloud_has_credentials to_lowercase r (resolve_cloud_primary to_lowercase r) ≡ true)
  unfolding resolve_cloud_primary configured_clouds
  primary_has_credentials =
      let forced = to_lowercase (trim r.routing.cloud_provider) in
      let order = order_or_default r.routing.cloud_fallback_order in
      let names = with_credentials to_lowercase r order in
      keep_credentials
        (not (is_empty forced)
          && not (text_eq forced (str "auto"))
          && cloud_has_credentials to_lowercase r forced)
        forced (first_or_empty names) (λ h. ground arith)
        (first-credentials names (with_credentials-all order))
