-- ===== src/Ai.antt =====
-- crates/ibis-ai: the provider boundary (src/traits.rs), its errors (src/error.rs) and the request
-- (src/types.rs). A provider is code behind a trait object: it is a value of `Provider`, over a
-- world `S` that its calls read and change.
pub mod Pool
pub mod Router
pub mod Chain
pub mod Batch
pub mod Gemini
mod Tests
use ibis_assistant.Prelude.{◌⊎◌, inl, inr, ℕ, ◌≡◌, refl, Bool, true, false, List, [], ◌∷◌, ◌++◌}
pub use ibis_assistant.Effect.{Fallible, ok, err, is_ok, Action, ◌>>=◌, pure}
use ibis_assistant.Text.{Text, str}

pub data AiError : Type 0 where
  context_only no_embedding_provider no_reasoning_provider not_initialized : AiError
  not_configured : Text → AiError
  unsupported : Text → Text → AiError
  cloud_unavailable local_unavailable no_cloud_providers cloud_pool_exhausted : AiError
  deadline_exceeded cancelled : AiError
  joined : AiError → AiError → AiError
  transport : Text → AiError
  wrapped : Text → AiError → AiError
  other : Text → AiError

unfoldable pub is_context_only : AiError → Bool
is_context_only context_only = true
is_context_only _ = false

-- the `Display` that the `#[error]` attributes derive
unfoldable pub to_string : AiError → Text
to_string context_only = str "context only: no reasoning provider available"
to_string no_embedding_provider = str "no embedding provider configured"
to_string no_reasoning_provider = str "no reasoning provider configured"
to_string not_initialized = str "AI client not initialized or no keys available"
to_string (not_configured provider) = provider ++ str " not configured"
to_string (unsupported provider operation) =
    operation ++ (str " is not supported by provider '" ++ (provider ++ str "'"))
to_string cloud_unavailable = str "cloud unavailable"
to_string local_unavailable = str "local unavailable"
to_string no_cloud_providers = str "no cloud providers configured"
to_string cloud_pool_exhausted = str "cloud pool exhausted"
to_string deadline_exceeded = str "context deadline exceeded"
to_string cancelled = str "context canceled"
to_string (joined first second) = to_string first ++ (b'\n' ∷ to_string second)
to_string (transport message) = str "http transport: " ++ message
to_string (wrapped context source) = context ++ (str ": " ++ to_string source)
to_string (other message) = message

abbrev pub Result : Type 0 → Type 0
Result A = Fallible AiError A

-- `temperature` is an `f64`, which nothing here looks into.
pub record GenerationConfig (Float : Type 0) : Type 0 where
  pub temperature : Float
  pub max_output_tokens : ℕ
  pub route_hint : Text

pub record Provider (S Float Content Candidate : Type 0) : Type 0 where
  pub name : Text
  pub is_functional : Action S Bool
  pub generate_content : List Content → GenerationConfig Float → Action S (Result Candidate)

-- the next step, if this one failed
unfoldable pub or_else :
    {S Candidate : Type 0}
    → Result Candidate
    → (AiError → Action S (Result Candidate))
    → Action S (Result Candidate)
or_else (ok cand) next = pure (ok cand)
or_else (err e) next = next e

pub or_else_ok :
    {S Candidate : Type 0} (a : Result Candidate) (next : AiError → Action S (Result Candidate))
    (s : S)
    → (is_ok a ≡ true) ⊎ ((e : AiError) → is_ok (next e s).0 ≡ true)
    → is_ok (or_else a next s).0 ≡ true
unfolding or_else
or_else_ok (ok c) next s h = refl
or_else_ok (err e) next s (inl h) = cc
or_else_ok (err e) next s (inr h) = h e

pub or_else-fails :
    {S Candidate : Type 0} (a : Result Candidate) (next : AiError → Action S (Result Candidate))
    (s : S) (e : AiError)
    → (or_else a next s).0 ≡ err e
    → (x : AiError) × (a ≡ err x) × ((next x s).0 ≡ err e)
unfolding or_else
or_else-fails (ok c) next s e h = cc
or_else-fails (err x) next s e h = (x, refl, h)
