-- ===== src/Git/Credentials.antt =====
-- crates/ibis-git/src/resolve.rs and store.rs: which credential a git operation uses, and the store
-- of credentials. The database is a parameter; a statement is the text that is sent.
pub mod Hosts
pub mod Stored
pub mod Resolved
mod Tests
use ibis_assistant.Prelude.{
  Bool, true, false, not, Option, none, some, List, [], ◌∷◌, ◌++◌, map, any, ◌||◌, if◌then◌else◌,
}
use ibis_assistant.Effect.{Fallible, ok, err, Action, ◌>>=◌, pure}
use ibis_assistant.Text.{Text, str, is_empty}
use ibis_assistant.Text.Trim.{trim}
use ibis_assistant.Text.Split.{starts_with, contains_text, split, rsplit_once}
use ibis_assistant.Records.{underscored, drop_quotes, collapse, trim_under_start, trim_under_end}
use ibis_assistant.Access.Origin.{split_separator, take_authority, drop_userinfo}
use ibis_assistant.Git.{GitError, other, Result}

-- `AuthType` is the text in it
pub record Credential : Type 0 where
  pub target : Text
  pub provider : Text
  pub auth_type : Text
  pub token : Text
  pub username : Text
  pub ssh_private_key : Text

abbrev pub provider_generic : Text
provider_generic = str "generic"

abbrev pub token_credential : Text → Text → Text → Credential
token_credential target provider token = record {
  target = target;
  provider = provider;
  auth_type = str "token";
  token = token;
  username = [];
  ssh_private_key = [];
}

abbrev pub auth_error_markers : List Text
auth_error_markers =
    str "authentication failed"
    ∷ str "terminal prompts disabled"
    ∷ str "could not read username"
    ∷ str "fatal: could not read from remote repository"
    ∷ str "permission denied (publickey)"
    ∷ str "could not read passphrase"
    ∷ str "the requested url returned error: 403"
    ∷ str "the requested url returned error: 401"
    ∷ str "invalid username or password"
    ∷ str "repository not found"
    ∷ str "access denied"
    ∷ []

-- `next().unwrap_or("")` of what `split` gives
abbrev pub head_part : List Text → Text
head_part [] = []
head_part (part ∷ _) = part

-- `nth(1)`, and the part of it in front of a colon
abbrev pub scp_host : List Text → Option Text
scp_host [] = none
scp_host (_ ∷ []) = none
scp_host (_ ∷ after ∷ _) = some (head_part (split b':' after))

abbrev without_scheme : Text → Option (Text × Text) → Text
without_scheme raw_url none = raw_url
without_scheme raw_url (some (_, rest)) = rest

unfoldable pub get_host : Text → Option Text
get_host raw_url =
    if starts_with (str "git@") raw_url
    then scp_host (split b'@' raw_url)
    else let authority = take_authority (without_scheme raw_url (split_separator raw_url)) in
      some (head_part (split b':' (drop_userinfo authority (rsplit_once b'@' authority))))

-- the bytes are the text that they decode to
unfoldable pub is_auth_error : (Text → Text) → Text → Bool
is_auth_error to_lowercase output =
    let lowered = to_lowercase output in any (λ m. contains_text m lowered) auth_error_markers

unfoldable pub detect_provider : (Text → Text) → Text → Text
detect_provider to_lowercase raw_url =
    let lowered = to_lowercase raw_url in
    if contains_text (str "github.com") lowered
    then str "github"
    else if contains_text (str "gitlab.com") lowered
    then str "gitlab"
    else if contains_text (str "dev.azure.com") lowered
        || contains_text (str "visualstudio.com") lowered
    then str "azure_devops"
    else provider_generic

-- the replacements are those of a record id: quotes go, what is no letter, digit or underscore
-- becomes an underscore, and of a run of underscores one is left
unfoldable pub sanitize_record_key : (Text → Text) → Text → Text
sanitize_record_key to_lowercase s =
    trim_under_end
      (trim_under_start (collapse false (map underscored (drop_quotes (to_lowercase s)))))

-- the JSON value that a statement returns, as far as the code tells values apart
pub data Reply (Value : Type 0) : Type 0 where
  array : List Value → Reply Value
  null : Reply Value
  value : Value → Reply Value

-- the database and serde
pub record CredentialDb (S Value : Type 0) : Type 0 where
  pub smart_query : Text → Credential → Action S (Result (Reply Value))
  pub execute : Text → Action S (Result (Reply Value))
  pub is_object : Value → Bool
  pub from_value : Value → Fallible Text Credential

-- `CredentialStore`: the connection may be missing
abbrev pub CredentialStore : Type 0 → Type 0 → Type 0
CredentialStore S Value = Option (CredentialDb S Value)

abbrev pub record_of : Text → Text
record_of key = str "git_credential:" ++ key

abbrev pub upsert_of : Text → Text
upsert_of id = str "UPSERT " ++ id ++ str " CONTENT $cred;"

abbrev pub select_of : Text → Text
select_of id = str "SELECT * FROM " ++ id ++ str ";"

abbrev pub discard : {A : Type 0} → Result A → Result (Unit {0})
discard (ok _) = ok tt
discard (err e) = err e

abbrev first_row : {Value : Type 0} → Reply Value → Option Value
first_row (array []) = none
first_row (array (row ∷ _)) = some row
first_row null = none
first_row (value v) = some v

abbrev decode_error : Fallible Text Credential → Result (Option Credential)
decode_error (ok cred) = ok (some cred)
decode_error (err message) = err (other (str "decode credential: " ++ message))

abbrev pub given_token : Text → Option Text → Option Credential
given_token origin_url none = none
given_token origin_url (some token) =
    if is_empty token then none else some (token_credential origin_url provider_generic token)

-- `if let Ok(Some(cred))`, and what is asked where it does not match
abbrev pub or_ask :
    {S : Type 0}
    → Result (Option Credential)
    → Action S (Option Credential)
    → Action S (Option Credential)
or_ask (ok (some cred)) next = pure (some cred)
or_ask (ok none) next = next
or_ask (err _) next = next

-- a credential that is found ends the search
abbrev pub or_legacy : Option Credential → Option Credential → Option Credential
or_legacy (some cred) legacy = some cred
or_legacy none legacy = legacy

module _ {S Value : Type 0} where
  abbrev pub decode_row : CredentialDb S Value → Option Value → Result (Option Credential)
  decode_row db none = ok none
  decode_row db (some raw) =
      if not (db.is_object raw) then ok none else decode_error (db.from_value raw)

  abbrev pub decode_reply : CredentialDb S Value → Result (Reply Value) → Result (Option Credential)
  decode_reply db (ok reply) = decode_row db (first_row reply)
  decode_reply db (err e) = err e

  module _ (to_lowercase : Text → Text) where
    unfoldable pub save_credential :
        CredentialStore S Value → Credential → Action S (Result (Unit {0}))
    save_credential none cred = pure (err (other (str "database client not initialized")))
    save_credential (some db) cred = (do
      let id = record_of (sanitize_record_key to_lowercase (trim cred.target))
      reply ← db.smart_query (upsert_of id) cred
      pure (discard reply))

    unfoldable pub get_credential :
        CredentialStore S Value → Text → Action S (Result (Option Credential))
    get_credential none target s = pure (ok none) s
    get_credential (some db) target s =
        let safe_id = sanitize_record_key to_lowercase (trim target) in
        if is_empty safe_id
        then pure (ok none) s
        else (do reply ← db.execute (select_of (record_of safe_id)); pure (decode_reply db reply)) s

    abbrev by_host : CredentialStore S Value → Option Text → Action S (Option Credential)
    by_host store none s = (none, s)
    by_host store (some host) s =
        if is_empty host
        then (none, s)
        else (do found ← get_credential store host; or_ask found (pure none)) s

    unfoldable pub from_store :
        Option (CredentialStore S Value) → Text → Action S (Option Credential)
    from_store none origin_url s = (none, s)
    from_store (some store) origin_url s =
        if is_empty (trim origin_url)
        then (none, s)
        else (do
          found ← get_credential store origin_url
          or_ask found (by_host store (get_host origin_url)))
            s

    abbrev after_request :
        Option Credential
        → Option (CredentialStore S Value)
        → Text
        → Option Text
        → Action S (Option Credential)
    after_request (some cred) store origin_url legacy_token = pure (some cred)
    after_request none store origin_url legacy_token = (do
      found ← from_store store origin_url
      pure (or_legacy found (given_token origin_url legacy_token)))

    unfoldable pub resolve_credential :
        Option Text
        → Option (CredentialStore S Value)
        → Text
        → Option Text
        → Action S (Option Credential)
    resolve_credential request_token store origin_url legacy_token =
        after_request (given_token origin_url request_token) store origin_url legacy_token
