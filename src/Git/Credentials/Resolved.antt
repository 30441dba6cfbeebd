-- ===== src/Git/Credentials/Resolved.antt =====
-- Which credential a remote gets (resolve.rs with store.rs).
use ibis_assistant.Prelude.{◌≡◌, ◌∙◌, true, false, Option, none, some}
use ibis_assistant.Effect.{ok}
use ibis_assistant.Text.{Text, text_eq_refl, is_empty}
use ibis_assistant.Text.Trim.{trim}
use ibis_assistant.Git.Credentials.{
  Credential, CredentialDb, get_host, save_credential, get_credential, given_token, from_store,
  resolve_credential,
}
use ibis_assistant.Git.Credentials.Stored.{
  starts_lower, IsCredentialDb, key_of, get_credential-save,
}

module _ {S Value : Type 0} (db : CredentialDb S Value) (rows : S → Text → Option Value)
    (to_value : Credential → Value) (lawful : IsCredentialDb db rows to_value)
    (to_lowercase : Text → Text) where
  -- A credential that was saved, without an error, for a host whose key begins with a lower-case
  -- letter is used for every remote whose host has the same key, where the request brings no token
  -- and none is stored for the URL: also if it is another host, and whatever token the configuration
  -- has. The database keeps what is written under a record id.
  pub saved_host-resolve_credential :
      (cred : Credential) (s s' : S) (url host : Text) (legacy_token : Option Text)
      → save_credential to_lowercase (some db) cred s ≡ (ok tt, s')
      → starts_lower (key_of to_lowercase cred.target) ≡ true
      → get_host url ≡ some host
      → is_empty (trim url) ≡ false
      → is_empty host ≡ false
      → get_credential to_lowercase (some db) url s' ≡ (ok none, s')
      → key_of to_lowercase host ≡ key_of to_lowercase cred.target
      → resolve_credential to_lowercase none (some (some db)) url legacy_token s' ≡ (some cred, s')
  unfolding resolve_credential from_store
  saved_host-resolve_credential cred s s' url host legacy_token saved key h u n missing same =
      let host_key : starts_lower (key_of to_lowercase host) ≡ true = rw same key in
      let found : get_credential to_lowercase (some db) host s' ≡ (ok (some cred), s') =
        get_credential-save db rows to_value lawful to_lowercase cred s s' saved key host host_key
        ∙ rw (same, text_eq_refl (key_of to_lowercase cred.target)) in
      rw (u, missing, h, n, found)

  -- The token of a request goes before all that is stored or configured, and the store is not asked.
  request_token_first :
      (token url : Text) (store : Option (Option (CredentialDb S Value)))
      (legacy_token : Option Text) (s : S)
      → is_empty token ≡ false
      → resolve_credential to_lowercase (some token) store url legacy_token s
        ≡ (given_token url (some token), s)
  unfolding resolve_credential
  request_token_first token url store legacy_token s h = rw h
