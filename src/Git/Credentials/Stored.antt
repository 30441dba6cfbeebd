-- ===== src/Git/Credentials/Stored.antt =====
-- What the store gives back of what was saved in it (store.rs).
use ibis_assistant.Prelude.{
  ◌≡◌, refl, ap, ◌∙◌, Bool, true, false, Option, none, some, List, [], ◌∷◌, if◌then◌else◌,
}
use ibis_assistant.Effect.{ok, err}
use ibis_assistant.Text.{Text, text_eq, is_empty, is_lower}
use ibis_assistant.Text.Trim.{trim}
use ibis_assistant.Records.{sanitize_id}
use ibis_assistant.Records.Sanitize.{is_sanitized, sanitize_id-IsSanitized}
use ibis_assistant.Git.{Result}
use ibis_assistant.Git.Credentials.{
  Credential, sanitize_record_key, Reply, array, CredentialDb, record_of, upsert_of, select_of,
  discard, decode_row, decode_reply, save_credential, get_credential,
}

abbrev pub starts_lower : Text → Bool
starts_lower [] = false
starts_lower (c ∷ _) = is_lower c

-- a key that the database's parser takes for a name, and for no number
abbrev pub IsKey : Text → Type 0
IsKey key = (starts_lower key ≡ true) × (is_sanitized key ≡ true)

abbrev pub rows_of : {Value : Type 0} → Option Value → List Value
rows_of none = []
rows_of (some row) = row ∷ []

-- A database that keeps one row for an id, whose rows are `rows`, and a serializer.
pub record IsCredentialDb {S Value : Type 0} (db : CredentialDb S Value)
    (rows : S → Text → Option Value) (to_value : Credential → Value) : Type 0 where
  pub selects :
      (key : Text) (s : S)
      → IsKey key
      → db.execute (select_of (record_of key)) s ≡ (ok (array (rows_of (rows s key))), s)
  pub upserts :
      (key : Text) (cred : Credential) (s s' : S) (reply : Reply Value)
      → IsKey key
      → db.smart_query (upsert_of (record_of key)) cred s ≡ (ok reply, s')
      → (asked : Text) → IsKey asked
      → rows s' asked ≡ (if text_eq asked key then some (to_value cred) else rows s asked)
  pub objects : (cred : Credential) → db.is_object (to_value cred) ≡ true
  pub reads : (cred : Credential) → db.from_value (to_value cred) ≡ ok cred

discard-eq-ok : {A : Type 0} (r : Result A) → discard r ≡ ok tt → (a : A) × (r ≡ ok a)
discard-eq-ok (ok a) h = (a, refl)
discard-eq-ok (err e) h = cc

abbrev pub key_of : (Text → Text) → Text → Text
key_of to_lowercase target = sanitize_record_key to_lowercase (trim target)

module _ {S Value : Type 0} (db : CredentialDb S Value) (rows : S → Text → Option Value)
    (to_value : Credential → Value) (lawful : IsCredentialDb db rows to_value)
    (to_lowercase : Text → Text) where
  first_of_rows :
      (row : Option Value) → decode_reply db (ok (array (rows_of row))) ≡ decode_row db row
  first_of_rows none = refl
  first_of_rows (some row) = refl

  key-not_empty : (key : Text) → starts_lower key ≡ true → is_empty key ≡ false
  unfolding is_empty
  key-not_empty [] h = cc
  key-not_empty (c ∷ key) h = refl

  key_of-IsKey :
      (target : Text)
      → starts_lower (key_of to_lowercase target) ≡ true
      → IsKey (key_of to_lowercase target)
  unfolding sanitize_record_key sanitize_id
  key_of-IsKey target h = (h, sanitize_id-IsSanitized to_lowercase (trim target))

  pub get_credential-rows :
      (target : Text) (s : S)
      → starts_lower (key_of to_lowercase target) ≡ true
      → get_credential to_lowercase (some db) target s
        ≡ (decode_row db (rows s (key_of to_lowercase target)), s)
  unfolding get_credential
  get_credential-rows target s h =
      let key = key_of to_lowercase target in
      rw (key-not_empty key h, lawful.selects key s (key_of-IsKey target h))
        (ap (λ r. (r, s)) (first_of_rows (rows s (key_of to_lowercase target))))

  decode-to_value : (cred : Credential) → decode_row db (some (to_value cred)) ≡ ok (some cred)
  decode-to_value cred = rw (lawful.objects cred, lawful.reads cred)

  decode-if :
      (same : Bool) (cred : Credential) (row : Option Value)
      → decode_row db (if same then some (to_value cred) else row)
        ≡ (if same then ok (some cred) else decode_row db row)
  decode-if true cred row = decode-to_value cred
  decode-if false cred row = refl

  module _ (cred : Credential) (s s' : S)
      (saved : save_credential to_lowercase (some db) cred s ≡ (ok tt, s'))
      (saved_key : starts_lower (key_of to_lowercase cred.target) ≡ true) where
    rows-saved :
        (asked : Text)
        → IsKey asked
        → rows s' asked ≡ (
            if text_eq asked (key_of to_lowercase cred.target)
            then some (to_value cred)
            else rows s asked)
    unfolding save_credential
    rows-saved asked h =
        let key = key_of to_lowercase cred.target in
        let sent = db.smart_query (upsert_of (record_of key)) cred s in
        let (reply, replied) = discard-eq-ok sent.0 (ap (λ r. r.0) saved) in
        lawful.upserts key cred s s' reply (key_of-IsKey cred.target saved_key)
          (ap (λ r. (r, sent.1)) replied ∙ ap (λ t. (ok reply, t)) (ap (λ r. r.1) saved)) asked h

    -- What was saved without an error is what is found, for every target with the key of the one
    -- that it was saved for; of every other target it is found what was found before. The keys of
    -- both targets begin with a lower-case letter, as those of URLs and of hosts with such a name do,
    -- and the database keeps what is written under a record id.
    pub get_credential-save :
        (target : Text)
        → starts_lower (key_of to_lowercase target) ≡ true
        → get_credential to_lowercase (some db) target s' ≡ (
          if text_eq (key_of to_lowercase target) (key_of to_lowercase cred.target)
              then ok (some cred)
              else (get_credential to_lowercase (some db) target s).0,
          s',
        )
    get_credential-save target h =
        let key = key_of to_lowercase target in
        rw
          (
            get_credential-rows target s h,
            get_credential-rows target s' h,
            rows-saved key (key_of-IsKey target h),
          )
          (ap (λ r. (r, s'))
            (decode-if (text_eq key (key_of to_lowercase cred.target)) cred (rows s key)))
