-- ===== src/Records/Value.antt =====
-- Ids in the values of the driver (ids.rs, `format_record`, `record_id_to_plain`,
-- `coerce_record_id`). `to_sql` is the driver's rendering of what is no id.
pub mod Formatted
use ibis_assistant.Prelude.{
  ◌≡◌, refl, Option, none, some, List, [], ◌∷◌, ◌++◌, Bool, true, false, not, arith, if◌then◌else◌,
}
use ibis_assistant.Text.{Text, str, is_empty, text_eq}
use ibis_assistant.Text.Split.{contains}
use ibis_assistant.Text.Number.{ℤ, int_text}
use ibis_assistant.Records.{format_record_id}

pub data RecordKey (Other : Type 0) : Type 0 where
  number : ℤ → RecordKey Other
  string : Text → RecordKey Other
  other : Other → RecordKey Other

pub record RecordId (Other : Type 0) : Type 0 where
  pub table : Text
  pub key : RecordKey Other

mutual
  pub data Value (Other : Type 0) : Type 0 where
    none_value : Value Other
    null : Value Other
    text : Text → Value Other
    record_id : RecordId Other → Value Other
    object : Fields Other → Value Other
    rest : Other → Value Other

  pub data Fields (Other : Type 0) : Type 0 where
    no_field : Fields Other
    field : Text → Value Other → Fields Other → Fields Other

module _ {Other : Type 0} (to_sql : Other → Text) where
  unfoldable pub format_record : RecordId Other → Text
  format_record r = elim r.key [
    | number n ↦ r.table ++ (b':' ∷ int_text n)
    | string s ↦ format_record_id r.table s
    | other o ↦ format_record_id r.table (to_sql o)
  ]

  unfoldable pub record_id_to_plain : RecordId Other → Text
  record_id_to_plain r = elim r.key [
    | number n ↦ r.table ++ (b':' ∷ int_text n)
    | string s ↦ r.table ++ (b':' ∷ s)
    | other o ↦ r.table ++ (b':' ∷ to_sql o)
  ]

  -- `get(key)` of an object, if it is a string; and the empty text if not
  unfoldable pub get_text : Text → Fields Other → Text
  get_text k no_field = []
  get_text k (field j v fs) = elim (text_eq j k) [
    | true ↦ elim v [ text s ↦ s | _ ↦ [] ]
    | false ↦ get_text k fs
  ]

  -- the first that is not empty
  abbrev pub or_text : Text → Text → Text
  or_text a b = if is_empty a then b else a

  unfoldable pub coerce_record_id_map : Fields Other → Text
  unfolding get_text
  coerce_record_id_map fs =
      let id_val = or_text (get_text (str "id") fs) (get_text (str "ID") fs) in
      let tb =
        or_text (or_text (get_text (str "tb") fs) (get_text (str "table") fs))
          (get_text (str "Table") fs) in
      if is_empty id_val
      then []
      else if contains b':' id_val
      then id_val
      else if not (is_empty tb)
      then tb ++ (b':' ∷ id_val)
      else id_val

  unfoldable pub coerce_record_id : Value Other → Text
  coerce_record_id none_value = []
  coerce_record_id null = []
  coerce_record_id (text s) = s
  coerce_record_id (record_id r) = record_id_to_plain r
  coerce_record_id (object fs) = coerce_record_id_map fs
  coerce_record_id (rest o) = to_sql o
