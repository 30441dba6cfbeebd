-- ===== src/Settings/Query.antt =====
-- `query_value` and `percent_decode` (crates/ibis-settings/src/http.rs). A query is the list of its
-- bytes; `decode` is `from_utf8_lossy`.
pub mod Encoded
use ibis_assistant.Prelude.{
  ℕ, ◌+◌, ◌-◌, ◌*◌, Bool, true, false, Option, none, some, List, [], ◌∷◌, ltb, leb, ◌==◌, ◌&&◌,
  if◌then◌else◌,
}
use ibis_assistant.Text.{Text, text_eq}
use ibis_assistant.Text.Split.{split, split_once}

-- `to_digit(16)`
unfoldable pub hex_digit : ℕ → Option ℕ
hex_digit c =
    if leb b'0' c && leb c b'9'
    then some (c - b'0')
    else if leb b'a' c && leb c b'f'
    then some (c - b'a' + 10)
    else if leb b'A' c && leb c b'F'
    then some (c - b'A' + 10)
    else none

abbrev pub byte_of : Option ℕ → Option ℕ → Option ℕ
byte_of (some h) (some l) = some (h * 16 + l)
byte_of _ _ = none

-- the byte that three characters stand for, if the first is the mark
unfoldable pub escaped : ℕ → ℕ → ℕ → Option ℕ
escaped b x y = if b == b'%' then byte_of (hex_digit x) (hex_digit y) else none

abbrev pub plain : ℕ → ℕ
plain b = if b == b'+' then b' ' else b

unfoldable pub percent_decode : List ℕ → List ℕ
percent_decode [] = []
percent_decode (b ∷ []) = plain b ∷ []
percent_decode (b ∷ x ∷ []) = plain b ∷ percent_decode (x ∷ [])
percent_decode (b ∷ x ∷ y ∷ rest) = elim (escaped b x y) [
  | some byte ↦ byte ∷ percent_decode rest
  | none ↦ plain b ∷ percent_decode (x ∷ y ∷ rest)
]

abbrev pub key_and_value : List ℕ → Option (List ℕ × List ℕ) → List ℕ × List ℕ
key_and_value pair none = (pair, [])
key_and_value pair (some kv) = kv

module _ (decode : List ℕ → Text) where
  unfoldable pub find_pair : Text → List (List ℕ) → Option Text
  find_pair key [] = none
  find_pair key (pair ∷ pairs) =
      let (k, v) = key_and_value pair (split_once b'=' pair) in
      let later = find_pair key pairs in
      if text_eq (decode (percent_decode k)) key then some (decode (percent_decode v)) else later

  unfoldable pub query_value : Option (List ℕ) → Text → Option Text
  unfolding find_pair
  query_value none key = none
  query_value (some query) key = find_pair key (split b'&' query)
