-- ===== src/Settings/Query/Encoded.antt =====
-- What `query_value` (crates/ibis-settings/src/http.rs) reads of a query whose names and values are
-- written byte by byte as `%XX`.
use ibis_assistant.Prelude.{
  ◌≡◌, refl, ap, ◌∙◌, ℕ, ◌+◌, ◌-◌, ◌/◌, ◌%◌, ◌<◌, true, false, Option, none, some, List, [], ◌∷◌,
  ◌++◌, map, ltb, ◌==◌, ◌&&◌, ◌||◌, if◌then◌else◌, arith, All, any-append-false,
}
use ibis_assistant.Text.{Text, text_eq}
use ibis_assistant.Text.Split.{split, join, contains, split_once-append, split_none}
use ibis_assistant.Text.Lines.{split-join}
use ibis_assistant.Settings.Query.{
  hex_digit, escaped, plain, percent_decode, find_pair, query_value,
}

abbrev pub hex_char : ℕ → ℕ
hex_char n = if ltb n 10 then n + b'0' else n - 10 + b'A'

-- each byte as `%XX`
unfoldable pub encode : List ℕ → List ℕ
encode [] = []
encode (b ∷ bs) = b'%' ∷ hex_char (b / 16) ∷ hex_char (b % 16) ∷ encode bs

abbrev pub IsByte : ℕ → Type 0
IsByte b = b < 256

hex_digit-hex_char : (n : ℕ) → n < 16 → hex_digit (hex_char n) ≡ some n
unfolding hex_digit
hex_digit-hex_char n h = ground arith

escaped-byte : (b : ℕ) → IsByte b → escaped b'%' (hex_char (b / 16)) (hex_char (b % 16)) ≡ some b
unfolding escaped
escaped-byte b h =
    rw (hex_digit-hex_char (b / 16) (omega arith), hex_digit-hex_char (b % 16) (omega arith))
      (ap some (omega arith))

percent_decode-escaped :
    (b x y byte : ℕ) (rest : List ℕ)
    → escaped b x y ≡ some byte
    → percent_decode (b ∷ x ∷ y ∷ rest) ≡ byte ∷ percent_decode rest
unfolding percent_decode
percent_decode-escaped b x y byte rest e =
    ap
      (λ o. elim o as (λ _. List ℕ) [
        | some byte ↦ byte ∷ percent_decode rest
        | none ↦ plain b ∷ percent_decode (x ∷ y ∷ rest)
      ])
      e

percent_decode-encode : (bs : List ℕ) → All IsByte bs → percent_decode (encode bs) ≡ bs
unfolding percent_decode encode
percent_decode-encode [] h = refl
percent_decode-encode (b ∷ bs) h =
    percent_decode-escaped b'%' (hex_char (b / 16)) (hex_char (b % 16)) b (encode bs)
      (escaped-byte b h.0)
    ∙ ap (λ l. b ∷ l) (percent_decode-encode bs h.1)

-- a character that stands in no hexadecimal number, and is not the mark
abbrev IsFree : ℕ → Type 0
IsFree c = ((ltb c b'0' || (ltb b'9' c && ltb c b'A')) ≡ true) × ((b'%' == c) ≡ false)

module _ (sep : ℕ) (free : IsFree sep) where
  encode-contains : (bs : List ℕ) → contains sep (encode bs) ≡ false
  unfolding encode
  encode-contains [] = refl
  encode-contains (b ∷ bs) = let f = free.0 in let m = free.1 in ground (arith, encode-contains bs)

split-joined :
    (sep : ℕ) (x : Text) (xs : List Text)
    → All (λ t. contains sep t ≡ false) (x ∷ xs)
    → split sep (join sep (x ∷ xs)) ≡ x ∷ xs
unfolding join
split-joined sep x [] h = split_none sep x h.0
split-joined sep x (y ∷ xs) h =
    split-join sep x (join sep (y ∷ xs))
    ∙ ap (λ l. l ++ split sep (join sep (y ∷ xs))) (split_none sep x h.0)
    ∙ ap (λ l. x ∷ l) (split-joined sep y xs h.1)

abbrev pub Pair : Type 0
Pair = List ℕ × List ℕ

abbrev pub pair_text : Pair → List ℕ
pair_text (k, v) = encode k ++ (b'=' ∷ encode v)

unfoldable pub query_of : List Pair → List ℕ
query_of pairs = join b'&' (map pair_text pairs)

abbrev pub IsPair : Pair → Type 0
IsPair (k, v) = All IsByte k × All IsByte v

module _ (decode : List ℕ → Text) where
  -- the value of the first pair with the name
  unfoldable pub first_value : Text → List Pair → Option Text
  first_value key [] = none
  first_value key ((k, v) ∷ pairs) =
      let later = first_value key pairs in if text_eq (decode k) key then some (decode v) else later

  find_pair-texts :
      (key : Text) (pairs : List Pair)
      → All IsPair pairs
      → find_pair decode key (map pair_text pairs) ≡ first_value key pairs
  unfolding find_pair first_value
  find_pair-texts key [] h = refl
  find_pair-texts key ((k, v) ∷ pairs) h = rw (
    split_once-append b'=' (encode k) (encode v) (encode-contains b'=' (refl, refl) k),
    percent_decode-encode k h.0.0,
    percent_decode-encode v h.0.1,
    find_pair-texts key pairs h.1,
  )

  pair_text-contains : (p : Pair) → contains b'&' (pair_text p) ≡ false
  pair_text-contains (k, v) =
      any-append-false (λ c. c == b'&') (encode k) (b'=' ∷ encode v)
        (encode-contains b'&' (refl, refl) k) (encode-contains b'&' (refl, refl) v)

  pairs-contains : (pairs : List Pair) → All (λ t. contains b'&' t ≡ false) (map pair_text pairs)
  pairs-contains [] = tt
  pairs-contains (p ∷ pairs) = (pair_text-contains p, pairs-contains pairs)

  -- In a query whose names and values are written byte by byte as `%XX`, the value of the first
  -- pair with the name is found, whatever bytes they hold.
  pub query_value-encoded :
      (key : Text) (p : Pair) (pairs : List Pair)
      → All IsPair (p ∷ pairs)
      → query_value decode (some (query_of (p ∷ pairs))) key ≡ first_value key (p ∷ pairs)
  unfolding query_value query_of
  query_value-encoded key p pairs h =
      ap (find_pair decode key)
        (split-joined b'&' (pair_text p) (map pair_text pairs) (pairs-contains (p ∷ pairs)))
      ∙ find_pair-texts key (p ∷ pairs) h
