-- ===== src/Claims/Parse/Strict.antt =====
-- What the front matter may not hold (claims.rs, the loop of `parse`).
use ibis_assistant.Prelude.{
  ◌≡◌, refl, ap, sym, ◌∙◌, true, false, Option, none, some, List, [], ◌∷◌, ◌++◌, arith,
}
use ibis_assistant.Effect.{ok, err, is_ok}
use ibis_assistant.Text.{Text, text_eq_refl}
use ibis_assistant.Text.Trim.{trim}
use ibis_assistant.Text.Split.{split_once}
use ibis_assistant.Text.Map.{lookup, lookup-insert}
use ibis_assistant.Claims.{Result, key_matches, is_some, ◌>>=◌}
use ibis_assistant.Claims.Scalar.{list_item}
use ibis_assistant.Claims.Parse.{
  Front, trim_cr, front_line, colon_line, indented_line, key_line, front_matter,
}
use ibis_assistant.Claims.Parse.Line.{front_line-value}

-- a key that is there stays there
key_line-keeps :
    (st st' : Front) (line key value j : Text)
    → key_line st line key value ≡ ok st'
    → is_some (lookup j st.fields) ≡ true
    → is_some (lookup j st'.fields) ≡ true
unfolding key_line
key_line-keeps st st' line key value j h e = ground (arith, lookup-insert key j value st.fields)

colon_line-keeps :
    (st st' : Front) (line j : Text) (o : Option (Text × Text))
    → colon_line st line o ≡ ok st'
    → is_some (lookup j st.fields) ≡ true
    → is_some (lookup j st'.fields) ≡ true
unfolding colon_line
colon_line-keeps st st' line j none h e = cc
colon_line-keeps st st' line j (some (key, value)) h e =
    ground (arith, key_line-keeps st st' line (trim key) (trim value) j)

indented_line-keeps :
    (st st' : Front) (j : Text) (o : Option Text)
    → indented_line st o ≡ ok st'
    → is_some (lookup j st.fields) ≡ true
    → is_some (lookup j st'.fields) ≡ true
unfolding indented_line
indented_line-keeps st st' j none h e = cc
indented_line-keeps st st' j (some p) h e = ground arith

front_line-keeps :
    (st st' : Front) (l j : Text)
    → front_line st l ≡ ok st'
    → is_some (lookup j st.fields) ≡ true
    → is_some (lookup j st'.fields) ≡ true
unfolding front_line
front_line-keeps st st' l j h e = ground (
  arith,
  indented_line-keeps st st' j (list_item (trim_cr l)),
  colon_line-keeps st st' (trim_cr l) j (split_once b':' (trim_cr l)),
)

key_line-puts :
    (st st' : Front) (line key value : Text)
    → key_line st line key value ≡ ok st'
    → is_some (lookup key st'.fields) ≡ true
unfolding key_line
key_line-puts st st' line key value h =
    ground (arith, lookup-insert key key value st.fields, text_eq_refl key)

key_line-refuses :
    (st : Front) (line key value : Text)
    → is_some (lookup key st.fields) ≡ true
    → is_ok (key_line st line key value) ≡ false
unfolding key_line
key_line-refuses st line key value e = ground arith

-- a chain fails if what follows fails on every result of the first part
bind-fails :
    {A B : Type 0} (r : Result A) (f : A → Result B)
    → ((a : A) → r ≡ ok a → is_ok (f a) ≡ false)
    → is_ok (r >>= f) ≡ false
bind-fails (ok a) f h = h a refl
bind-fails (err _) f h = refl

module _ (k w : Text) (k_ok : key_matches k ≡ true) where
  front_matter-again :
      (st : Front) (ls zs : List Text)
      → is_some (lookup k st.fields) ≡ true
      → is_ok (front_matter st (ls ++ ((k ++ (b':' ∷ w)) ∷ zs))) ≡ false
  unfolding front_matter
  front_matter-again st [] zs e =
      bind-fails (front_line st (k ++ (b':' ∷ w))) (λ st'. front_matter st' zs)
        (λ st' h. ground (
          arith,
          ap is_ok h,
          ap is_ok (front_line-value st k w k_ok)
              ∙ key_line-refuses st (k ++ (b':' ∷ trim_cr w)) k (trim (trim_cr w)) e,
        ))
  front_matter-again st (l ∷ ls) zs e =
      bind-fails (front_line st l) (λ st'. front_matter st' (ls ++ ((k ++ (b':' ∷ w)) ∷ zs)))
        (λ st' h. front_matter-again st' ls zs (front_line-keeps st st' l k h e))

  -- A front matter in which a key stands twice is refused, wherever its two lines stand and
  -- whatever their values and line ends are.
  pub front_matter_duplicate :
      (st : Front) (v : Text) (xs ys zs : List Text)
      → is_ok (front_matter st (xs ++ ((k ++ (b':' ∷ v)) ∷ (ys ++ ((k ++ (b':' ∷ w)) ∷ zs)))))
        ≡ false
  unfolding front_matter
  front_matter_duplicate st v [] ys zs =
      bind-fails (front_line st (k ++ (b':' ∷ v)))
        (λ st'. front_matter st' (ys ++ ((k ++ (b':' ∷ w)) ∷ zs)))
        (λ st' h. front_matter-again st' ys zs (
          key_line-puts st st' (k ++ (b':' ∷ trim_cr v)) k (trim (trim_cr v))
            (sym (front_line-value st k v k_ok) ∙ h)))
  front_matter_duplicate st v (l ∷ xs) ys zs =
      bind-fails (front_line st l)
        (λ st'. front_matter st' (xs ++ ((k ++ (b':' ∷ v)) ∷ (ys ++ ((k ++ (b':' ∷ w)) ∷ zs)))))
        (λ st' h. front_matter_duplicate st' v xs ys zs)
