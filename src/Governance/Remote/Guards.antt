-- ===== src/Governance/Remote/Guards.antt =====
-- Calls that differ only behind a guard that fails (mod.rs, share.rs).
use ibis_assistant.Prelude.{
  ◌≡◌, refl, Bool, true, false, not, Option, none, some, [], ◌∷◌, if◌then◌else◌,
}
use ibis_assistant.Effect.{Fallible, ok, err, is_ok, Action}
use ibis_assistant.Text.{Text, text_eq, is_empty}
use ibis_assistant.Text.Trim.{trim}
use ibis_assistant.Text.Run.{text_runs}
use ibis_assistant.Governance.{Memory, Result, try, found_memory}

-- two tests that fail alike
pub if-same :
    {S A : Type 0} (b : Bool) (x y z : Action S A) (s : S)
    → y s ≡ z s
    → (if b then x else y) s ≡ (if b then x else z) s
if-same true x y z s h = refl
if-same false x y z s h = h

-- a guard that fails in both
pub guard-same :
    {S A : Type 0} (b : Bool) (x y z : Action S A) (s : S)
    → b ≡ false
    → (if not b then x else y) s ≡ (if not b then x else z) s
guard-same true x y z s h = cc
guard-same false x y z s h = refl

pub try-same :
    {S A B : Type 0} (r : Result A) (f g : A → Action S (Result B)) (s : S)
    → is_ok r ≡ false
    → try r f s ≡ try r g s
try-same (ok a) f g s h = cc
try-same (err e) f g s h = refl

pub try-cong :
    {S A B : Type 0} (r : Result A) (f g : A → Action S (Result B)) (s : S)
    → ((a : A) → f a s ≡ g a s)
    → try r f s ≡ try r g s
try-cong (ok a) f g s h = h a
try-cong (err e) f g s h = refl

pub found-same :
    {S B : Type 0} (id : Text) (row : Fallible Text (Option Memory))
    (f g : Memory → Action S (Result B)) (s : S)
    → ((memory : Memory) → row ≡ ok (some memory) → f memory s ≡ g memory s)
    → try (found_memory id row) f s ≡ try (found_memory id row) g s
found-same id (err e) f g s h = refl
found-same id (ok none) f g s h = refl
found-same id (ok (some memory)) f g s h = h memory refl

pub text_eq_nil : (t : Text) → is_empty t ≡ false → text_eq t [] ≡ false
unfolding text_eq is_empty
text_eq_nil [] h = h
text_eq_nil (c ∷ t) h = refl

pub trim_nonempty : (t : Text) → is_empty (trim t) ≡ false → is_empty t ≡ false
unfolding text_runs
trim_nonempty [] h = h
trim_nonempty (c ∷ t) h = refl

pub if-const : {A : Type 0} (b : Bool) (x : A) → (if b then x else x) ≡ x
if-const true x = refl
if-const false x = refl
