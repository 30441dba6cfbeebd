-- ===== src/Claims/RoundTrip/Lines.antt =====
-- The lines of a rendered claim, cut out of its text again (claims.rs, `render` and `parse`).
use ibis_assistant.Prelude.{
  ℕ, ◌≡◌, refl, ap, ◌∙◌, Bool, true, false, not, ◌&&◌, some, List, [], ◌∷◌, ◌++◌, map, arith, ◌==◌,
  all, all-append,
}
use ibis_assistant.Text.{Text, str, text_eq}
use ibis_assistant.Text.Split.{contains, split, split-append, join-split}
use ibis_assistant.Claims.{Claim}
use ibis_assistant.Claims.Scalar.{scalar, has_pair}
use ibis_assistant.Claims.Scalar.Plain.{scalar_clean, no_line_feed, contains-append}
use ibis_assistant.Claims.Render.{field_line, optional, path_line, paths_lines, unlines, fence}
use ibis_assistant.Claims.Parse.{
  trim_cr, cons_front, split_front, unix_lines, strip_line_feed, read_body,
}
use ibis_assistant.Claims.RoundTrip.Front.{canonical, last_lines}

abbrev starts_dash : Text → Bool
starts_dash [] = false
starts_dash (c ∷ _) = c == b'-'

-- a line that is one line, and not a fence
abbrev pub is_plain : Text → Bool
is_plain l = not (contains b'\n' l) && not (starts_dash l)

split-unlines :
    (ls : List Text) (rest : Text)
    → all is_plain ls ≡ true
    → split b'\n' (unlines ls rest) ≡ ls ++ split b'\n' rest
unfolding unlines
split-unlines [] rest h = refl
split-unlines (l ∷ ls) rest h =
    split-append b'\n' l (unlines ls rest) (ground arith)
    ∙ ap (◌∷◌ l) (split-unlines ls rest (ground arith))

plain-not_fence : (l : Text) → is_plain l ≡ true → text_eq (trim_cr l) fence ≡ false
unfolding text_eq trim_cr
plain-not_fence [] h = refl
plain-not_fence (c ∷ []) h = ground arith
plain-not_fence (c ∷ d ∷ s) h = ground arith

fence_closes : text_eq (trim_cr fence) fence ≡ true
unfolding text_eq trim_cr
fence_closes = refl

split_front-plain :
    (ls rest : List Text)
    → all is_plain ls ≡ true
    → split_front (ls ++ (fence ∷ rest)) ≡ some (ls, rest)
unfolding split_front
split_front-plain [] rest h = rw fence_closes
split_front-plain (l ∷ ls) rest h =
    rw (plain-not_fence l (ground arith))
      (ap (cons_front l) (split_front-plain ls rest (ground arith)))

scalar_line : (s : Text) → contains b'\n' (scalar s) ≡ false
scalar_line s = no_line_feed (scalar s) (scalar_clean s)

optional-plain :
    (n : ℕ) (name v : Text)
    → is_plain (n ∷ name) ≡ true
    → all is_plain (optional (n ∷ name) v) ≡ true
optional-plain n name v h =
    ground (arith, contains-append b'\n' (n ∷ name) (b':' ∷ b' ' ∷ scalar v), scalar_line v)

paths-plain : (ps : List Text) → all is_plain (map path_line ps) ≡ true
paths-plain [] = refl
paths-plain (p ∷ ps) = ground (arith, scalar_line p, paths-plain ps)

paths_lines-plain : (ps : List Text) → all is_plain (paths_lines ps) ≡ true
unfolding paths_lines
paths_lines-plain [] = refl
paths_lines-plain (p ∷ ps) = paths-plain (p ∷ ps)

module _ {Time : Type 0} (c : Claim Time) (q : Text) where
  pub canonical-plain : contains b'\n' q ≡ false → all is_plain (canonical c q) ≡ true
  canonical-plain h = rw (
    scalar_line c.id,
    scalar_line c.kind,
    scalar_line c.title,
    all-append is_plain (optional (str "visibility") c.visibility)
        (paths_lines c.related_paths ++ last_lines c q),
    all-append is_plain (paths_lines c.related_paths) (last_lines c q),
    all-append is_plain (optional (str "supersedes") c.supersedes)
        (field_line (str "created") q ∷ optional (str "redacted") c.redacted),
    optional-plain b'v' (str "isibility") c.visibility refl,
    paths_lines-plain c.related_paths,
    optional-plain b's' (str "upersedes") c.supersedes refl,
    optional-plain b'r' (str "edacted") c.redacted refl,
    h,
  )

unlines-append :
    (ls ms : List Text) (rest : Text) → unlines (ls ++ ms) rest ≡ unlines ls (unlines ms rest)
unfolding unlines
unlines-append [] ms rest = refl
unlines-append (l ∷ ls) ms rest = ap (λ t. l ++ (b'\n' ∷ t)) (unlines-append ls ms rest)

split-fence : (rest : Text) → split b'\n' (unlines (fence ∷ []) rest) ≡ fence ∷ split b'\n' rest
unfolding unlines
split-fence rest = split-append b'\n' fence rest refl

-- Behind the opening fence, the lines of a front matter are split from the rest again.
pub split_front-unlines :
    (ls : List Text) (rest : Text)
    → all is_plain ls ≡ true
    → split_front (split b'\n' (unlines (ls ++ fence ∷ []) rest)) ≡ some (ls, split b'\n' rest)
split_front-unlines ls rest h =
    rw
      (
        unlines-append ls (fence ∷ []) rest,
        split-unlines ls (unlines (fence ∷ []) rest) h,
        split-fence rest,
      )
      (split_front-plain ls (split b'\n' rest) h)

unix_lines_id : (s : Text) → has_pair b'\r' b'\n' s ≡ false → unix_lines s ≡ s
unfolding unix_lines has_pair
unix_lines_id [] h = refl
unix_lines_id (c ∷ []) h = refl
unix_lines_id (c ∷ d ∷ s) h = ground (arith, unix_lines_id (d ∷ s))

unix_lines-cons : (s : Text) → has_pair b'\r' b'\n' s ≡ false → unix_lines (b'\n' ∷ s) ≡ b'\n' ∷ s
unfolding unix_lines
unix_lines-cons [] h = refl
unix_lines-cons (d ∷ s) h = ap (◌∷◌ b'\n') (unix_lines_id (d ∷ s) h)

-- The body comes back without the empty line in front of it.
pub read_body-split :
    (body : Text)
    → has_pair b'\r' b'\n' body ≡ false
    → read_body (split b'\n' (b'\n' ∷ body)) ≡ body
unfolding read_body strip_line_feed
read_body-split body h =
    ap strip_line_feed (ap unix_lines (join-split b'\n' (b'\n' ∷ body)) ∙ unix_lines-cons body h)
