-- ===== src/Git/Credentials/Hosts.antt =====
-- The host of a remote, however its URL is written (resolve.rs).
use ibis_assistant.Prelude.{
  ℕ, ◌≡◌, refl, ap, ◌∙◌, Bool, true, false, some, List, [], ◌∷◌, ◌++◌, any, any-append-false, arith,
  ◌==◌, if◌then◌else◌,
}
use ibis_assistant.Text.{Text, str}
use ibis_assistant.Text.Split.{
  contains, cons_first, starts_with, starts_with-append, strip_prefix, split, split-append,
  rsplit_once, rsplit_once-append,
}
use ibis_assistant.Claims.Scalar.Plain.{contains-append}
use ibis_assistant.Access.Origin.{split_separator, ends_authority, take_authority, drop_userinfo}
use ibis_assistant.Access.Origin.Url.{is_tail, take_authority-append}
use ibis_assistant.Text.Lines.{IsSome, split-IsSome}
use ibis_assistant.Git.Credentials.{head_part, scp_host, get_host}

-- the part in front of the first separator, character by character
head_part-cons :
    (sep c : ℕ) (s : Text)
    → head_part (split sep (c ∷ s)) ≡ (if c == sep then [] else c ∷ head_part (split sep s))
unfolding split
head_part-cons sep c s = go (c == sep) (split sep s)
  where
    go :
        (t : Bool) (l : List Text)
        → head_part (if t then [] ∷ l else cons_first c l) ≡ (if t then [] else c ∷ head_part l)
    go true l = refl
    go false [] = refl
    go false (x ∷ l) = refl

head_part-append :
    (sep : ℕ) (a b : Text) → contains sep a ≡ false → head_part (split sep (a ++ (sep ∷ b))) ≡ a
head_part-append sep a b h = rw (split-append sep a b h)

-- in front of a colon, and of an `@` if there is one behind it
head_parts-append :
    (a b : Text)
    → contains b':' a ≡ false
    → contains b'@' a ≡ false
    → head_part (split b':' (head_part (split b'@' (a ++ (b':' ∷ b))))) ≡ a
head_parts-append [] b h k =
    rw (head_part-cons b'@' b':' b, head_part-cons b':' b':' (head_part (split b'@' b)))
head_parts-append (c ∷ a) b h k = ground (
  arith,
  head_part-cons b'@' c (a ++ (b':' ∷ b)),
  head_part-cons b':' c (head_part (split b'@' (a ++ (b':' ∷ b)))),
  head_parts-append a b,
)

split_separator-append :
    (scheme rest : Text)
    → contains b':' scheme ≡ false
    → split_separator (scheme ++ (str "://" ++ rest)) ≡ some (scheme, rest)
unfolding split_separator strip_prefix
split_separator-append [] rest h = refl
split_separator-append (c ∷ s) rest h = ground (arith, split_separator-append s rest)

-- a text with `@` is no prefix of one that has none up to a character that is not in the first
starts_with-none :
    (p s : Text) (c : ℕ) (rest : Text)
    → contains b'@' p ≡ true
    → contains c p ≡ false
    → contains b'@' s ≡ false
    → starts_with p (s ++ (c ∷ rest)) ≡ false
unfolding starts_with
starts_with-none [] s c rest h k l = cc
starts_with-none (q ∷ p) [] c rest h k l = ground arith
starts_with-none (q ∷ p) (d ∷ s) c rest h k l = ground (arith, starts_with-none p s c rest)

-- the part that `get_host` takes of what `git@` starts
scp_host-IsSome :
    (user : Text) (l : List Text)
    → IsSome b'@' l
    → scp_host (user ∷ l) ≡ some (head_part (split b':' (head_part l)))
scp_host-IsSome user [] h = absurd h
scp_host-IsSome user (x ∷ l) h = refl

get_host-url :
    (scheme rest : Text)
    → contains b':' scheme ≡ false
    → contains b'@' scheme ≡ false
    → get_host (scheme ++ (str "://" ++ rest)) ≡ (
        let authority = take_authority rest in
        some (head_part (split b':' (drop_userinfo authority (rsplit_once b'@' authority)))))
unfolding get_host
get_host-url scheme rest h k = rw (
  starts_with-none (str "git@") scheme b':' (str "//" ++ rest) refl refl k,
  split_separator-append scheme rest h,
)

module _ (host : Text) (no_colon : contains b':' host ≡ false) (no_at : contains b'@' host ≡ false)
    (host_plain : any ends_authority host ≡ false) where
  get_host-scp : (path : Text) → get_host (str "git@" ++ (host ++ (b':' ∷ path))) ≡ some host
  unfolding get_host
  get_host-scp path =
      let rest = host ++ (b':' ∷ path) in
      rw
        (
          starts_with-append (str "git@") rest,
          split-append b'@' (str "git") rest refl,
          scp_host-IsSome (str "git") (split b'@' rest) (split-IsSome b'@' rest),
        )
        (ap some (head_parts-append host path no_colon no_at))

  module _ (scheme user port path : Text) (scheme_no_colon : contains b':' scheme ≡ false)
      (scheme_no_at : contains b'@' scheme ≡ false) (user_plain : any ends_authority user ≡ false)
      (port_no_at : contains b'@' port ≡ false) (port_plain : any ends_authority port ≡ false)
      (path_tail : is_tail path ≡ true) where
    abbrev pub authority : Text
    authority = user ++ (b'@' ∷ (host ++ (b':' ∷ port)))

    authority-plain : any ends_authority authority ≡ false
    authority-plain =
        any-append-false ends_authority user (b'@' ∷ (host ++ (b':' ∷ port))) user_plain
          (any-append-false ends_authority host (b':' ∷ port) host_plain port_plain)

    -- A remote has the same host however its URL is written: as `git@host:path`, whatever the path,
    -- and as a URL with a scheme, a user and a password that may hold `@` and colons, and a port.
    pub get_host-forms :
        (scp_path : Text)
        → (get_host (scheme ++ (str "://" ++ (authority ++ path))) ≡ some host)
          × (get_host (str "git@" ++ (host ++ (b':' ∷ scp_path))) ≡ some host)
    get_host-forms scp_path = (
      get_host-url scheme (authority ++ path) scheme_no_colon scheme_no_at
          ∙ rw
              (
                take_authority-append authority path authority-plain path_tail,
                rsplit_once-append b'@' user (host ++ (b':' ∷ port))
                    (contains-append b'@' host (b':' ∷ port) ∙ rw (no_at, port_no_at)),
              )
              (ap some (head_part-append b':' host port no_colon)),
      get_host-scp scp_path,
    )
