-- ===== src/Access/Actor.antt =====
-- The actor of a request (ibis-core, auth.rs, `resolve_actor`, `resolve_trusted_actor`;
-- ibis-httpserver, auth.rs, `inject_auth`, `auth_middleware`). The header map of the http crate is
-- a function from a name to the value, if there is one and it is readable as text.
use ibis_assistant.Prelude.{
  ◌≡◌, refl, Bool, true, false, not, Option, none, some, [], if◌then◌else◌, inl, inr, Bool-cases,
}
use ibis_assistant.Text.{Text, str, text_eq, is_empty}
use ibis_assistant.Text.Trim.{trim, trim_idem}
use ibis_assistant.Text.Run.{text_runs}
use ibis_assistant.Access.Peer.{is_loopback_peer}

pub record Credentials : Type 0 where
  pub redmine_key : Option Text
  pub jira_email : Option Text
  pub jira_api_token : Option Text
  pub azure_devops_pat : Option Text
  pub azure_devops_org : Option Text
  pub azure_devops_project : Option Text
  pub azure_devops_repo : Option Text
  pub git_token : Option Text
  pub actor : Option Text
  pub remote_untrusted : Bool

abbrev pub Headers : Type 0
Headers = Text → Option Text

-- a text without white space at its ends, unless nothing is left
abbrev pub some_text : Text → Option Text
some_text s = if is_empty s then none else some s

abbrev pub trimmed_option : Option Text → Option Text
trimmed_option none = none
trimmed_option (some s) = some_text (trim s)

unfoldable pub trim_header : Headers → Text → Option Text
trim_header headers name = trimmed_option (headers name)

abbrev pub or_else_text : Option Text → Option Text → Option Text
or_else_text none b = b
or_else_text (some a) _ = some a

abbrev pub text_or : Text → Option Text → Text
text_or t none = t
text_or t (some s) = s

abbrev pub unknown : Text
unknown = str "unknown"

unfoldable pub resolve_actor : Option Text → Text → Text
resolve_actor actor explicit =
    text_or unknown (or_else_text (trimmed_option actor) (some_text (trim explicit)))

unfoldable pub resolve_trusted_actor : Option Text → Text → Bool → Text
resolve_trusted_actor actor explicit remote_untrusted =
    let who = resolve_actor actor explicit in
    if remote_untrusted then [] else if text_eq who unknown then [] else who

module _ (v6_loopback : Text → Option Bool) where
  unfoldable pub inject_auth : Text → Headers → Credentials
  inject_auth peer_addr headers =
      let local = is_loopback_peer v6_loopback peer_addr in
      record {
        redmine_key = trim_header headers (str "x-redmine-api-key");
        jira_email = trim_header headers (str "x-jira-email");
        jira_api_token = trim_header headers (str "x-jira-api-token");
        azure_devops_pat = trim_header headers (str "x-azure-devops-pat");
        azure_devops_org = trim_header headers (str "x-azure-devops-org");
        azure_devops_project = trim_header headers (str "x-azure-devops-project");
        azure_devops_repo = trim_header headers (str "x-azure-devops-repo");
        git_token =
            or_else_text (trim_header headers (str "x-git-token"))
              (trim_header headers (str "x-git-pat"));
        actor = if local then trim_header headers (str "x-ibis-actor") else none;
        remote_untrusted = not local;
      }

  -- what the middleware puts into a request, with the peer's address if it is known
  unfoldable pub auth_middleware : Option Text → Headers → Credentials
  auth_middleware peer headers = inject_auth (text_or [] peer) headers

-- `resolve_trusted_actor` of the server
abbrev pub trusted : Credentials → Text → Text
trusted creds explicit = resolve_trusted_actor creds.actor explicit creds.remote_untrusted

module _ (v6_loopback : Text → Option Bool) (peer : Text) (headers : Headers) where
  -- A peer that is not loopback never gets an actor that may read personal memories, whatever its
  -- headers say and whoever it names.
  pub remote_has_no_actor :
      (explicit : Text)
      → is_loopback_peer v6_loopback peer ≡ false
      → trusted (inject_auth v6_loopback peer headers) explicit ≡ []
  unfolding inject_auth resolve_trusted_actor
  remote_has_no_actor explicit r = rw r

  -- What a remote peer writes into the actor's header changes nothing.
  remote_header_ignored :
      (other : Headers)
      → is_loopback_peer v6_loopback peer ≡ false
      → ((name : Text) → text_eq name (str "x-ibis-actor") ≡ false → headers name ≡ other name)
      → inject_auth v6_loopback peer headers ≡ inject_auth v6_loopback peer other
  unfolding inject_auth trim_header text_eq
  remote_header_ignored other r same = rw (
    r,
    same (str "x-redmine-api-key") refl,
    same (str "x-jira-email") refl,
    same (str "x-jira-api-token") refl,
    same (str "x-azure-devops-pat") refl,
    same (str "x-azure-devops-org") refl,
    same (str "x-azure-devops-project") refl,
    same (str "x-azure-devops-repo") refl,
    same (str "x-git-token") refl,
    same (str "x-git-pat") refl,
  )

  -- A loopback peer gets the actor of its header, trimmed, whoever else it names: the header holds
  -- a name, and not the one for nobody.
  local_actor_from_header :
      (explicit name : Text)
      → is_loopback_peer v6_loopback peer ≡ true
      → headers (str "x-ibis-actor") ≡ some name
      → is_empty (trim name) ≡ false
      → text_eq (trim name) unknown ≡ false
      → trusted (inject_auth v6_loopback peer headers) explicit ≡ trim name
  unfolding inject_auth trim_header resolve_trusted_actor resolve_actor
  local_actor_from_header explicit name l h e u = rw (l, h, e, trim_idem name, e, u)

abbrev IsTrimmed : Option Text → Type 0
IsTrimmed none = Unit
IsTrimmed (some s) = trim s ≡ s

some_text-IsTrimmed : (s : Text) → trim s ≡ s → IsTrimmed (some_text s)
some_text-IsTrimmed s h = elim (Bool-cases (is_empty s)) [ inl e ↦ rw e tt | inr e ↦ rw e h ]

trimmed_option-IsTrimmed : (o : Option Text) → IsTrimmed (trimmed_option o)
trimmed_option-IsTrimmed none = tt
trimmed_option-IsTrimmed (some s) = some_text-IsTrimmed (trim s) (trim_idem s)

or_else-IsTrimmed : (a b : Option Text) → IsTrimmed a → IsTrimmed b → IsTrimmed (or_else_text a b)
or_else-IsTrimmed none b h k = k
or_else-IsTrimmed (some a) b h k = h

text_or-trimmed : (o : Option Text) → IsTrimmed o → trim (text_or unknown o) ≡ text_or unknown o
unfolding text_runs
text_or-trimmed none h = refl
text_or-trimmed (some s) h = h

resolve_actor-trimmed :
    (actor : Option Text) (explicit : Text)
    → trim (resolve_actor actor explicit) ≡ resolve_actor actor explicit
unfolding resolve_actor
resolve_actor-trimmed actor explicit =
    text_or-trimmed (or_else_text (trimmed_option actor) (some_text (trim explicit))) (
      or_else-IsTrimmed (trimmed_option actor) (some_text (trim explicit))
        (trimmed_option-IsTrimmed actor) (some_text-IsTrimmed (trim explicit) (trim_idem explicit)))

trim_nil : trim [] ≡ []
unfolding text_runs
trim_nil = refl

-- An actor that is trusted is trimmed, and is never the name for nobody.
resolve_trusted_actor-known :
    (actor : Option Text) (explicit : Text) (remote_untrusted : Bool)
    → (trim (resolve_trusted_actor actor explicit remote_untrusted)
        ≡ resolve_trusted_actor actor explicit remote_untrusted)
      × (text_eq (resolve_trusted_actor actor explicit remote_untrusted) unknown ≡ false)
unfolding resolve_trusted_actor
resolve_trusted_actor-known actor explicit true = (trim_nil, unfold text_eq in refl)
resolve_trusted_actor-known actor explicit false =
    elim (Bool-cases (text_eq (resolve_actor actor explicit) unknown)) [
      | inl e ↦ (rw e trim_nil, rw e (unfold text_eq in refl))
      | inr e ↦ (rw e (resolve_actor-trimmed actor explicit), rw e e)
    ]
