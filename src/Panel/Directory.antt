-- ===== src/Panel/Directory.antt =====
-- Who has an account: `resolveIdentity`, `createUser` and `adminAction` for `users/set-role` and
-- `users/purge` of apps/control-api/src/postgresRepository.ts. `lower` and `trim` are the string
-- methods of the source's language. A `Set` of the options is the list of its members, and the
-- actor that a log-in answers with is the row of the user.
mod Counts
mod Changes
mod Sweeps
pub mod Admins
pub mod Entry
mod Tests
use Prim.Native.String.{[] as empty, ◌∷◌ as char_then}
use Prim.Native.Char.{code}
use text.Mathlib.Text.{◌==◌ as str_eq}
use amnezia_shared_panel.Base.{
  ℕ, ◌+◌, Bool, true, false, not, ◌&&◌, ◌||◌, List, [], ◌∷◌, ◌++◌, Option, none, some, String,
  if◌then◌else◌, ◌==◌, any, first, keep, length, leb,
}
use amnezia_shared_panel.Panel.{
  Db, User, Role, user, admin, enabled_user, Answer, ok, err, user_not_found, last_admin,
  not_allowed, user_exists, update_where, log, admin_set_role, admin_create,
}
use amnezia_shared_panel.Panel.Accounts.{is_admin, purge_offboarded_users}
use amnezia_shared_panel.Panel.Admin.{active_admins, delete_user}
use amnezia_shared_panel.Panel.Arm.{arm_access_sync}
use amnezia_shared_panel.Access.{normalize_email, normalize_access_domain}

pub record Identity : Type 0 where
  pub user_id : ℕ
  pub provider : String
  pub subject : String
  pub email_at_login : String
  pub last_login_at : ℕ

-- The rows, with the identities and the domains that the policy's row lists.
pub record Directory : Type 0 where
  pub db : Db
  pub identities : List Identity
  pub domains : List String

-- What the repository is configured with.
pub record Allowlist : Type 0 where
  pub bootstrap_admin_emails : Option (List String)
  pub allowed_email_domains : Option (List String)

pub record IdentityClaim : Type 0 where
  pub provider : String
  pub subject : String
  pub email : String

-- `options.list?.has(text)`
abbrev pub is_listed_in : Option (List String) → String → Bool
is_listed_in none text = false
is_listed_in (some texts) text = any (λ t. str_eq t text) texts

-- `email.split("@")[1] ?? ""`
abbrev until_at : String → String
until_at empty = empty
until_at (char_then c s) = if code c == 64 then empty else char_then c (until_at s)

abbrev pub email_domain : String → String
email_domain empty = empty
email_domain (char_then c s) = if code c == 64 then until_at s else email_domain s

abbrev pub is_claimed_by : IdentityClaim → Identity → Bool
is_claimed_by claim i = str_eq i.provider claim.provider && str_eq i.subject claim.subject

-- The user of the claim's identity, of the join of both tables.
abbrev pub identity_user : IdentityClaim → Directory → Option User
identity_user claim d =
    elim (first (λ i. is_claimed_by claim i && any (λ u. u.id == i.user_id) d.db.users)
      d.identities) [ none ↦ none | some i ↦ first (λ u. u.id == i.user_id) d.db.users ]

abbrev pub with_users : List User → Directory → Directory
with_users users d = record d { db = record d.db { users = users } }

abbrev pub set_role_of : ℕ → Role → List User → List User
set_role_of id role users = update_where (λ u. u.id == id) (λ u. record u { role = role }) users

module _ (lower trim : String → String) (options : Allowlist) (fresh now : ℕ) where
  abbrev pub is_bootstrap : String → Bool
  is_bootstrap email = is_listed_in options.bootstrap_admin_emails email

  abbrev touch_identity : IdentityClaim → String → Directory → Directory
  touch_identity claim email d = record d {
    identities =
        update_where (is_claimed_by claim)
          (λ i. record i { email_at_login = email; last_login_at = now }) d.identities;
  }

  abbrev link_identity : IdentityClaim → String → User → Directory → Directory
  link_identity claim email u d = record d {
    identities =
        d.identities
        ++ record {
          user_id = u.id;
          provider = claim.provider;
          subject = claim.subject;
          email_at_login = email;
          last_login_at = now;
        }
          ∷ [];
  }

  -- A bootstrap administrator who is none yet is made one.
  abbrev pub promoted : String → User → Directory → User × Directory
  promoted email u d =
      if is_bootstrap email && not (is_admin u.role)
      then (record u { role = admin }, with_users (set_role_of u.id admin d.db.users) d)
      else (u, d)

  abbrev pub is_admitted : IdentityClaim → String → Directory → Bool
  is_admitted claim email d =
      str_eq claim.provider "cloudflare-access"
      || (is_listed_in options.allowed_email_domains (email_domain email)
          || (any (λ entry. str_eq (normalize_access_domain lower trim entry) (email_domain email))
                d.domains
              || is_bootstrap email))

  abbrev pub new_user : String → Role → User
  new_user email role = record {
    id = fresh;
    email = email;
    role = role;
    status = enabled_user;
    disabled_at = none;
  }

  abbrev linked : IdentityClaim → String → User × Directory → Answer (User × Directory)
  linked claim email (u, d) = ok (u, link_identity claim email u d)

  abbrev pub log_in_by_email :
      IdentityClaim → String → Option User → Directory → Answer (User × Directory)
  log_in_by_email claim email (some u) d = linked claim email (promoted email u d)
  log_in_by_email claim email none d =
      let u = new_user email (if is_bootstrap email then admin else user) in
      if is_admitted claim email d
      then linked claim email (u, with_users (d.db.users ++ u ∷ []) d)
      else err not_allowed

  abbrev pub log_in : IdentityClaim → String → Option User → Directory → Answer (User × Directory)
  log_in claim email (some u) d = ok (promoted email u (touch_identity claim email d))
  log_in claim email none d =
      log_in_by_email claim email (first (λ u. str_eq u.email email) d.db.users) d

  unfoldable pub resolve_identity : IdentityClaim → Directory → Answer (User × Directory)
  resolve_identity claim d =
      log_in claim (normalize_email lower trim claim.email) (identity_user claim d) d

  -- `arm` and `marker` are the new uuids of the Access sync's row.
  unfoldable pub create_user : ℕ → ℕ → String → Role → Db → Answer Db
  unfolding arm_access_sync
  create_user arm marker address role db =
      let email = normalize_email lower trim address in
      if any (λ u. str_eq u.email email) db.users
      then err user_exists
      else ok (
          log admin_create fresh (
            arm_access_sync arm marker now
              (record db { users = db.users ++ new_user email role ∷ [] })))

abbrev pub demotes : Role → Bool
demotes user = true
demotes admin = false

abbrev pub is_admin_row : Option User → Bool
is_admin_row none = false
is_admin_row (some u) = is_admin u.role

-- The guard counts the active administrators; the target may be a disabled one.
unfoldable pub set_role : ℕ → Role → Db → Answer Db
set_role id role db =
    if demotes role
      && (is_admin_row (first (λ u. u.id == id) db.users) && leb (length (active_admins db)) 1)
    then err last_admin
    else if any (λ u. u.id == id) db.users
    then ok (log admin_set_role id (record db { users = set_role_of id role db.users }))
    else err user_not_found

-- Without `confirm` it is a dry run.
unfoldable pub purge_users : Bool → ℕ → Db → Db
unfolding purge_offboarded_users
purge_users confirm cutoff db = if confirm then purge_offboarded_users cutoff db else db

-- `identities.user_id` is ON DELETE CASCADE.
abbrev pub cascade : Db → Directory → Directory
cascade after d = record d {
  db = after;
  identities = keep (λ i. any (λ u. u.id == i.user_id) after.users) d.identities;
}
