-- ===== src/Panel/Directory/Tests.antt =====
-- Accounts and log-ins on small inputs.
use amnezia_shared_panel.Base.{ℕ, ◌≡◌, refl, List, [], ◌∷◌, map, none, some, String, arith}
use amnezia_shared_panel.Panel.{
  Db, User, Role, user, admin, enabled_user, Answer, ok, err, last_admin, not_allowed, committed,
}
use amnezia_shared_panel.Panel.Admin.{offboard_user}
use amnezia_shared_panel.Panel.Directory.{
  Directory, Allowlist, IdentityClaim, resolve_identity, set_role, cascade, email_domain,
}
use amnezia_shared_panel.Panel.Directory.Changes.{IsAdministered}
use amnezia_shared_panel.Panel.Directory.Admins.{
  here, then_step, gets_role, is_offboarded, steps_keep_an_admin,
}
use amnezia_shared_panel.Panel.Directory.Entry.{IsEntry, resolve_identity-IsEntry}

abbrev same_text : String → String
same_text s = s

abbrev person : ℕ → String → Role → User
person id email role = record {
  id = id;
  email = email;
  role = role;
  status = enabled_user;
  disabled_at = none;
}

abbrev rows : Db
rows = record {
  users = person 1 "ann@co.tld" admin ∷ person 2 "bob@co.tld" admin ∷ [];
  keys = [];
  nodes = [];
  jobs = [];
  audit = [];
}

abbrev directory : Directory
directory = record { db = rows; identities = []; domains = "co.tld" ∷ [] }

abbrev allowlist : Allowlist
allowlist = record {
  bootstrap_admin_emails = some ("root@co.tld" ∷ []);
  allowed_email_domains = none;
}

abbrev demoted : Directory
demoted = cascade (committed (set_role 1 user rows) rows) directory

abbrev after_both : Directory
after_both = cascade (committed (offboard_user (λ n. n) 0 1 2 demoted.db) demoted.db) demoted

steps_keep_an_admin_example : IsAdministered after_both.db.users
unfolding set_role
steps_keep_an_admin_example =
    steps_keep_an_admin same_text same_text allowlist directory after_both
      (then_step demoted after_both (then_step directory demoted here (gets_role 1 user))
        (is_offboarded (λ n. n) 0 1 2))
      (omega arith, (refl, (refl, tt)))

-- The second demotion is refused.
one_is_left : set_role 2 user demoted.db ≡ err last_admin
unfolding set_role
one_is_left = refl

abbrev claim_of : String → IdentityClaim
claim_of email = record { provider = "google"; subject = "17"; email = email }

resolve_identity-IsEntry_example :
    IsEntry same_text same_text allowlist 9 0
      (claim_of "eve@elsewhere")
      "eve@elsewhere"
      directory
      (resolve_identity same_text same_text allowlist 9 0 (claim_of "eve@elsewhere") directory)
resolve_identity-IsEntry_example =
    resolve_identity-IsEntry same_text same_text allowlist 9 0 (claim_of "eve@elsewhere") directory

eve_is_refused :
    resolve_identity same_text same_text allowlist 9 0 (claim_of "eve@elsewhere") directory
    ≡ err not_allowed
unfolding resolve_identity
eve_is_refused = refl

abbrev entered : Answer (User × Directory) → List User
entered (ok (u, d)) = d.db.users
entered (err e) = []

root_is_let_in :
    map
      (λ u. u.role)
      (entered
        (resolve_identity same_text same_text allowlist 9 0 (claim_of "root@co.tld") directory))
    ≡ admin ∷ admin ∷ admin ∷ []
unfolding resolve_identity
root_is_let_in = refl

takes_the_second_part : email_domain "a@b@c" ≡ "b"
takes_the_second_part = refl
