-- ===== src/Access/Tests.antt =====
-- A panel of four users whose policy has lost one of them.
use text.Mathlib.Text.{◌==◌ as str_eq}
use amnezia_shared_panel.Base.{
  ℕ, ◌≡◌, refl, ap, Bool, true, false, [], ◌∷◌, none, some, String, ◌&&◌, or_else, any, arith,
}
use amnezia_shared_panel.Panel.{User, user, enabled_user}
use amnezia_shared_panel.Panel.Accounts.{deactivate_by_email}
use amnezia_shared_panel.Panel.Accounts.Admins.{safe_users, SafeHaveOtherIds}
use amnezia_shared_panel.Access.{Rule, World}
use amnezia_shared_panel.Access.Sync.{
  Outcome, aborted, synced, unchanged, Options, access_sync_run, cf_removed, is_over_cap,
  write_back, disable_removed,
}
use amnezia_shared_panel.Access.Errors.{
  IsAccounted, access_sync_run-IsAccounted, access_sync_run-aborted,
}
use amnezia_shared_panel.Access.Kept.{is_foreign, access_sync_run-keeps_foreign}
use amnezia_shared_panel.Access.Spared.{StringLaws, is_spared, access_sync_run-spared}
use amnezia_shared_panel.Access.Settled.{access_sync_run-settles}

abbrev same : String → String
same s = s

abbrev laws : StringLaws same same
laws = record {
  lower-lower = λ s. refl;
  trim-trim = λ s. refl;
  lower-empty = refl;
  trim-empty = refl;
  trim-lower = λ s. refl;
}

abbrev never : String → String → Bool
never a b = false

abbrev uuid : ℕ → ℕ → ℕ
uuid u n = n

abbrev options : Options
options = record { bootstrap_admin_emails = "root@x.org" ∷ []; max_disables_per_run = 10 }

abbrev member : ℕ → String → User
member id email = record {
  id = id;
  email = email;
  role = user;
  status = enabled_user;
  disabled_at = none;
}

abbrev email_rule : String → Rule
email_rule email = record { email = some email; domain = none; rest = 0 }

abbrev group : Rule
group = record { email = none; domain = none; rest = 7 }

abbrev office : World
office = record {
  db = record {
    users = member 1 "a@x.org" ∷ member 2 "b@x.org" ∷ member 3 "c@x.org" ∷ member 4 "d@x.org" ∷ [];
    keys = [];
    nodes = [];
    jobs = [];
    audit = [];
  };
  policy = record {
    include = group ∷ email_rule "a@x.org" ∷ email_rule "b@x.org" ∷ email_rule "guest@y.org" ∷ [];
    exclude = [];
    rest = 3;
  };
  configured = true;
  desired_domains = "corp.org" ∷ [];
  baseline = "a@x.org" ∷ "b@x.org" ∷ "c@x.org" ∷ [];
  baseline_domains = [];
  aborts = [];
  last_aborted = none;
}

-- With all but one address gone from the policy, the run would disable a majority.
abbrev raided : World
raided = record office { policy = record office.policy { include = email_rule "d@x.org" ∷ [] } }

abbrev run_on : World → Outcome × World
run_on w = access_sync_run same same options never uuid 900 true true w

run_writes : (run_on office).0 ≡ synced
unfolding access_sync_run cf_removed is_over_cap write_back disable_removed deactivate_by_email
run_writes = refl

run_stops : (run_on raided).0 ≡ aborted
unfolding access_sync_run cf_removed is_over_cap
run_stops = refl

access_sync_run-IsAccounted_example : IsAccounted same same options office (run_on office)
access_sync_run-IsAccounted_example =
    access_sync_run-IsAccounted same same options never uuid 900 true true office

access_sync_run-aborted_example :
    access_sync_run same same options never uuid 950 true true (run_on raided).1
    ≡ (aborted, (run_on raided).1)
access_sync_run-aborted_example =
    access_sync_run-aborted same same options never uuid 900 950 true raided (run_on raided).1
      (ap (λ outcome. (outcome, (run_on raided).1)) run_stops)

abbrev is_guest : Rule → Bool
is_guest r = str_eq (or_else r.email "") "guest@y.org"

guest_is_foreign :
    any
      (λ r.
        is_foreign same same options (record office { db = (run_on office).1.db }) r && is_guest r)
      office.policy.include
    ≡ true
unfolding is_foreign access_sync_run deactivate_by_email
guest_is_foreign = refl

access_sync_run-keeps_foreign_example : any is_guest (run_on office).1.policy.include ≡ true
access_sync_run-keeps_foreign_example =
    access_sync_run-keeps_foreign same same options never uuid 900 true true office is_guest
      guest_is_foreign

office-SafeHaveOtherIds :
    SafeHaveOtherIds (is_spared same same laws options office) office.db.users office.db.users
unfolding is_spared
office-SafeHaveOtherIds = ground arith

access_sync_run-spared_example :
    safe_users (is_spared same same laws options office) (run_on office).1.db.users
    ≡ safe_users (is_spared same same laws options office) office.db.users
access_sync_run-spared_example =
    access_sync_run-spared same same laws options never uuid 900 true true office
      office-SafeHaveOtherIds

one_is_disabled :
    safe_users (is_spared same same laws options office) office.db.users
    ≡ member 1 "a@x.org" ∷ member 2 "b@x.org" ∷ member 4 "d@x.org" ∷ []
unfolding is_spared
one_is_disabled = refl

access_sync_run-settles_example :
    access_sync_run same same options never uuid 950 true false (run_on office).1
    ≡ (unchanged, (run_on office).1)
access_sync_run-settles_example =
    access_sync_run-settles same same laws options never uuid 900 950 true true false office
      (run_on office).1 (tt, ((refl, tt), ((refl, tt), ((refl, tt), tt)))) ((refl, refl), tt)
      (ap (λ outcome. (outcome, (run_on office).1)) run_writes)
