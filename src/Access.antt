-- ===== src/Access.antt =====
-- The two-way Cloudflare Access sync of the worker (apps/worker/src/accessReconcile.ts): the rules
-- of an Access policy, the addresses and domains they name, and what a run of the sync reads and
-- writes. `lower` and `trim` are the string methods of the source's language, and `before` is the
-- order of its `sort`. The calls that send and fetch a policy are the two flags of a run.
pub mod Sync
pub mod Sets
pub mod Cases
mod Names
mod InSync
pub mod Kept
pub mod Errors
pub mod Settled
pub mod Spared
mod Tests
use Prim.Native.String.{[] as empty, ◌∷◌ as char_then}
use Prim.Native.Char.{code}
use text.Mathlib.Text.{◌==◌ as str_eq}
use amnezia_shared_panel.Base.{
  ℕ, ◌+◌, ◌/◌, Bool, true, false, not, ◌&&◌, ◌||◌, List, [], ◌∷◌, ◌++◌, map, Option, none, some,
  String, if◌then◌else◌, ◌==◌, ltb, length, any, keep, or_else,
}
use amnezia_shared_panel.Panel.{Db, User}
use amnezia_shared_panel.Panel.Accounts.{is_enabled}

-- CfAccessRule: the address or the domain it names, if any; `rest` is all its other fields.
pub record Rule : Type 0 where
  pub email : Option String
  pub domain : Option String
  pub rest : ℕ

-- CfAccessPolicy: `rest` is every field that the sync does not read.
pub record Policy : Type 0 where
  pub include : List Rule
  pub exclude : List Rule
  pub rest : ℕ

-- The audit row of an aborted run.
pub record Abort : Type 0 where
  pub candidate_emails : List String
  pub limit : ℕ
  pub active_count : ℕ
  pub over_absolute_cap : Bool
  pub over_majority : Bool

-- What a run reads and writes: the panel's rows, the policy at Cloudflare, the stored
-- configuration with both baselines, the abort rows, and the candidates of the last abort.
pub record World : Type 0 where
  pub db : Db
  pub policy : Policy
  pub configured : Bool
  pub desired_domains : List String
  pub baseline : List String
  pub baseline_domains : List String
  pub aborts : List Abort
  pub last_aborted : Option (List String)

abbrev pub non_empty : String → Bool
non_empty s = not (str_eq s "")

-- `new Set(xs)`, in the order of insertion, and its `has`.
abbrev pub has : String → List String → Bool
has s xs = any (λ x. str_eq x s) xs

abbrev pub unique : List String → List String
unique [] = []
unique (x ∷ xs) = x ∷ keep (λ y. not (str_eq y x)) (unique xs)

-- The values that are there and are not empty: `.filter(Boolean)`.
abbrev pub present : List (Option String) → List String
present [] = []
present (none ∷ xs) = present xs
present (some x ∷ xs) = if non_empty x then x ∷ present xs else present xs

-- `.replace(/^@+/, "")`
abbrev pub strip_ats : String → String
strip_ats empty = ""
strip_ats (char_then c s) = if code c == 64 then strip_ats s else char_then c s

-- What follows the last "@".
abbrev pub after_last_at : String → Option String
after_last_at empty = none
after_last_at (char_then c s) = elim (after_last_at s) [
  | some found ↦ some found
  | none ↦ if code c == 64 then some s else none
]

abbrev pub domain_of : String → String
domain_of email = or_else (after_last_at email) ""

-- listActiveUserEmails
abbrev pub list_active_user_emails : Db → List String
list_active_user_emails db = map (λ u. u.email) (keep (λ u. is_enabled u.status) db.users)

module _ (lower trim : String → String) where
  abbrev pub normalize_email : String → String
  normalize_email email = lower (trim email)

  abbrev pub normalize_access_domain : String → String
  normalize_access_domain value = strip_ats (lower (trim value))

  abbrev pub normalize_list : List String → List String
  normalize_list values = keep non_empty (map normalize_access_domain values)

  abbrev pub domain_allowlist : List Rule → List String
  domain_allowlist rules =
      unique (keep non_empty (map normalize_access_domain (present (map (λ r. r.domain) rules))))

  -- The addresses that rules name.
  abbrev pub rule_emails : List Rule → List String
  rule_emails rules = map normalize_email (present (map (λ r. r.email) rules))

  abbrev pub rule_domain : Rule → String
  rule_domain rule = normalize_access_domain (or_else rule.domain "")

  abbrev pub is_domain_rule : Rule → Bool
  is_domain_rule rule = non_empty (rule_domain rule)

  abbrev pub normal_emails : List String → List String
  normal_emails emails = keep non_empty (map normalize_email emails)
