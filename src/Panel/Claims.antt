-- ===== src/Panel/Claims.antt =====
-- What a claim of the outbox guarantees, and what a purge of accounts leaves.
use mathlib.Core.Path.{subst}
use amnezia_shared_panel.Base.{
  ℕ, suc, sym, ◌∙◌, ◌+◌, ◌≤◌, ◌<◌, ◌≡◌, refl, ◌⊎◌, ltb, get_elem?, Bool, true, false, not, ◌&&◌,
  List, [], ◌∷◌, Option, none, some, ◌==◌, keep, arith, All, Bool-cases, Option-cases, inl, inr,
}
use amnezia_shared_panel.Keys.{is_live, same_state, revoked}
use amnezia_shared_panel.Panel.{Db, Job, User, update_where, log, user_deleted}
use amnezia_shared_panel.Panel.Rows.{All-imp, updated}
use amnezia_shared_panel.Panel.Outbox.{
  is_claimable, comes_before, next_job, sooner, claim_job, claim,
}
use amnezia_shared_panel.Panel.Accounts.{
  purge_offboarded_users, purge_each, purge_one, purgeable_users,
}

-- The first job was due earlier, or was due at the same time and is no younger.
abbrev pub IsNoLater : Job → Job → Type 0
IsNoLater a b =
    (a.available_at < b.available_at)
    ⊎ ((a.available_at ≡ b.available_at) × (a.created_at ≤ b.created_at))

abbrev pub StandsIn : List Job → Job → Type 0
StandsIn jobs j = (n : ℕ) × (get_elem? jobs n ≡ some j)

-- What `next_job` answers.
abbrev pub IsNext : ℕ → ℕ → List Job → Option Job → Type 0
IsNext lease now jobs none = All (λ j. is_claimable lease now j ≡ false) jobs
IsNext lease now jobs (some next) =
    (is_claimable lease now next ≡ true)
    × StandsIn jobs next
    × All (λ j. is_claimable lease now j ≡ true → IsNoLater next j) jobs

self-IsNoLater : (j : Job) → IsNoLater j j
self-IsNoLater j = inr (refl, omega arith)

trans-IsNoLater : (a b c : Job) → IsNoLater a b → IsNoLater b c → IsNoLater a c
trans-IsNoLater a b c (inl h) (inl k) = inl (omega (arith, h, k))
trans-IsNoLater a b c (inl h) (inr (e, k)) = inl (omega (arith, h, e))
trans-IsNoLater a b c (inr (e, h)) (inl k) = inl (omega (arith, e, k))
trans-IsNoLater a b c (inr (e, h)) (inr (f, k)) = inr (e ∙ f, omega (arith, h, k))

before-IsNoLater : (a b : Job) → comes_before a b ≡ true → IsNoLater a b
before-IsNoLater a b h = elim (Bool-cases (ltb a.available_at b.available_at)) [
  | inl e ↦ inl (ground (arith, e))
  | inr e ↦ inr (ground (arith, h, e), ground (arith, h, e))
]

not_before-IsNoLater : (a b : Job) → comes_before a b ≡ false → IsNoLater b a
not_before-IsNoLater a b h = elim (Bool-cases (a.available_at == b.available_at)) [
  | inl e ↦ inr (ground (arith, e), ground (arith, h, e))
  | inr e ↦ inl (ground (arith, h, e))
]

skip-IsNext :
    (lease now : ℕ) (j : Job) (js : List Job) (next : Option Job)
    → is_claimable lease now j ≡ false
    → IsNext lease now js next
    → IsNext lease now (j ∷ js) next
skip-IsNext lease now j js none e h = (e, h)
skip-IsNext lease now j js (some next) e (c, (n, at), h) =
    (c, (suc n, at), (λ d. absurd (ground (arith, d, e)), h))

take-IsNext :
    (lease now : ℕ) (j : Job) (js : List Job) (next : Option Job)
    → is_claimable lease now j ≡ true
    → IsNext lease now js next
    → IsNext lease now (j ∷ js) (some (sooner j next))
take-IsNext lease now j js none e h = (
  e,
  (0, refl),
  (
    λ c. self-IsNoLater j,
    All-imp (λ x. is_claimable lease now x ≡ false)
        (λ x. is_claimable lease now x ≡ true → IsNoLater j x) js
        (λ x old c. absurd (ground (arith, old, c))) h,
  ),
)
take-IsNext lease now j js (some next) e (c, (n, at), h) = elim (Bool-cases (comes_before next j)) [
  | inl b ↦
      let pick : next ≡ sooner j (some next) = ground (arith, b) in
      subst (λ x. IsNext lease now (j ∷ js) (some x)) pick
        (c, (suc n, at), (λ d. before-IsNoLater next j b, h))
  | inr b ↦
      let pick : j ≡ sooner j (some next) = ground (arith, b) in
      subst (λ x. IsNext lease now (j ∷ js) (some x)) pick
        (
          e,
          (0, refl),
          (
            λ d. self-IsNoLater j,
            All-imp (λ x. is_claimable lease now x ≡ true → IsNoLater next x)
                (λ x. is_claimable lease now x ≡ true → IsNoLater j x) js
                (λ x old d. trans-IsNoLater j next x (not_before-IsNoLater next j b) (old d)) h,
          ),
        )
]

-- The job that is taken next stands in the outbox and may be claimed, and each job that may be
-- claimed is due later, or at the same time and is no older; no job is taken only if none may be
-- claimed.
pub next_job-IsNext :
    (lease now : ℕ) (jobs : List Job) → IsNext lease now jobs (next_job lease now jobs)
unfolding next_job
next_job-IsNext lease now [] = tt
next_job-IsNext lease now (j ∷ js) = elim (Bool-cases (is_claimable lease now j)) [
  | inl e ↦
      rw (e, next_job)
        (take-IsNext lease now j js (next_job lease now js) e (next_job-IsNext lease now js))
  | inr e ↦
      rw (e, next_job)
        (skip-IsNext lease now j js (next_job lease now js) e (next_job-IsNext lease now js))
]

-- A claimed job is not claimed again before its lease has run out.
pub claim_job-exclusive :
    (lease now later : ℕ) (db : Db) (job : Job)
    → (claim_job lease now db).0 ≡ some job
    → later < now + lease
    → All (λ j. j.id ≡ job.id → is_claimable lease later j ≡ false) (claim_job lease now db).1.jobs
unfolding claim_job is_claimable
claim_job-exclusive lease now later db job h soon =
    elim (Option-cases (next_job lease now db.jobs)) [
      | inl e ↦ absurd (ground (arith, e))
      | inr (j, e) ↦
          let same : j.id ≡ job.id = ground (arith, e) in
          rw (e, claim_job)
            (All-imp (λ x. x.id ≡ j.id → is_claimable lease later x ≡ false)
              (λ x. x.id ≡ job.id → is_claimable lease later x ≡ false)
              (update_where (λ x. x.id == j.id) (claim now) db.jobs) (λ x old s. old (s ∙ sym same))
              (updated (λ x. x.id) (λ x. is_claimable lease later x ≡ false) j.id (claim now)
                db.jobs (λ x. refl) (λ x. ground arith)))
    ]

keep-keep {ℓ} :
    {A : Type ℓ} (q p : A → Bool) (xs : List A)
    → ((x : A) → q x ≡ true → p x ≡ true)
    → keep q (keep p xs) ≡ keep q xs
keep-keep q p [] h = refl
keep-keep q p (x ∷ xs) h = ground (arith, h x, keep-keep q p xs h)

purge_each-live :
    (us : List User) (db : Db)
    → keep (λ k. is_live k.state) (purge_each us db).keys ≡ keep (λ k. is_live k.state) db.keys
unfolding purge_each purge_one is_live
purge_each-live [] db = refl
purge_each-live (u ∷ us) db =
    purge_each-live us (log user_deleted u.id (purge_one u.id db))
    ∙ keep-keep (λ k. is_live k.state) (λ k. not (k.owner_id == u.id && same_state k.state revoked))
        db.keys (λ k e. ground arith)

-- The purge of offboarded accounts removes no key that may have a peer left on a node.
pub purge_offboarded_users-live :
    (cutoff : ℕ) (db : Db)
    → keep (λ k. is_live k.state) (purge_offboarded_users cutoff db).keys
      ≡ keep (λ k. is_live k.state) db.keys
unfolding purge_offboarded_users
purge_offboarded_users-live cutoff db = purge_each-live (purgeable_users cutoff db) db

-- What holds of every job holds of the one that is claimed.
module _ (P : Job → Type 0) where
  abbrev pub IsOf : Option Job → Type 0
  IsOf none = Unit
  IsOf (some j) = P j

  sooner-IsOf : (j : Job) (o : Option Job) → P j → IsOf o → P (sooner j o)
  sooner-IsOf j none h k = h
  sooner-IsOf j (some b) h k = elim (Bool-cases (comes_before b j)) [
    | inl e ↦ rw e k
    | inr e ↦ rw e h
  ]

  pub next_job-IsOf :
      (lease now : ℕ) (jobs : List Job) → All P jobs → IsOf (next_job lease now jobs)
  unfolding next_job
  next_job-IsOf lease now [] h = tt
  next_job-IsOf lease now (j ∷ js) (h, hs) = elim (Bool-cases (is_claimable lease now j)) [
    | inl e ↦
        rw (e, next_job) (sooner-IsOf j (next_job lease now js) h (next_job-IsOf lease now js hs))
    | inr e ↦ rw (e, next_job) (next_job-IsOf lease now js hs)
  ]
