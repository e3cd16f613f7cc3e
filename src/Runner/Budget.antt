-- ===== src/Runner/Budget.antt =====
-- The budget of an outbox: what is left of the attempts of the jobs that have not ended.
use mathlib.Core.Path.{subst}
use amnezia_shared_panel.Base.{
  ℕ, suc, ◌+◌, ◌-◌, ◌<◌, ◌≡◌, refl, sym, Bool, true, false, List, [], ◌∷◌, ◌⊎◌, ◌&&◌, ◌||◌,
  if◌then◌else◌, ◌==◌, leb, All, inl, inr, arith,
}
use amnezia_shared_panel.Panel.{
  Job, JobStatus, pending, processing, completed, failed_job, update_where, same_status,
}
use amnezia_shared_panel.Panel.Rows.{All-imp, All-update_where}
use amnezia_shared_panel.Panel.Outbox.{is_claimable, lease_expired}

-- What is left of a job that has not ended: its attempts, and one for its end.
abbrev budget_of : JobStatus → ℕ → ℕ
budget_of pending left = suc left
budget_of processing left = suc left
budget_of completed left = 0
budget_of failed_job left = 0

abbrev pub budget : ℕ → Job → ℕ
budget max_attempts j = budget_of j.status (max_attempts - j.attempts)

unfoldable pub total_budget : ℕ → List Job → ℕ
total_budget max_attempts [] = 0
total_budget max_attempts (j ∷ js) = budget max_attempts j + total_budget max_attempts js

abbrev pub HaveDistinctIds : List Job → Type 0
HaveDistinctIds [] = Unit
HaveDistinctIds (j ∷ js) = All (λ i. (i.id == j.id) ≡ false) js × HaveDistinctIds js

abbrev pub IsIn : Job → List Job → Type 0
IsIn j [] = ⊥
IsIn j (x ∷ xs) = (j ≡ x) ⊎ IsIn j xs

pub jobs-IsIn : (jobs : List Job) → All (λ j. IsIn j jobs) jobs
jobs-IsIn [] = tt
jobs-IsIn (x ∷ xs) =
    (inl refl, All-imp (λ j. IsIn j xs) (λ j. IsIn j (x ∷ xs)) xs (λ j h. inr h) (jobs-IsIn xs))

is_apart :
    (id : ℕ) (j : Job) (js : List Job)
    → All (λ i. (i.id == id) ≡ false) js
    → IsIn j js
    → (j.id == id) ≡ false
is_apart id j [] h none_in = elim none_in [ ]
is_apart id j (x ∷ xs) (h, hs) (inl e) = subst (λ i. (i.id == id) ≡ false) (sym e) h
is_apart id j (x ∷ xs) (h, hs) (inr later) = is_apart id j xs hs later

module _ (max_attempts id : ℕ) (f : Job → Job) where
  total-elsewhere :
      (js : List Job)
      → All (λ i. (i.id == id) ≡ false) js
      → total_budget max_attempts (update_where (λ i. i.id == id) f js)
        ≡ total_budget max_attempts js
  unfolding total_budget
  total-elsewhere [] h = refl
  total-elsewhere (x ∷ xs) (h, hs) = ground (arith, h, total-elsewhere xs hs)

-- A change of one job that spends some of its budget spends some of the whole.
pub total-spent :
    (max_attempts : ℕ) (f : Job → Job) (j : Job) (js : List Job)
    → HaveDistinctIds js
    → IsIn j js
    → budget max_attempts (f j) < budget max_attempts j
    → total_budget max_attempts (update_where (λ i. i.id == j.id) f js)
      < total_budget max_attempts js
unfolding total_budget
total-spent max_attempts f j [] d none_in h = elim none_in [ ]
total-spent max_attempts f j (x ∷ xs) (d, ds) (inl e) h =
    subst
      (λ i.
        total_budget max_attempts (update_where (λ k. k.id == i.id) f (x ∷ xs))
        < total_budget max_attempts (x ∷ xs))
      (sym e) (here (subst (λ i. budget max_attempts (f i) < budget max_attempts i) e h))
  where
    here :
        budget max_attempts (f x) < budget max_attempts x
        → total_budget max_attempts (update_where (λ k. k.id == x.id) f (x ∷ xs))
          < total_budget max_attempts (x ∷ xs)
    here spent = ground (arith, spent, total-elsewhere max_attempts x.id f xs d)
total-spent max_attempts f j (x ∷ xs) (d, ds) (inr later) h =
    let other : (x.id == j.id) ≡ false = ground (arith, is_apart x.id j xs d later) in
    ground (arith, other, total-spent max_attempts f j xs ds later h)

pub update-HaveDistinctIds :
    (p : Job → Bool) (f : Job → Job) (js : List Job)
    → ((i : Job) → (f i).id ≡ i.id)
    → HaveDistinctIds js
    → HaveDistinctIds (update_where p f js)
update-HaveDistinctIds p f [] same h = tt
update-HaveDistinctIds p f (x ∷ xs) same (h, hs) =
    let head : (if p x then f x else x).id ≡ x.id = kept_id (p x) x in
    (
      subst (λ id. All (λ i. (i.id == id) ≡ false) (update_where p f xs)) (sym head)
          (All-update_where (λ i. (i.id == x.id) ≡ false) (λ i. (i.id == x.id) ≡ false) p f xs
            (λ i e apart. subst (λ id. (id == x.id) ≡ false) (sym (same i)) apart)
            (λ i e apart. apart) h),
      update-HaveDistinctIds p f xs same hs,
    )
  where
    kept_id : (b : Bool) (i : Job) → (if b then f i else i).id ≡ i.id
    kept_id true i = same i
    kept_id false i = refl

pub update-twice :
    (id : ℕ) (f g : Job → Job) (js : List Job)
    → ((i : Job) → (f i).id ≡ i.id)
    → update_where (λ i. i.id == id) g (update_where (λ i. i.id == id) f js)
      ≡ update_where (λ i. i.id == id) (λ i. g (f i)) js
update-twice id f g [] same = refl
update-twice id f g (x ∷ xs) same = ground (arith, same x, update-twice id f g xs same)

-- What one turn spends: the claim, and then the end of the job or its retry.
module _ (max_attempts lease now : ℕ) (j : Job) (claimable : is_claimable lease now j ≡ true) where
  claimable-budget : budget max_attempts j ≡ suc (max_attempts - j.attempts)
  unfolding is_claimable
  claimable-budget = by_status j.status claimable
    where
      by_status :
          (s : JobStatus)
          → ((same_status s pending && leb j.available_at now)
              || (same_status s processing && lease_expired lease now j.locked_at))
            ≡ true
          → budget_of s (max_attempts - j.attempts) ≡ suc (max_attempts - j.attempts)
      by_status pending h = refl
      by_status processing h = refl
      by_status completed h = absurd (ground (arith, h))
      by_status failed_job h = absurd (ground (arith, h))

  pub ended-spends : 0 < budget max_attempts j
  ended-spends = omega (arith, claimable-budget)

  pub retried-spends :
      leb max_attempts (j.attempts + 1) ≡ false
      → suc (max_attempts - (j.attempts + 1)) < budget max_attempts j
  retried-spends h = ground (arith, claimable-budget, h)
