-- ===== src/Panel/Revokes/Sweeps.antt =====
-- The worker's sweeps, for keys that wait to be revoked.
use amnezia_shared_panel.Base.{
  ℕ, ◌+◌, ◌≡◌, Bool, true, List, [], ◌∷◌, ◌++◌, arith, any, keep, All, ◌==◌,
}
use amnezia_shared_panel.Keys.{revoking}
use amnezia_shared_panel.Panel.{Db, Key}
use amnezia_shared_panel.Panel.Rows.{
  any-append_left, any-append_right, any-keep, All-imp, All-update_where, All-and,
}
use amnezia_shared_panel.Panel.Outbox.{
  revoke_jobs, rearm_stuck_revokes, delete_completed_jobs_before,
}
use amnezia_shared_panel.Panel.Accounts.{revoke_where}
use amnezia_shared_panel.Panel.Revokes.{
  is_open_revoke, IsRemembered, RevokesRemembered, append-Remembered,
}

revoke_jobs-any :
    (fresh : ℕ → ℕ) (now n key_id : ℕ) (keys : List Key)
    → any (λ k. k.id == key_id) keys ≡ true
    → any (is_open_revoke key_id) (revoke_jobs fresh now n keys) ≡ true
unfolding revoke_jobs
revoke_jobs-any fresh now n key_id [] h = absurd (ground arith)
revoke_jobs-any fresh now n key_id (k ∷ ks) h =
    ground (arith, revoke_jobs-any fresh now (n + 2) key_id ks)

keep-any :
    (p : Key → Bool) (keys : List Key)
    → All (λ k. p k ≡ true → any (λ x. x.id == k.id) (keep p keys) ≡ true) keys
keep-any p [] = tt
keep-any p (x ∷ xs) = (
  λ q. ground (arith, q),
  All-imp (λ k. p k ≡ true → any (λ x. x.id == k.id) (keep p xs) ≡ true)
      (λ k. p k ≡ true → any (λ y. y.id == k.id) (keep p (x ∷ xs)) ≡ true) xs
      (λ k old q. let later = old q in ground (arith, later)) (keep-any p xs),
)

-- Each key that a sweep moves has a job among the new ones.
revoke_jobs-open :
    (fresh : ℕ → ℕ) (now : ℕ) (p : Key → Bool) (keys : List Key)
    → All
        (λ k. p k ≡ true → any (is_open_revoke k.id) (revoke_jobs fresh now 0 (keep p keys)) ≡ true)
        keys
revoke_jobs-open fresh now p keys =
    All-imp (λ k. p k ≡ true → any (λ x. x.id == k.id) (keep p keys) ≡ true)
      (λ k. p k ≡ true → any (is_open_revoke k.id) (revoke_jobs fresh now 0 (keep p keys)) ≡ true)
      keys (λ k old q. revoke_jobs-any fresh now 0 k.id (keep p keys) (old q)) (keep-any p keys)

pub revoke_where-Remembered :
    (fresh : ℕ → ℕ) (now : ℕ) (p : Key → Bool) (db : Db)
    → RevokesRemembered db
    → RevokesRemembered (revoke_where fresh now p db)
unfolding revoke_where
revoke_where-Remembered fresh now p db h =
    let new = revoke_jobs fresh now 0 (keep p db.keys) in
    All-update_where
      (λ k. IsRemembered db.jobs k × (p k ≡ true → any (is_open_revoke k.id) new ≡ true))
      (IsRemembered (db.jobs ++ new)) p (λ k. record k { state = revoking }) db.keys
      (λ k e old s. any-append_right (is_open_revoke k.id) db.jobs new (old.1 e))
      (λ k e old s. any-append_left (is_open_revoke k.id) db.jobs new (old.0 s))
      (All-and _ _ db.keys h (revoke_jobs-open fresh now p db.keys))

pub delete_completed-Remembered :
    (cutoff : ℕ) (db : Db)
    → RevokesRemembered db
    → RevokesRemembered (delete_completed_jobs_before cutoff db)
unfolding delete_completed_jobs_before
delete_completed-Remembered cutoff db h =
    All-imp (IsRemembered db.jobs) (IsRemembered (delete_completed_jobs_before cutoff db).jobs)
      db.keys (λ k old s. any-keep (is_open_revoke k.id) _ db.jobs (λ j o. ground arith) (old s)) h

pub rearm_stuck_revokes-Remembered :
    (fresh : ℕ → ℕ) (now : ℕ) (db : Db)
    → RevokesRemembered db
    → RevokesRemembered (rearm_stuck_revokes fresh now db).1
unfolding rearm_stuck_revokes
rearm_stuck_revokes-Remembered fresh now db h = append-Remembered db.keys db.jobs _ h
