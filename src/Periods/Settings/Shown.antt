-- ===== src/Periods/Settings/Shown.antt =====
-- The worker runs what the panel shows.
use amnezia_shared_panel.Base.{
  ℕ, ◌≤◌, ◌≡◌, refl, Bool, true, false, ◌&&◌, ◌||◌, List, [], ◌∷◌, Option, none, some, any, every,
  or_else, Bool-cases, inl, inr, arith,
}
use amnezia_shared_panel.Periods.{
  Field, telemetry_poll_sec, node_metrics_sample_sec, peer_sample_sec, worker_period_fields,
  is_poll_bound, whole, clamp_worker_period, unbounded, resolve_worker_period,
}
use amnezia_shared_panel.Periods.Laws.{IsInBounds}
use amnezia_shared_panel.Periods.Settings.{
  Stored, Named, unnamed, named, Payload, worker_period_field_names, poll_bound_sample_fields,
  worker_period_value, is_named, column_after, has_conflict, update_periods, row_after, all_updates,
  read_worker_period_overrides,
}

-- The stored period, or the default of its field.
abbrev pub shown : Stored → Field → ℕ
shown stored field = or_else (stored field) (worker_period_fields field).fallback

abbrev AgreesWithPoll : Stored → Field → Type 0
AgreesWithPoll stored field = shown stored telemetry_poll_sec ≤ shown stored field

abbrev FitsIn : Field → Option ℕ → Type 0
FitsIn field none = Unit
FitsIn field (some n) = IsInBounds field n

record IsSound (stored : Stored) : Type 0 where
  fits : (field : Field) → FitsIn field (stored field)
  node_metrics : AgreesWithPoll stored node_metrics_sample_sec
  peers : AgreesWithPoll stored peer_sample_sec

-- What holds of each name of the list holds of every field.
each_field :
    (p : Field → Bool) → every p worker_period_field_names ≡ true → (field : Field) → p field ≡ true
each_field p h field = ground (arith, h)

column-FitsIn :
    (field : Field) (n : Named) (o : Option ℕ)
    → worker_period_value field n ≡ true
    → FitsIn field o
    → FitsIn field (column_after n o)
column-FitsIn field unnamed o h k = k
column-FitsIn field (named none) o h k = tt
column-FitsIn field (named (some n)) o h k = ground (arith, h)

column-kept : (n : Named) (o : Option ℕ) → is_named n ≡ false → column_after n o ≡ o
column-kept unnamed o h = refl
column-kept (named value) o h = absurd (ground (arith, h))

module _ (payload : Payload) (stored : Stored) where
  updated : Stored
  updated field = column_after (payload field) (stored field)

  -- An update that names neither of the two periods leaves both as they are.
  pair_kept :
      (field : Field)
      → is_named (payload telemetry_poll_sec) ≡ false
      → is_named (payload field) ≡ false
      → AgreesWithPoll stored field
      → AgreesWithPoll updated field
  unfolding updated
  pair_kept field p q h =
      rw
        (
          column-kept (payload telemetry_poll_sec) (stored telemetry_poll_sec) p,
          column-kept (payload field) (stored field) q,
        )
        h

  updated-IsSound :
      ((field : Field) → worker_period_value field (payload field) ≡ true)
      → ((is_named (payload telemetry_poll_sec)
            || any (λ field. is_named (payload field)) poll_bound_sample_fields)
          && has_conflict payload stored)
        ≡ false
      → IsSound stored
      → IsSound updated
  unfolding updated
  updated-IsSound valid free sound = elim (Bool-cases (has_conflict payload stored)) [
    | inr clear ↦ record {
      fits = (λ field.
          column-FitsIn field (payload field) (stored field) (valid field) (sound.fits field));
      node_metrics = ground (arith, clear);
      peers = ground (arith, clear);
    }
    | inl e ↦ record {
      fits = (λ field.
          column-FitsIn field (payload field) (stored field) (valid field) (sound.fits field));
      node_metrics =
          pair_kept node_metrics_sample_sec (ground (arith, e, free)) (ground (arith, e, free))
            sound.node_metrics;
      peers =
          pair_kept peer_sample_sec (ground (arith, e, free)) (ground (arith, e, free)) sound.peers;
    }
  ]

  saved-IsSound : IsSound stored → IsSound (row_after (update_periods payload stored) stored)
  unfolding update_periods updated
  saved-IsSound sound =
      elim (Bool-cases
        (every (λ field. worker_period_value field (payload field)) worker_period_field_names)) [
          | inr e ↦ rw (e, update_periods) sound
          | inl e ↦
              elim (Bool-cases (
                (is_named (payload telemetry_poll_sec)
                  || any (λ field. is_named (payload field)) poll_bound_sample_fields)
                && has_conflict payload stored)) [
                  | inl c ↦ rw (e, c, update_periods) sound
                  | inr c ↦
                      rw (e, c, update_periods)
                        (updated-IsSound
                          (each_field (λ field. worker_period_value field (payload field)) e) c
                          sound)
                ]
        ]

all-IsSound :
    (payloads : List Payload) (stored : Stored)
    → IsSound stored
    → IsSound (all_updates payloads stored)
unfolding all_updates
all-IsSound [] stored sound = sound
all-IsSound (payload ∷ payloads) stored sound =
    all-IsSound payloads (row_after (update_periods payload stored) stored)
      (saved-IsSound payload stored sound)

clamp-fits :
    (field : Field) (o : Option ℕ) (default : ℕ)
    → FitsIn field o
    → or_else (clamp_worker_period field (elim o [ none ↦ none | some n ↦ some (whole n) ])) default
      ≡ or_else o default
unfolding clamp_worker_period
clamp-fits field none default h = refl
clamp-fits field (some n) default h = ground (arith, h)

abbrev fallbacks : Field → ℕ
fallbacks field = (worker_period_fields field).fallback

runs :
    (stored : Stored) (field : Field)
    → IsSound stored
    → unbounded field (read_worker_period_overrides stored) fallbacks ≡ shown stored field
unfolding unbounded
runs stored field sound = clamp-fits field (stored field) (fallbacks field) (sound.fits field)

agrees :
    (stored : Stored) (field : Field)
    → IsSound stored
    → is_poll_bound field ≡ true
    → AgreesWithPoll stored field
agrees stored node_metrics_sample_sec sound h = sound.node_metrics
agrees stored peer_sample_sec sound h = sound.peers
agrees stored _ sound h = absurd (ground (arith, h))

resolve-shown :
    (stored : Stored) (field : Field)
    → IsSound stored
    → resolve_worker_period field (read_worker_period_overrides stored) fallbacks
      ≡ shown stored field
unfolding resolve_worker_period
resolve-shown stored field sound = elim (Bool-cases (is_poll_bound field)) [
  | inr e ↦ rw (e, resolve_worker_period, runs stored field sound) refl
  | inl e ↦
      rw (e, resolve_worker_period, runs stored field sound, runs stored telemetry_poll_sec sound)
        (ground (arith, agrees stored field sound e))
]

nothing_saved : Stored
nothing_saved field = none

nothing_saved-IsSound : IsSound nothing_saved
unfolding nothing_saved worker_period_fields
nothing_saved-IsSound = record {
  fits = (λ field. tt);
  node_metrics = omega arith;
  peers = omega arith;
}

-- Whatever updates reach a panel where no period was saved, refused ones included, a worker whose
-- environment sets no period runs each period that the panel shows: the stored one, or the default.
pub all_updates-shown :
    (payloads : List Payload) (field : Field)
    → resolve_worker_period field
        (read_worker_period_overrides (all_updates payloads (λ f. none)))
        (λ f. (worker_period_fields f).fallback)
      ≡ shown (all_updates payloads (λ f. none)) field
unfolding nothing_saved
all_updates-shown payloads field =
    resolve-shown (all_updates payloads nothing_saved) field
      (all-IsSound payloads nothing_saved nothing_saved-IsSound)
