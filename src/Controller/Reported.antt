-- ===== src/Controller/Reported.antt =====
-- What a daily check that was done has written to the status.
mod Tests
use stale_secrets_check.Prelude.{
  ◌+◌, true, false, Option, none, some, List, [], ◌∷◌, ◌++◌, In, Option-cases, Bool-cases,
  In-append_right, ◌≡◌, refl, sym, ap, ◌∙◌, inl, inr, arith,
}
use mathlib.Core.Path.{subst}
use stale_secrets_check.Api.{
  Time, Result, StaleSecretWatch, StaleSecretWatchStatus, ConfigMap, key_of,
}
use stale_secrets_check.Exec.{
  text_error, same_error, Effect, update_watch_status, Error, ok, err, Fallible-cases, Outcome, Sys,
  Exec, ret, ask, pure, ◌>>=◌, >>=-eq-ret,
}
use stale_secrets_check.Exec.Yields.{Yields, bind-Yields, pure-Yields}
use stale_secrets_check.ConfigData.{ConfigData}
use stale_secrets_check.Hash.{bytes_at}
use stale_secrets_check.Staleness.{check_namespaces}
use stale_secrets_check.Staleness.Exact.{report, check_namespaces-Adds}
use stale_secrets_check.Staleness.Failure.{check_namespaces-none_iff}
use stale_secrets_check.Clock.{sub_time, add_time}
use stale_secrets_check.Cluster.{System}
use stale_secrets_check.Notify.{notify_slack, not_set}
use stale_secrets_check.Store.{config_map_key, empty_config_map}
use stale_secrets_check.Controller.Status.{no_result, empty_watch, update_secret_statuses}
use stale_secrets_check.Controller.Daily.{
  failed, after, day, Checked, schedule, push_status, copy_status, store_statuses, after_notify,
  after_statuses, check_config_map, run_checks, reset_status,
}

-- A check that was done without an error.
abbrev WhenDone : {W : Type 0} → (Sys W → Type 0) → Checked → Sys W → Type 0
WhenDone R (true, result, none) s = R s
WhenDone R _ s = Unit

-- The status of some StaleSecretWatch was written with these statuses and their count.
abbrev IsWritten : {W : Type 0} → StaleSecretWatchStatus → Sys W → Type 0
IsWritten st s =
    (x : StaleSecretWatch) × In (update_watch_status x) s.effects
    × (x.status.secret_status ≡ st.secret_status)
    × (x.status.stale_secrets_count ≡ st.stale_secrets_count)

module _ {W : Type 0} (y : System W) where
  -- RetryOnConflict calls the function with the argument that it was given, and effects stay.
  abbrev pub CallsOnce : Type 0
  CallsOnce =
      (f : StaleSecretWatch → Exec W (StaleSecretWatch × Option Error)) (x : StaleSecretWatch)
      (s : Sys W)
      → ((z : StaleSecretWatch) (t : Sys W)
          → (l : List Effect) × ((f z t).1.effects ≡ l ++ t.effects))
      → (later : List Effect) × ((y.retry_on_conflict f x s).1.effects ≡ later ++ (f x s).1.effects)

  module _ (calls : CallsOnce) where
    schedule-IsWritten :
        (st : StaleSecretWatchStatus) (r : StaleSecretWatch × Option Error) (s : Sys W)
        → IsWritten st s
        → (a : Checked) (s' : Sys W) → schedule y r s ≡ (ret a, s')
        → WhenDone (IsWritten st) a s'
    unfolding schedule
    schedule-IsWritten st (x, some e) s h a s' same =
        pure-Yields (WhenDone (IsWritten st)) (failed e) a s s' tt same
    schedule-IsWritten st (x, none) s h a s' same =
        let (now, w) = y.now s.world in
        let (later, w') = y.now w in
        pure-Yields (WhenDone (IsWritten st))
          (true, after (sub_time (add_time now day) later), none) a (record s { world = w' }) s' h
          same

    store_statuses-IsWritten :
        (ssw : StaleSecretWatch) (r : StaleSecretWatch × Option Error)
        → Yields (WhenDone (IsWritten ssw.status)) (store_statuses y ssw r)
    unfolding store_statuses
    store_statuses-IsWritten ssw (x, some e) a s s' h =
        pure-Yields (WhenDone (IsWritten ssw.status)) (failed e) a s s' tt h
    store_statuses-IsWritten ssw (x, none) a s s' h =
        let new = copy_status ssw x in
        let (tried, t, first, rest) =
          >>=-eq-ret (y.retry_on_conflict (push_status y) new) (schedule y) a s s' h in
        let (later, more) =
          calls (push_status y) new s (λ z t. (update_watch_status z ∷ [], refl)) in
        let there : In (update_watch_status new) t.effects =
          subst (In (update_watch_status new))
            (sym more
              ∙ ap (λ (r : Outcome (StaleSecretWatch × Option Error) × Sys W). r.1.effects) first)
            (In-append_right (update_watch_status new) later (update_watch_status new ∷ s.effects)
              (inl refl)) in
        schedule-IsWritten ssw.status tried t (new, there, refl, refl) a s' rest

    after_notify-IsWritten :
        (ssw : StaleSecretWatch) (e : Option Error)
        → Yields (WhenDone (IsWritten ssw.status)) (after_notify y ssw e)
    unfolding after_notify
    after_notify-IsWritten ssw (some e) a s s' h =
        elim (Bool-cases (same_error e (text_error s.next_address not_set))) [
          | inl same ↦
              pure-Yields (WhenDone (IsWritten ssw.status)) (false, no_result, none) a
                (record s { next_address = s.next_address + 1 }) s' tt
                (rw (same, after_notify) at h)
          | inr other ↦
              pure-Yields (WhenDone (IsWritten ssw.status)) (failed e) a
                (record s { next_address = s.next_address + 1 }) s' tt
                (rw (other, after_notify) at h)
        ]
    after_notify-IsWritten ssw none a s s' h =
        bind-Yields (WhenDone (IsWritten ssw.status))
          (ask (y.get_watch (key_of ssw.meta) empty_watch)) (store_statuses y ssw)
          (store_statuses-IsWritten ssw) a s s' h

    after_statuses-IsWritten :
        (ssw : StaleSecretWatch)
        → Yields (WhenDone (IsWritten ssw.status)) (after_statuses y (ssw, none))
    unfolding after_statuses
    after_statuses-IsWritten ssw a s s' h =
        bind-Yields (WhenDone (IsWritten ssw.status)) (notify_slack y ssw) (after_notify y ssw)
          (after_notify-IsWritten ssw) a s s' h

  -- What updateSecretStatuses has added where it reports no error.
  update_secret_statuses_lem :
      (cm : ConfigMap) (ssw ssw' : StaleSecretWatch) (s t : Sys W)
      → update_secret_statuses y cm ssw s ≡ (ret (ssw', none), t)
      → (config : ConfigData) × (y.unmarshal_config (bytes_at "data" cm.binary_data) ≡ ok config)
        × (ssw'.status.secret_status
            ≡ ssw.status.secret_status
              ++ report y.parse_rfc3339
                  (y.now s.world).0
                  ssw.spec.stale_threshold_in_days
                  config.namespaces)
  unfolding update_secret_statuses
  update_secret_statuses_lem cm ssw ssw' s t h =
      elim (Fallible-cases (y.unmarshal_config (bytes_at "data" cm.binary_data))) [
        | inr (e, bad) ↦ absurd (ground arith)
        | inl (config, good) ↦
            let now = (y.now s.world).0 in
            let h' = rw (good, update_secret_statuses) at h in
            let fine : (check_namespaces y.parse_rfc3339 now ssw.spec.stale_threshold_in_days
                  config.namespaces ssw.status).1
                ≡ none =
              ground arith in
            let parse =
              (check_namespaces-none_iff y.parse_rfc3339 now ssw.spec.stale_threshold_in_days
                  config.namespaces ssw.status).0
                fine in
            let added =
              check_namespaces-Adds y.parse_rfc3339 now ssw.spec.stale_threshold_in_days
                config.namespaces ssw.status parse in
            (config, good, ground (arith, added.1))
      ]

  -- What a ConfigMap reports of an object's days at an instant: a StaleSecretWatch was written whose
  -- statuses are those of exactly the stale secrets of the decoded data.
  abbrev pub IsReported : StaleSecretWatch → ConfigMap → Time → Sys W → Type 0
  IsReported ssw cm now s =
      (config : ConfigData) × (x : StaleSecretWatch) × (y.unmarshal_config
          (bytes_at "data" cm.binary_data)
        ≡ ok config)
      × In (update_watch_status x) s.effects
      × (x.status.secret_status
          ≡ report y.parse_rfc3339 now ssw.spec.stale_threshold_in_days config.namespaces)

  WhenDone-map :
      (R R' : Sys W → Type 0) (a : Checked) (s : Sys W)
      → (R s → R' s)
      → WhenDone R a s
      → WhenDone R' a s
  WhenDone-map R R' (true, result, none) s f h = f h
  WhenDone-map R R' (true, result, some e) s f h = tt
  WhenDone-map R R' (false, result, none) s f h = tt
  WhenDone-map R R' (false, result, some e) s f h = tt

  module _ (calls : CallsOnce) where
    after_update-IsReported :
        (ssw ssw' : StaleSecretWatch) (cm : ConfigMap) (e : Option Error) (a : Checked)
        (s t s' : Sys W)
        → ssw.status.secret_status ≡ []
        → update_secret_statuses y cm ssw s ≡ (ret (ssw', e), t)
        → after_statuses y (ssw', e) t ≡ (ret a, s')
        → WhenDone (IsReported ssw cm (y.now s.world).0) a s'
    unfolding after_statuses
    after_update-IsReported ssw ssw' cm (some e) a s t s' fresh first rest =
        pure-Yields (WhenDone (IsReported ssw cm (y.now s.world).0)) (failed e) a t s' tt rest
    after_update-IsReported ssw ssw' cm none a s t s' fresh first rest =
        let (config, good, added) = update_secret_statuses_lem cm ssw ssw' s t first in
        WhenDone-map (IsWritten ssw'.status) (IsReported ssw cm (y.now s.world).0) a s'
          (λ written.
            let (x, there, same, _) = written in
            (config, x, good, there, same ∙ added ∙ rw fresh refl))
          (after_statuses-IsWritten calls ssw' a t s' rest)

    check_config_map-IsReported :
        (ssw : StaleSecretWatch) (cm : ConfigMap)
        → ssw.status.secret_status ≡ []
        → (a : Checked) (s s' : Sys W) → check_config_map y ssw (cm, none) s ≡ (ret a, s')
        → WhenDone (IsReported ssw cm (y.now s.world).0) a s'
    unfolding check_config_map
    check_config_map-IsReported ssw cm fresh a s s' h =
        let ((ssw', e), t, first, rest) =
          >>=-eq-ret (update_secret_statuses y cm ssw) (after_statuses y) a s s' h in
        after_update-IsReported ssw ssw' cm e a s t s' fresh first rest

    -- Where RetryOnConflict calls the function with the argument that it was given: a check in the
    -- window that was done without an error has got a ConfigMap whose data can be decoded, and has
    -- written to the status of a StaleSecretWatch the statuses of exactly the stale secrets of that
    -- data, at the instant that the clock answered behind the read, in their order.
    pub run_checks-IsReported :
        (ssw : StaleSecretWatch) (result : Result) (s s' : Sys W)
        → run_checks y ssw s ≡ (ret (true, result, none), s')
        → let ((cm, _), w) = y.get_config_map config_map_key empty_config_map s.world in
          IsReported ssw cm (y.now w).0 s'
    unfolding run_checks
    run_checks-IsReported ssw result s s' h =
        let ((cm, e), w) = y.get_config_map config_map_key empty_config_map s.world in
        elim (Option-cases e) [
          | inr (x, bad) ↦ absurd (ground arith)
          | inl fine ↦
              check_config_map-IsReported (reset_status ssw) cm refl (true, result, none)
                (record s { world = w }) s' (rw (fine, run_checks) at h)
        ]
