-- ===== src/Controller/Outcomes/Versions.antt =====
-- The daily checks of a Reconcile that has written a condition to the object.
use stale_secrets_check.Prelude.{
  String, true, false, ltb_ℤ, Option, none, some, ◌∷◌, ◌≡◌, ◌≢◌, ◌∙◌, arith,
}
use stale_secrets_check.Api.{NamespacedName, Time, StaleSecretWatch, ConfigMap, key_of}
use stale_secrets_check.Exec.{Sys, Error, event, update_watch, Outcome, ret}
use stale_secrets_check.Clock.{sub_time}
use stale_secrets_check.Cluster.{System}
use stale_secrets_check.Controller.Status.{
  no_result, stamped, update_status_condition, update_last_checked_annotation,
}
use stale_secrets_check.Controller.Daily.{day, last_checked, check_in_window, perform_daily_checks}
use stale_secrets_check.Controller.Reconcile.{reconcile_complete, finish, after_store}

-- The API server keeps a resource version of each object that is there, and refuses an Update of that
-- object with another one, which is not empty, as a conflict; reading the clock leaves the versions.
pub record Versioned {W : Type 0} (y : System W) : Type 0 where
  pub version : NamespacedName → W → Option String
  pub refuses :
      (x : StaleSecretWatch) (w : W) (current : String)
      → version (key_of x.meta) w ≡ some current
      → x.meta.resource_version ≢ ""
      → x.meta.resource_version ≢ current
      → (e : Error) × ((y.update_watch x w).0.1 ≡ some e) × (y.is_conflict e ≡ true)
  pub now : (k : NamespacedName) (w : W) → version k (y.now w).1 ≡ version k w

module _ {W : Type 0} (y : System W) (v : Versioned y) where
  -- The method answers a conflict, and its last effect is the write of the annotation to the object
  -- behind the effects of `t`.
  abbrev pub IsRefused :
      {A : Type 0} → (Error → A) → StaleSecretWatch → Sys W → Outcome A × Sys W → Type 0
  IsRefused answer ssw t out =
      (e : Error) × (stamp : Time) × (y.is_conflict e ≡ true)
      × (out.0 ≡ ret (answer e))
      × (out.1.effects ≡ update_watch (stamped y stamp ssw) ∷ t.effects)

  perform_daily_checks-IsRefused :
      (ssw : StaleSecretWatch) (t : Sys W) (current : String)
      → v.version (key_of ssw.meta) t.world ≡ some current
      → ssw.meta.resource_version ≢ ""
      → ssw.meta.resource_version ≢ current
      → ltb_ℤ (sub_time (y.now t.world).0 (last_checked y ssw)) day ≡ false
      → IsRefused (λ e. (false, no_result, some e)) ssw t (perform_daily_checks y ssw t)
  unfolding perform_daily_checks update_last_checked_annotation check_in_window stamped
  perform_daily_checks-IsRefused ssw t current is given old due =
      let (now, w) = y.now t.world in
      let (stamp, w') = y.now w in
      let x = stamped y stamp ssw in
      let key = key_of ssw.meta in
      let (e, bad, conflict) =
        v.refuses x w' current (v.now key w ∙ v.now key t.world ∙ is) given old in
      (e, stamp, conflict, ground (arith, bad, due), ground (arith, bad, due))

  -- Where the API server refuses an Update of an object that is there with an old resource version as
  -- a conflict: if the condition ReconcileComplete was written without an error, and the object is
  -- there since with another resource version than the one that Reconcile goes on with, which is not
  -- empty, and the last check was a day ago or more, then no check is done: Reconcile ends with a conflict, and its last effect behind the condition is
  -- the refused write of the annotation.
  pub after_store-IsRefused :
      (ssw : StaleSecretWatch) (cm : ConfigMap) (current : String) (s t : Sys W)
      → let complete =
          event (key_of ssw.meta) "Normal" "ReconcileComplete" "Reconciliation complete" in
        update_status_condition y ssw reconcile_complete
            (record s { effects = complete ∷ s.effects })
          ≡ (ret none, t)
        → v.version (key_of ssw.meta) t.world ≡ some current
        → ssw.meta.resource_version ≢ ""
        → ssw.meta.resource_version ≢ current
        → ltb_ℤ (sub_time (y.now t.world).0 (last_checked y ssw)) day ≡ false
        → IsRefused (λ e. (no_result, some e)) ssw t (after_store y ssw (cm, none) s)
  unfolding after_store finish
  after_store-IsRefused ssw cm current s t first is given old due =
      let (e, stamp, conflict, checked, last) =
        perform_daily_checks-IsRefused ssw t current is given old due in
      (e, stamp, conflict, ground (arith, first, checked), ground (arith, first, checked, last))
