-- ===== src/Webhook/Accepts.antt =====
-- Which objects the webhook lets in.
use stale_secrets_check.Prelude.{
  ◌≡◌, ◌≢◌, ◌↔◌, refl, false, Option, none, some, List, [], ◌∷◌, arith, eq_iff, All, pos, ◌<ℤ◌,
}
use stale_secrets_check.Api.{ExcludeList, StaleSecretWatch, Int64}
use stale_secrets_check.Strings.{has_char}
use stale_secrets_check.Clock.{hour}
use stale_secrets_check.Webhook.{
  default_interval, validate_exclude, validate_exclude_list, validate_rest,
  validate_stale_secret_watch,
}

-- An entry of the exclude list that names a secret and a single namespace.
pub record IsValidExclude (e : ExcludeList) : Type 0 where
  pub secret_name : e.secret_name ≢ ""
  pub namespace : e.namespace ≢ ""
  pub no_comma : has_char b',' e.namespace ≡ false
  pub no_space : has_char b' ' e.namespace ≡ false

abbrev pub IsValidInterval : Option Int64 → Type 0
IsValidInterval none = Unit
IsValidInterval (some d) = pos 0 <ℤ d

pub record IsAcceptable (r : StaleSecretWatch) : Type 0 where
  pub namespace : r.spec.stale_secret_to_watch.namespace ≢ ""
  pub excludes : All IsValidExclude r.spec.stale_secret_to_watch.exclude_list
  pub threshold : pos 0 <ℤ r.spec.stale_threshold_in_days
  pub interval : IsValidInterval r.spec.refresh_interval

validate_exclude_iff : (e : ExcludeList) → (validate_exclude e ≡ none) ↔ IsValidExclude e
unfolding validate_exclude
validate_exclude_iff e = ground (arith, eq_iff e.secret_name "", eq_iff e.namespace "")

validate_exclude_list_iff :
    (es : List ExcludeList) → (validate_exclude_list es ≡ none) ↔ All IsValidExclude es
unfolding validate_exclude_list
validate_exclude_list_iff [] = (λ _. tt, λ _. refl)
validate_exclude_list_iff (e ∷ es) =
    ground (arith, validate_exclude_iff e, validate_exclude_list_iff es)

-- the interval that the code works with
abbrev pub interval_or_hour : Option Int64 → Int64
interval_or_hour none = hour
interval_or_hour (some d) = d

pub default_interval_lem :
    (r : StaleSecretWatch)
    → default_interval r ≡ record r {
      spec = record r.spec { refresh_interval = some (interval_or_hour r.spec.refresh_interval) };
    }
unfolding default_interval
default_interval_lem r = ground arith

interval_iff : (o : Option Int64) → (pos 0 <ℤ interval_or_hour o) ↔ IsValidInterval o
interval_iff none = (λ _. tt, λ _. omega arith)
interval_iff (some d) = (λ h. h, λ h. h)

-- The webhook returns no error exactly for the objects whose namespace is not empty, whose exclude
-- entries are valid, whose threshold is positive and whose interval is absent or positive.
pub validate-none_iff :
    (r : StaleSecretWatch) → ((validate_stale_secret_watch r).1 ≡ none) ↔ IsAcceptable r
unfolding validate_stale_secret_watch validate_rest
validate-none_iff r = ground (
  arith,
  eq_iff "" "all",
  eq_iff r.spec.stale_secret_to_watch.namespace "",
  eq_iff r.spec.stale_secret_to_watch.namespace "all",
  validate_exclude_list_iff r.spec.stale_secret_to_watch.exclude_list,
  interval_iff r.spec.refresh_interval,
)
