-- ===== src/ConfigData/Tests.antt =====
-- A ConfigData of one secret, and two readings.
use mathlib.Core.List.{Permᴰ}
use stale_secrets_check.ConfigData.Order.{secret_key, view-store_all_perm}
use stale_secrets_check.Prelude.{
  ◌≢◌, ap, Distinct, String, eq_iff, ◌≡◌, refl, true, some, [], ◌∷◌, ◌==◌, ◌&&◌, if◌then◌else◌, ◌⊎◌,
  ◌++◌, arith,
}
use stale_secrets_check.ConfigData.{
  Secret, ConfigData, Reading, has_hash, store_reading, update_or_append_secret_data,
}
use stale_secrets_check.ConfigData.View.{view}
use stale_secrets_check.ConfigData.Update.{touched, view-store_reading}
use stale_secrets_check.ConfigData.Hashes.{NoRepeats, update_lem, update_idempotent}
use stale_secrets_check.ConfigData.Kept.{store_all}
use stale_secrets_check.ConfigData.Valid.{IsValid, store_reading-IsValid}

abbrev db : Secret
db = record {
  name = "db";
  created = "c";
  last_modified = "m";
  history = record { data_hash = "1" } ∷ [];
  type = "Opaque";
}

abbrev one : ConfigData
one = record { namespaces = record { name = "app"; secrets = db ∷ [] } ∷ [] }

abbrev changed : Reading
changed = record {
  namespace = "app";
  name = "db";
  new_hash = "2";
  created = "c";
  last_modified = "n";
  secret_type = "Opaque";
}

one-IsValid : IsValid one
unfolding has_hash
one-IsValid = record {
  distinct = (tt, tt);
  namespaces = (
    record {
      distinct = (tt, tt);
      secrets = (record { nonempty = λ e. absurd (ground arith); no_repeats = (refl, tt) }, tt);
    },
    tt,
  );
}

store_reading_tests : store_reading changed one ≡ (
  record {
    namespaces =
        record {
          name = "app";
          secrets =
              record db {
                last_modified = "n";
                history = record { data_hash = "1" } ∷ record { data_hash = "2" } ∷ [];
              }
              ∷ [];
        }
        ∷ [];
  },
  true,
)
unfolding store_reading
store_reading_tests = refl

view-store_reading_example : view (store_reading changed one).0 "app" "db" ≡ (
    if changed.namespace == "app" && changed.name == "db"
    then some (touched changed (view one "app" "db"))
    else view one "app" "db")
view-store_reading_example = view-store_reading changed one "app" "db"

store_reading-IsValid_example : IsValid (store_reading changed one).0
store_reading-IsValid_example = store_reading-IsValid changed one one-IsValid

update_lem_example :
    let s' = update_or_append_secret_data "2" "n" db in
    (has_hash "2" s'.history ≡ true)
    × (s'.history ≡ db.history ⊎ s'.history ≡ db.history ++ record { data_hash = "2" } ∷ [])
    × NoRepeats s'.history
    × (s'.last_modified ≡ "n")
unfolding has_hash
update_lem_example = update_lem "2" "n" db (refl, tt)

update_idempotent_example :
    let once = update_or_append_secret_data "2" "n" db in
    update_or_append_secret_data "2" "n" once ≡ once
update_idempotent_example = update_idempotent "2" "n" db

abbrev other : Reading
other = record changed { name = "web" }

names_differ : ◌≢◌ {A = String} "web" "db"
names_differ e = ground (arith, eq_iff "web" "db")

other-≢ : secret_key other ≢ secret_key changed
other-≢ e = names_differ (ap (λ (p : String × String). p.1) e)

distinct : Distinct secret_key (changed ∷ other ∷ [])
distinct = ((other-≢, tt), (tt, tt))

swapped : Permᴰ (changed ∷ other ∷ []) (other ∷ changed ∷ [])
swapped = Permᴰ.swap refl refl

view-store_all_perm_example :
    view (store_all (changed ∷ other ∷ []) one) "app" "db"
    ≡ view (store_all (other ∷ changed ∷ []) one) "app" "db"
view-store_all_perm_example = view-store_all_perm one "app" "db" swapped distinct
