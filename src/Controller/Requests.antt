-- ===== src/Controller/Requests.antt =====
-- The function of SetupWithManager that turns a change of a Secret into requests.
use mathlib.Core.List.{map}
use stale_secrets_check.Prelude.{List, []}
use stale_secrets_check.Api.{NamespacedName, key_of}
use stale_secrets_check.Exec.{ok, err, Exec, ask, pure, ◌>>=◌}
use stale_secrets_check.Cluster.{System}

-- A request for each StaleSecretWatch; nil where they cannot be listed.
unfoldable pub map_secret : {W : Type 0} → System W → Exec W (List NamespacedName)
map_secret y = do
  listed ← ask y.list_watches
  elim listed [ err _ ↦ pure [] | ok items ↦ pure (map key_of items) ]
