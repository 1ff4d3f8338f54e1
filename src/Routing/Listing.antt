-- ===== src/Routing/Listing.antt =====
-- The models that a key can call: list_available_models of backend/app/providers/registry.py.

use five_api.Base.{ℕ, String, Bool, true, List, [], ◌∷◌, ◌++◌, if◌then◌else◌, keep_if}
use five_api.Models.{Channel}
use five_api.Routing.Order.{among, listed}

pub record ListedModel : Type 0 where
  pub id : String
  pub owned_by : String

abbrev pub see : Channel → String → List String × List ListedModel → List String × List ListedModel
see ch m (seen, models) =
    if among m seen
    then (seen, models)
    else (m ∷ seen, models ++ record { id = m; owned_by = ch.provider } ∷ [])

unfoldable pub see_all :
    Channel → List String → List String × List ListedModel → List String × List ListedModel
see_all ch [] found = found
see_all ch (m ∷ ms) found = see_all ch ms (see ch m found)

unfoldable pub see_channels :
    List Channel → List String × List ListedModel → List String × List ListedModel
unfolding see_all
see_channels [] found = found
see_channels (ch ∷ chs) found = see_channels chs (see_all ch ch.models found)

-- `if channel_ids`
abbrev pub selected : List ℕ → Channel → Bool
selected [] ch = true
selected (i ∷ is) ch = listed ch.id (i ∷ is)

unfoldable pub list_available_models : List ℕ → List Channel → List ListedModel
unfolding see_channels
list_available_models ids channels = (see_channels (keep_if (selected ids) channels) ([], [])).1
