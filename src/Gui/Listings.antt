-- ===== src/Gui/Listings.antt =====
-- GUI/backend/coordinator_log_server.py: the list of the swarms and the
-- heartbeat of a node. An answer
-- of the database is `none` where the connection or the query fails; then the list is empty, and
-- nothing of the heartbeat is shown.
pub mod Laws
use smartedge.Base.{
  ℕ, suc, ◌≡◌, refl, Bool, true, false, Option, none, some, List, [], ◌∷◌, ◌++◌, ltb, arith,
}
use smartedge.Base.{Text, codes, ◌||◌, ◌&&◌, ◌==◌, if◌then◌else◌}
use smartedge.Base.Decimal.{dec}
use smartedge.Gui.Requests.{swarm_tables}

-- `str.__le__`, by code points
unfoldable pub text_leb : Text → Text → Bool
text_leb [] t = true
text_leb (a ∷ s) [] = false
text_leb (a ∷ s) (b ∷ t) = let rest = text_leb s t in ltb a b || (a == b && rest)

unfoldable pub insert : Text → List Text → List Text
unfolding text_leb
insert x [] = x ∷ []
insert x (y ∷ ys) = let rest = insert x ys in if text_leb x y then x ∷ y ∷ ys else y ∷ rest

-- `sorted`
unfoldable pub sorted : List Text → List Text
unfolding insert
sorted [] = []
sorted (x ∷ xs) = insert x (sorted xs)

pub record Swarm : Type 0 where
  pub name : Text
  pub table : Text

-- `enumerate`, from the index of the first
unfoldable pub numbered : ℕ → List Text → List Swarm
numbered i [] = []
numbered i (t ∷ ts) =
    record { name = codes "Swarm " ++ dec (suc i); table = t } ∷ numbered (suc i) ts

-- The names are those of the tables of the keyspace.
unfoldable pub get_swarms : Option (List Text) → List Swarm
unfolding swarm_tables sorted numbered
get_swarms none = []
get_swarms (some names) = numbered 0 (sorted (swarm_tables names))

-- `fetch_heartbeat_characteristics`, with the row of a key and the row of a state. Where either
-- query fails, neither is shown.
unfoldable pub fetch_heartbeat_characteristics :
    {K S : Type 0} → Option (Option K) → Option (Option S) → Option K × Option S
fetch_heartbeat_characteristics none state = (none, none)
fetch_heartbeat_characteristics (some key) none = (none, none)
fetch_heartbeat_characteristics (some key) (some state) = (key, state)
