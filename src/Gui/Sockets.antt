-- ===== src/Gui/Sockets.antt =====
-- GUI/backend/websocket_handler.py: the list of connections and the broadcasts over it. A socket is
-- a number; whether it is connected, and whether a message can be sent to it, are arguments.
pub mod Laws
use smartedge.Base.{ℕ, ◌+◌, Bool, true, false, not, Option, none, some, List, [], ◌∷◌, ◌++◌}
use smartedge.Base.{◌&&◌, ◌==◌, elem, if◌then◌else◌}
use smartedge.Base.Exec.{Exec, ok, raised, value_error}

-- A client is accepted and appended.
unfoldable pub connect_client : ℕ → List ℕ → List ℕ
connect_client websocket active_connections = active_connections ++ websocket ∷ []

abbrev pub cons_rest : ℕ → Option (List ℕ) → Option (List ℕ)
cons_rest x none = none
cons_rest x (some xs) = some (x ∷ xs)

-- `active_connections.remove(ws)`, where `none` is the `ValueError`.
unfoldable pub remove : ℕ → List ℕ → Option (List ℕ)
remove ws [] = none
remove ws (x ∷ xs) = let rest = remove ws xs in if ws == x then some xs else cons_rest x rest

abbrev or_same : Option (List ℕ) → List ℕ → List ℕ
or_same none xs = xs
or_same (some ys) xs = ys

unfoldable pub disconnect_client : ℕ → List ℕ → List ℕ
unfolding remove
disconnect_client websocket xs = if elem websocket xs then or_same (remove websocket xs) xs else xs

-- The sockets to which the message could not be sent, in order.
unfoldable pub disconnected : (ℕ → Bool) → List ℕ → List ℕ
disconnected sends [] = []
disconnected sends (ws ∷ xs) =
    let rest = disconnected sends xs in if sends ws then rest else ws ∷ rest

-- The second loop of `broadcast_message`, which passes over a `ValueError`.
unfoldable pub drop_quietly : List ℕ → List ℕ → List ℕ
drop_quietly [] xs = xs
drop_quietly (ws ∷ gone) xs = drop_quietly gone (or_same (remove ws xs) xs)

unfoldable pub broadcast_message : (ℕ → Bool) → List ℕ → List ℕ
unfolding disconnected drop_quietly
broadcast_message sends xs = drop_quietly (disconnected sends xs) xs

-- The second loop of `broadcast_to_db_clients`, which catches a `KeyError` alone.
unfoldable pub drop_each : List ℕ → Exec (List ℕ) (Unit {0})
drop_each [] xs = (ok tt, xs)
drop_each (ws ∷ gone) xs = elim (remove ws xs) [
  | none ↦ (raised value_error, xs)
  | some ys ↦ drop_each gone ys
]

-- `encodes` is whether the message has an encoding.
unfoldable pub broadcast_to_db_clients : Bool → (ℕ → Bool) → (ℕ → Bool) → Exec (List ℕ) (Unit {0})
unfolding disconnected drop_each
broadcast_to_db_clients encodes is_connected sends xs =
    if encodes
    then drop_each (disconnected (λ ws. is_connected ws && sends ws) xs) xs
    else (ok tt, xs)
