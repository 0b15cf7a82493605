-- ===== src/Coordinator/SwarmNode.antt =====
-- `Swarm_Node_Handler` and `handle_swarm_node` of coordinator/coordinator.py.
use smartedge.Base.{◌≡◌, Bool, true, false, Option, none, some, List, [], ◌∷◌, ◌||◌, arith}
use smartedge.Base.{Text, codes, ◌=?◌, if◌then◌else◌}
use smartedge.Base.Exec.{Result, ok, raised, key_error, attribute_error}

-- What was received: a text that is no JSON object, or the key `TYPE` where it is there.
pub data Message : Type 0 where
  unreadable : Message
  typed : Option Text → Message

-- The prompt is repeated until the answer is '1' or '0'. `none`: the input is not there yet.
unfoldable pub user_input_respond_to_node_request : List Text → Option Text
user_input_respond_to_node_request [] = none
user_input_respond_to_node_request (line ∷ lines) =
    let rest = user_input_respond_to_node_request lines in
    if line =? codes "1" || line =? codes "0" then some line else rest

-- The comparison of the text with the number 1 fails whatever was typed; the answer then names
-- `self.message`, which the class does not have.
leave_answered : Option Text → Option (Result (Unit {0}))
leave_answered none = none
leave_answered (some ret_val) = some (raised attribute_error)

-- `handle_message`; `accept_join_request` is no method of the class. `none`: it waits for input.
unfoldable pub handle_message : Option Text → List Text → Option (Result (Unit {0}))
unfolding user_input_respond_to_node_request leave_answered
handle_message none lines = some (raised key_error)
handle_message (some kind) lines =
    if kind =? codes "JOIN_REQUEST"
    then some (raised attribute_error)
    else if kind =? codes "Node_Left_AP"
    then some (ok tt)
    else if kind =? codes "LEAVE_REQUEST"
    then leave_answered (user_input_respond_to_node_request lines)
    else some (ok tt)

-- Whether the handler of the connection ended in an exception, which it prints.
unfoldable pub handle_swarm_node : Message → List Text → Option Bool
unfolding handle_message
handle_swarm_node unreadable lines = some true
handle_swarm_node (typed kind) lines = elim (handle_message kind lines) [
  | none ↦ none
  | some r ↦ elim r [ ok u ↦ some false | raised e ↦ some true ]
]

-- An operator's answer to a leave request always ends in an exception, for '1' as for '0'.
pub handle_message-leave :
    (lines : List Text) (answer : Text)
    → user_input_respond_to_node_request lines ≡ some answer
    → handle_swarm_node (typed (some (codes "LEAVE_REQUEST"))) lines ≡ some true
unfolding handle_swarm_node codes ◌=?◌
handle_message-leave lines answer h = ground (arith, h)
