-- ===== src/Router/Tests.antt =====
-- Messages through the controller, and a node that is found at the third request.
use modbus_tcplogger.Common.{
  ℕ, ◌≡◌, refl, Option, none, some, List, [], ◌∷◌, if◌then◌else◌, ltb, arith,
}
use modbus_tcplogger.Router.{
  request, command, event, Input, from_api, from_reader, from_db, device_event, node_event,
  node_command, get_measure, create_new_node,
}
use modbus_tcplogger.Router.Paths.{
  works, heard, reader_events, measured, expected, commands_of, api_commands, commands-works,
  events_reach_both,
}
use modbus_tcplogger.Router.Tries.{Ends, create_new_node-Ends}

abbrev inputs : List (Input ℕ)
inputs =
    from_reader (some (event (device_event 1)))
    ∷ from_api (some (command (node_command 2)))
    ∷ from_reader (some (event (node_event 3)))
    ∷ from_api (some (request (get_measure 4)))
    ∷ from_db (some 5)
    ∷ from_reader (some (command (node_command 6)))
    ∷ from_reader (some (event (device_event 7)))
    ∷ []

abbrev log : ℕ → List ℕ → List ℕ
log p s = p ∷ s

-- The newest comes first.
expected_log : expected log log inputs [] ≡ 7 ∷ 4 ∷ 1 ∷ []
expected_log = refl

events_reach_both_example :
    (measured log log (works inputs) [] ≡ expected log log inputs [])
    × (heard inputs ≡ reader_events inputs)
events_reach_both_example = events_reach_both log log inputs []

commands-works_example : commands_of (works inputs) ≡ api_commands inputs
commands-works_example = commands-works inputs

abbrev third : ℕ → Option ℕ
third n = if ltb n 2 then none else some 42

third_try : create_new_node 5 third 0 ≡ (some 42, 3)
unfolding create_new_node
third_try = refl

create_new_node-Ends_example : Ends third (create_new_node 5 third 0)
create_new_node-Ends_example = create_new_node-Ends 5 third (omega arith)
