-- ===== src/Router/Paths.antt =====
-- The paths of messages through the controller and db_master.
use modbus_tcplogger.Common.{
  Bool, true, false, if◌then◌else◌, ◌≡◌, refl, ap, ◌∙◌, none, some, List, [], ◌∷◌, ◌++◌,
}
use modbus_tcplogger.Router.{
  Request, CommandType, MainMsg, request, command, event, Input, from_api, from_reader, from_db,
  Output, to_db, to_api, to_reader, Worker, Work, start, to_measures, node_event, device_event,
  get_measure, run_data_master, start_command, start_request, run_db_master, measure_master,
  command_node, command_device, command_value, user_commands, command_assign, group_commands,
  user_sub_group_command, update_token, node_get, devise_get, value_get, users_get, groups_get,
  user_sub_group_get, get_tokens, node_command, device_command, value_command, user_command,
  group_command, sub_group_command, assign_command, token_update, get_node, get_device, get_value,
  get_user, get_group, get_sub_group, get_token,
}

-- Whether the function works on a command.
abbrev is_command : Worker → Bool
is_command command_node = true
is_command command_device = true
is_command command_value = true
is_command user_commands = true
is_command command_assign = true
is_command group_commands = true
is_command user_sub_group_command = true
is_command update_token = true
is_command node_get = false
is_command devise_get = false
is_command value_get = false
is_command users_get = false
is_command groups_get = false
is_command user_sub_group_get = false
is_command get_tokens = false

module _ {P : Type 0} where
  abbrev works_of : List (Output P) → List (Work P)
  works_of [] = []
  works_of (to_db m ∷ os) = run_db_master m ++ works_of os
  works_of (to_api m ∷ os) = works_of os
  works_of (to_reader c ∷ os) = works_of os

  -- The work that the inputs of the controller lead to in db_master.
  unfoldable pub works : List (Input P) → List (Work P)
  works [] = []
  works (i ∷ is) = works_of (run_data_master i) ++ works is

  -- What the coordinator of the web sockets hears.
  abbrev heard_of : List (Output P) → List (MainMsg P)
  heard_of [] = []
  heard_of (to_db m ∷ os) = heard_of os
  heard_of (to_api m ∷ os) = m ∷ heard_of os
  heard_of (to_reader c ∷ os) = heard_of os

  unfoldable pub heard : List (Input P) → List (MainMsg P)
  heard [] = []
  heard (i ∷ is) = heard_of (run_data_master i) ++ heard is

  -- The events of the reader, in order.
  abbrev pub reader_events : List (Input P) → List (MainMsg P)
  reader_events [] = []
  reader_events (from_reader (some (event e)) ∷ is) = event e ∷ reader_events is
  reader_events (from_reader (some (request r)) ∷ is) = reader_events is
  reader_events (from_reader (some (command c)) ∷ is) = reader_events is
  reader_events (from_reader none ∷ is) = reader_events is
  reader_events (from_api m ∷ is) = reader_events is
  reader_events (from_db c ∷ is) = reader_events is

  -- The state of measure_master after the work that reaches it.
  abbrev pub measured : {S : Type 0} → (P → S → S) → (P → S → S) → List (Work P) → S → S
  measured write read [] s = s
  measured write read (start w p ∷ ws) s = measured write read ws s
  measured write read (to_measures m ∷ ws) s =
      measured write read ws (measure_master write read m s)

  abbrev asked : {S : Type 0} → (P → S → S) → Request P → S → S
  asked read (get_measure p) s = read p s
  asked read (get_node p) s = s
  asked read (get_device p) s = s
  asked read (get_value p) s = s
  asked read (get_user p) s = s
  asked read (get_group p) s = s
  asked read (get_sub_group p) s = s
  asked read (get_token p) s = s

  -- The device events of the reader and the queries of measures, from whichever side, in order.
  abbrev pub expected : {S : Type 0} → (P → S → S) → (P → S → S) → List (Input P) → S → S
  expected write read [] s = s
  expected write read (from_reader (some (event (device_event p))) ∷ is) s =
      expected write read is (write p s)
  expected write read (from_reader (some (event (node_event p))) ∷ is) s = expected write read is s
  expected write read (from_reader (some (request r)) ∷ is) s =
      expected write read is (asked read r s)
  expected write read (from_reader (some (command c)) ∷ is) s = expected write read is s
  expected write read (from_reader none ∷ is) s = expected write read is s
  expected write read (from_api (some (request r)) ∷ is) s = expected write read is (asked read r s)
  expected write read (from_api (some (event e)) ∷ is) s = expected write read is s
  expected write read (from_api (some (command c)) ∷ is) s = expected write read is s
  expected write read (from_api none ∷ is) s = expected write read is s
  expected write read (from_db c ∷ is) s = expected write read is s

  -- The commands that db_master starts.
  abbrev pub api_commands : List (Input P) → List (Work P)
  api_commands [] = []
  api_commands (from_api (some (command c)) ∷ is) = start_command c ∷ api_commands is
  api_commands (from_api (some (request r)) ∷ is) = api_commands is
  api_commands (from_api (some (event e)) ∷ is) = api_commands is
  api_commands (from_api none ∷ is) = api_commands is
  api_commands (from_reader m ∷ is) = api_commands is
  api_commands (from_db c ∷ is) = api_commands is

  abbrev pub commands_of : List (Work P) → List (Work P)
  commands_of [] = []
  commands_of (start w p ∷ ws) =
      let rest = commands_of ws in if is_command w then start w p ∷ rest else rest
  commands_of (to_measures m ∷ ws) = commands_of ws

  commands_of-start_command :
      (c : CommandType P) (ws : List (Work P))
      → commands_of (start_command c ∷ ws) ≡ start_command c ∷ commands_of ws
  unfolding start_command
  commands_of-start_command (node_command p) ws = refl
  commands_of-start_command (device_command p) ws = refl
  commands_of-start_command (value_command p) ws = refl
  commands_of-start_command (user_command p) ws = refl
  commands_of-start_command (group_command p) ws = refl
  commands_of-start_command (sub_group_command p) ws = refl
  commands_of-start_command (assign_command p) ws = refl
  commands_of-start_command (token_update p) ws = refl

  commands_of-start_request :
      (r : Request P) (ws : List (Work P)) → commands_of (start_request r ∷ ws) ≡ commands_of ws
  unfolding start_request
  commands_of-start_request (get_node p) ws = refl
  commands_of-start_request (get_device p) ws = refl
  commands_of-start_request (get_value p) ws = refl
  commands_of-start_request (get_user p) ws = refl
  commands_of-start_request (get_group p) ws = refl
  commands_of-start_request (get_sub_group p) ws = refl
  commands_of-start_request (get_token p) ws = refl
  commands_of-start_request (get_measure p) ws = refl

  -- db_master starts a command for each command of the API, in order, and for nothing else: none that
  -- the reader might send.
  pub commands-works : (is : List (Input P)) → commands_of (works is) ≡ api_commands is
  unfolding works run_data_master run_db_master
  commands-works [] = refl
  commands-works (from_api none ∷ is) = commands-works is
  commands-works (from_api (some (request r)) ∷ is) =
      commands_of-start_request r (works is) ∙ commands-works is
  commands-works (from_api (some (command c)) ∷ is) =
      commands_of-start_command c (works is) ∙ ap (λ ws. start_command c ∷ ws) (commands-works is)
  commands-works (from_api (some (event e)) ∷ is) = commands-works is
  commands-works (from_reader none ∷ is) = commands-works is
  commands-works (from_reader (some (request r)) ∷ is) =
      commands_of-start_request r (works is) ∙ commands-works is
  commands-works (from_reader (some (command c)) ∷ is) = commands-works is
  commands-works (from_reader (some (event (node_event p))) ∷ is) = commands-works is
  commands-works (from_reader (some (event (device_event p))) ∷ is) = commands-works is
  commands-works (from_db none ∷ is) = commands-works is
  commands-works (from_db (some c) ∷ is) = commands-works is

  -- The coordinator of the web sockets hears every event of the reader, in order, and nothing else.
  heard-reader_events : (is : List (Input P)) → heard is ≡ reader_events is
  unfolding heard run_data_master
  heard-reader_events [] = refl
  heard-reader_events (from_api none ∷ is) = heard-reader_events is
  heard-reader_events (from_api (some (request r)) ∷ is) = heard-reader_events is
  heard-reader_events (from_api (some (command c)) ∷ is) = heard-reader_events is
  heard-reader_events (from_api (some (event e)) ∷ is) = heard-reader_events is
  heard-reader_events (from_reader none ∷ is) = heard-reader_events is
  heard-reader_events (from_reader (some (request r)) ∷ is) = heard-reader_events is
  heard-reader_events (from_reader (some (command c)) ∷ is) = heard-reader_events is
  heard-reader_events (from_reader (some (event e)) ∷ is) =
      ap (λ ms. event e ∷ ms) (heard-reader_events is)
  heard-reader_events (from_db none ∷ is) = heard-reader_events is
  heard-reader_events (from_db (some c) ∷ is) = heard-reader_events is

  module _ {S : Type 0} (write read : P → S → S) where
    measured-start_command :
        (c : CommandType P) (ws : List (Work P)) (s : S)
        → measured write read (start_command c ∷ ws) s ≡ measured write read ws s
    unfolding start_command
    measured-start_command (node_command p) ws s = refl
    measured-start_command (device_command p) ws s = refl
    measured-start_command (value_command p) ws s = refl
    measured-start_command (user_command p) ws s = refl
    measured-start_command (group_command p) ws s = refl
    measured-start_command (sub_group_command p) ws s = refl
    measured-start_command (assign_command p) ws s = refl
    measured-start_command (token_update p) ws s = refl

    measured-start_request :
        (r : Request P) (ws : List (Work P)) (s : S)
        → measured write read (start_request r ∷ ws) s ≡ measured write read ws (asked read r s)
    unfolding start_request measure_master
    measured-start_request (get_node p) ws s = refl
    measured-start_request (get_device p) ws s = refl
    measured-start_request (get_value p) ws s = refl
    measured-start_request (get_user p) ws s = refl
    measured-start_request (get_group p) ws s = refl
    measured-start_request (get_sub_group p) ws s = refl
    measured-start_request (get_token p) ws s = refl
    measured-start_request (get_measure p) ws s = refl

    measured-works :
        (is : List (Input P)) (s : S) → measured write read (works is) s ≡ expected write read is s
    unfolding works run_data_master run_db_master measure_master
    measured-works [] s = refl
    measured-works (from_api none ∷ is) s = measured-works is s
    measured-works (from_api (some (request r)) ∷ is) s =
        measured-start_request r (works is) s ∙ measured-works is (asked read r s)
    measured-works (from_api (some (command c)) ∷ is) s =
        measured-start_command c (works is) s ∙ measured-works is s
    measured-works (from_api (some (event e)) ∷ is) s = measured-works is s
    measured-works (from_reader none ∷ is) s = measured-works is s
    measured-works (from_reader (some (request r)) ∷ is) s =
        measured-start_request r (works is) s ∙ measured-works is (asked read r s)
    measured-works (from_reader (some (command c)) ∷ is) s = measured-works is s
    measured-works (from_reader (some (event (node_event p))) ∷ is) s = measured-works is s
    measured-works (from_reader (some (event (device_event p))) ∷ is) s =
        measured-works is (write p s)
    measured-works (from_db none ∷ is) s = measured-works is s
    measured-works (from_db (some c) ∷ is) s = measured-works is s

-- Whatever the controller takes up, and in whatever order: measure_master stores the device events of
-- the reader and answers the queries of measures, each once and in that order, and nothing else
-- changes it; and the coordinator of the web sockets hears the events of the reader, in order.
pub events_reach_both :
    {P S : Type 0} (write read : P → S → S) (is : List (Input P)) (s : S)
    → (measured write read (works is) s ≡ expected write read is s) × (heard is ≡ reader_events is)
events_reach_both write read is s = (measured-works write read is s, heard-reader_events is)
