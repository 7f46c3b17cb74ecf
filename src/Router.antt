-- ===== src/Router.antt =====
-- data_master/data_master_loop.rs, db/worker/db_master.rs, the dispatch of measure_master in
-- db/hasher/hash_master.rs and reader/reader_loop/reading_loop/read_loop.rs: which message goes where.
-- The contents of a message are a parameter; the channels deliver in order, and a failed send is only
-- a line in the log.
pub mod Paths
pub mod Tries
mod Tests
use modbus_tcplogger.Common.{
  ℕ, zero, suc, ◌+◌, Option, none, some, List, [], ◌∷◌, ◌++◌, ◌==◌, if◌then◌else◌,
}
use modbus_tcplogger.ReadMaster.{ConfigEventType, update_node, delete_node, create_node}

pub data Request (P : Type 0) : Type 0 where
  get_node get_device get_value get_user get_group get_sub_group : P → Request P
  get_token get_measure : P → Request P

pub data CommandType (P : Type 0) : Type 0 where
  node_command device_command value_command user_command : P → CommandType P
  group_command sub_group_command assign_command token_update : P → CommandType P

pub data Event (P : Type 0) : Type 0 where
  node_event device_event : P → Event P

pub data MainMsg (P : Type 0) : Type 0 where
  request : Request P → MainMsg P
  command : CommandType P → MainMsg P
  event : Event P → MainMsg P

-- What `tokio::select!` of the controller takes up; `none` is a closed channel.
pub data Input (P : Type 0) : Type 0 where
  from_api : Option (MainMsg P) → Input P
  from_reader : Option (MainMsg P) → Input P
  from_db : Option P → Input P

pub data Output (P : Type 0) : Type 0 where
  to_db : MainMsg P → Output P
  to_api : MainMsg P → Output P
  to_reader : P → Output P

-- The functions that db_master starts.
pub data Worker : Type 0 where
  command_node command_device command_value user_commands command_assign group_commands : Worker
  user_sub_group_command update_token node_get devise_get value_get users_get groups_get : Worker
  user_sub_group_get get_tokens : Worker

pub data Work (P : Type 0) : Type 0 where
  start : Worker → P → Work P
  to_measures : MainMsg P → Work P

module _ {P : Type 0} where
  -- One round of `run_data_master`.
  unfoldable pub run_data_master : Input P → List (Output P)
  run_data_master (from_api none) = []
  run_data_master (from_api (some (request r))) = to_db (request r) ∷ []
  run_data_master (from_api (some (command c))) = to_db (command c) ∷ []
  run_data_master (from_api (some (event e))) = []
  run_data_master (from_reader none) = []
  run_data_master (from_reader (some (request r))) = to_db (request r) ∷ []
  run_data_master (from_reader (some (command c))) = []
  run_data_master (from_reader (some (event e))) = to_db (event e) ∷ to_api (event e) ∷ []
  run_data_master (from_db none) = []
  run_data_master (from_db (some config)) = to_reader config ∷ []

  unfoldable pub start_command : CommandType P → Work P
  start_command (node_command p) = start command_node p
  start_command (device_command p) = start command_device p
  start_command (value_command p) = start command_value p
  start_command (user_command p) = start user_commands p
  start_command (assign_command p) = start command_assign p
  start_command (group_command p) = start group_commands p
  start_command (sub_group_command p) = start user_sub_group_command p
  start_command (token_update p) = start update_token p

  unfoldable pub start_request : Request P → Work P
  start_request (get_node p) = start node_get p
  start_request (get_device p) = start devise_get p
  start_request (get_value p) = start value_get p
  start_request (get_user p) = start users_get p
  start_request (get_group p) = start groups_get p
  start_request (get_sub_group p) = start user_sub_group_get p
  start_request (get_token p) = start get_tokens p
  start_request (get_measure p) = to_measures (request (get_measure p))

  -- One round of `run_db_master`.
  unfoldable pub run_db_master : MainMsg P → List (Work P)
  run_db_master (command c) = start_command c ∷ []
  run_db_master (request r) = start_request r ∷ []
  run_db_master (event (device_event p)) = to_measures (event (device_event p)) ∷ []
  run_db_master (event (node_event p)) = []

  -- One round of `measure_master` on its state, with `write_measure` and `read_measure`.
  unfoldable pub measure_master : {S : Type 0} → (P → S → S) → (P → S → S) → MainMsg P → S → S
  measure_master write read (command c) s = s
  measure_master write read (request (get_measure p)) s = read p s
  measure_master write read (request (get_node p)) s = s
  measure_master write read (request (get_device p)) s = s
  measure_master write read (request (get_value p)) s = s
  measure_master write read (request (get_user p)) s = s
  measure_master write read (request (get_group p)) s = s
  measure_master write read (request (get_sub_group p)) s = s
  measure_master write read (request (get_token p)) s = s
  measure_master write read (event (device_event p)) s = write p s
  measure_master write read (event (node_event p)) s = s

-- What node_master does: it starts the loop of a node, tells the loops of a change, or passes a
-- message on to the controller.
pub data NodeInput (P : Type 0) : Type 0 where
  config : ConfigEventType → P → NodeInput P
  from_node : MainMsg P → NodeInput P

pub data NodeOutput (P : Type 0) : Type 0 where
  new_node : P → NodeOutput P
  to_workers : ConfigEventType → P → NodeOutput P
  to_controller : MainMsg P → NodeOutput P

module _ {P : Type 0} where
  -- One round of `node_master`; with a closed channel it ends.
  unfoldable pub node_master : NodeInput P → List (NodeOutput P)
  node_master (config create_node p) = new_node p ∷ []
  node_master (config update_node p) = to_workers update_node p ∷ []
  node_master (config delete_node p) = to_workers delete_node p ∷ []
  node_master (from_node (event e)) = to_controller (event e) ∷ []
  node_master (from_node (request r)) = to_controller (request r) ∷ []
  node_master (from_node (command c)) = []

-- The end of a round: the row for `node_loop`, or another round up to the fifth.
abbrev pub after_answer : {R : Type 0} → Option R → ℕ → Option R × ℕ → Option R × ℕ
after_answer (some node) try_counter again = (some node, try_counter + 1)
after_answer none try_counter again =
    if try_counter + 1 == 5 then (none, try_counter + 1) else again

-- The loop of `create_new_node`, with a bound on its rounds: `answer n` is the row that the `n`-th
-- request has found, if any. The result is the row for `node_loop` and the number of requests.
unfoldable pub create_new_node : {R : Type 0} → ℕ → (ℕ → Option R) → ℕ → Option R × ℕ
create_new_node zero answer try_counter = (none, try_counter)
create_new_node (suc rounds) answer try_counter =
    after_answer (answer try_counter) try_counter (create_new_node rounds answer (try_counter + 1))
