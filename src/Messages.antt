-- ===== src/Messages.antt =====
-- src/server/tracker_protocol.proto and the settings of src/base/common_define.h: the data that the
-- servers keep and send. A message is modelled by its fields; protobuf's wire format is not.
use fast_dcs.Common.{ℕ, List}
use fast_dcs.Common.Int.{ℤ}
use fast_dcs.Common.Texts.{Text, codes}

-- `FdcsTask`; its `key_values_pairs` are the user's data, keys with values.
pub record FdcsTask : Type 0 where
  pub task_id : Text
  pub lease_time : ℤ
  pub key_values_pairs : List (Text × Text)

-- The message in a value of a `KeyValuesPair`, which `WriteRecord` serialises and `ReadRecord` parses.
pub data Value : Type 0 where
  task : FdcsTask → Value
  pair : Text → Text → Value
  status : Text → Value

pub record KeyValuesPair : Type 0 where
  pub key : Text
  pub values : List Value

pub data TrackerType : Type 0 where
  unknown_tracker master_type worker_type client_type : TrackerType

pub data ProtocolType : Type 0 where
  unknown_protocol election coordinator master_ask_tracker : ProtocolType
  master_report_status worker_ask_tracker worker_report_status : ProtocolType
  create_job_id commit_job sync_task_duplicate request_task_duplicate : ProtocolType
  worker_request_task task_completed ask_task_status master_join_group : ProtocolType
  master_group_changed : ProtocolType

-- `TrackerStatus`, without the figures that no code reads.
pub record TrackerStatus : Type 0 where
  pub socket_addr : Text
  pub active : ℕ
  pub free_memory : ℕ
  pub total_memory : ℕ

pub record TrackerProtocol : Type 0 where
  pub id : ℕ
  pub time : ℤ
  pub protocol_type : ProtocolType
  pub tracker_type : TrackerType
  pub request_sock_addr : Text
  pub request_args : Text
  pub response_sock_addr : Text
  pub forwarding_sock_fd : ℤ
  pub response_result : Text
  pub tracker_status : List TrackerStatus
  pub key_values_pairs : List KeyValuesPair

-- The settings that the modelled code reads. The configuration gives counts and seconds, which are
-- not negative.
pub record Settings : Type 0 where
  pub tracker_group : Text
  pub tracker_server : Text
  pub network_timeout : ℕ
  pub preload_tasks : ℕ
  pub lease_timeout : ℕ
  pub task_duplicate : ℕ

-- RESPONSE_RESULT_SUCCESS and the other words of the protocol.
abbrev pub response_result_success : Text
response_result_success = codes "success"

abbrev pub response_result_complete : Text
response_result_complete = codes "complete"

abbrev pub keyvaluepairs_task : Text
keyvaluepairs_task = codes "FdcsTask"

abbrev pub keyvaluepairs_task_complete : Text
keyvaluepairs_task_complete = codes "FdcsTaskComplete"

abbrev pub keyvaluepairs_fdcs_time : Text
keyvaluepairs_fdcs_time = codes "FdcsTime"
