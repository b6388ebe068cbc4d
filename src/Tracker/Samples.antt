-- ===== src/Tracker/Samples.antt =====
-- A group of three masters, of which the second is this server, and networks round it.
use fast_dcs.Common.{◌≡◌, refl, true, Option, none, some, [], ◌∷◌, ◌++◌, arith, replicate}
use fast_dcs.Common.Int.{ℤ, pos, negsuc}
use fast_dcs.Common.Texts.{Text, codes, eq}
use fast_dcs.Messages.{FdcsTask, TrackerProtocol, ProtocolType, worker_request_task, worker_type}
use fast_dcs.Enviroment.Samples.{three_tasks}
use fast_dcs.SignalingQueue.{SignalingQueue}
use fast_dcs.SignalingQueue.Inv.{IsValid}
use fast_dcs.Strings.Split.{skip}
use fast_dcs.Tracker.State.{Tracker, World, own}
use fast_dcs.Tracker.Masters.{group}
use fast_dcs.Tracker.Masters.Next.{Distinct}

abbrev pub first_master : Text
first_master = codes "10.0.0.1:32301"

abbrev pub second_master : Text
second_master = codes "10.0.0.2:32301"

abbrev pub third_master : Text
third_master = codes "10.0.0.3:32301"

-- A request, with what a worker with a duplicate number of 1 writes.
abbrev pub request : ProtocolType → TrackerProtocol
request type = record {
  id = 7;
  time = pos 100;
  protocol_type = type;
  tracker_type = worker_type;
  request_sock_addr = codes "10.0.0.9:4000";
  request_args = codes "0000000001";
  response_sock_addr = [];
  forwarding_sock_fd = negsuc 0;
  response_result = [];
  tracker_status = [];
  key_values_pairs = [];
}

-- The memory of a freed task keeps what it held.
abbrev pub kept : FdcsTask → FdcsTask
kept t = t

-- A network in which only the connections that `reach` opens are made, at a time.
abbrev pub network : (Text → Option ℤ) → ℤ → World
network reach time = record {
  connect = reach;
  now = time;
  random_num = 5;
  serialize = λ proto. proto.request_args;
  parse = λ bytes. record (request worker_request_task) { request_args = bytes };
  socket_buff_size = 8;
  uninitialised = pos 0;
  erased = kept;
  conhash_lookup = λ masters address. none;
}

abbrev pub no_network : World
no_network = network (λ a. none) (pos 105)

-- A buffer of eight bytes that holds nothing.
abbrev pub empty_buffer : SignalingQueue
empty_buffer = record {
  queue = replicate 8 0;
  queue_size = 8;
  free_size = 8;
  write_pointer = 0;
  num_producers = 1;
  message_positions = [];
  finished_producers = [];
}

pub empty_buffer-IsValid : IsValid empty_buffer
empty_buffer-IsValid = omega arith

-- The same one with one message in it.
abbrev pub hello_buffer : SignalingQueue
hello_buffer = record {
  queue = codes "hello" ++ replicate 3 0;
  queue_size = 8;
  free_size = 3;
  write_pointer = 5;
  num_producers = 1;
  message_positions = (0, 5) ∷ [];
  finished_producers = [];
}

pub hello_buffer-IsValid : IsValid hello_buffer
hello_buffer-IsValid = omega arith

-- A master that knows no other one, with one client on descriptor 4.
abbrev pub second_server : Tracker
second_server = record {
  is_master = true;
  primary_sockaddr = [];
  worker_sockaddr = [];
  socket_ids = (pos 4, codes "10.0.0.9:4000") ∷ [];
  master_sockets = [];
  tracker_status = [];
  send_buffers = (pos 4, empty_buffer) ∷ [];
  receive_buffers = (pos 4, some empty_buffer) ∷ [];
  send_events = [];
  receive_events = [];
  conhash = [];
  fdcs_env = three_tasks;
}

-- The same server as the primary master, and as one that knows the third as the primary.
abbrev pub primary_server : Tracker
primary_server = record second_server { primary_sockaddr = second_master }

abbrev pub secondary_server : Tracker
secondary_server = record second_server { primary_sockaddr = third_master }

pub second_server-group :
    group second_server ≡ (first_master ∷ []) ++ own second_server ∷ (third_master ∷ [])
unfolding group skip
second_server-group = refl

pub second_server-Distinct : Distinct (group second_server)
unfolding group eq skip
second_server-Distinct = ((refl, (refl, tt)), ((refl, tt), (tt, tt)))
