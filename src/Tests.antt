-- ===== src/Tests.antt =====
-- Test data: the natural numbers in the place of `double`, a configuration, a client and what its
-- environment does.
pub mod Parts
pub mod Worker
pub mod Calls
pub mod Pages
pub mod Threads
pub mod Windows
pub mod Natives
pub mod Python
use Prim.Native.Nat.{compare, lt, eq, gt}
use py_net_ft.Common.{
  ℕ, suc, ◌+◌, ◌-◌, ◌*◌, ◌/◌, ◌^◌, Bool, true, false, Option, none, some, List, [], ◌∷◌, leb, ltb,
  ◌==◌, length,
}
use py_net_ft.Common.Int.{ℤ, pos, negsuc}
use py_net_ft.Exception.{throws, discovery_error}
use py_net_ft.Double.{Double}
use py_net_ft.Protocol.{RawRecord}
use py_net_ft.Protocol.Wire.{record_bytes}
use py_net_ft.Types.{
  Calibration, SensorConfiguration, Config, newton, newton_meter, override, fail_stop, streaming,
  HealthSnapshot,
}
use py_net_ft.Transport.{
  events, datagram, sent_bytes, connected, no_connection, addresses, Transport,
}
use py_net_ft.Client.State.{Impl, new_impl}
use py_net_ft.Client.Command.{Call, stops}
use py_net_ft.Client.Session.{Start, Round}
use py_net_ft.Client.Record.{returns}
use py_net_ft.Client.Worker.{Pass}

abbrev magnitude : ℤ → ℕ
magnitude (pos n) = n
magnitude (negsuc n) = suc n

-- Whole numbers that are exact and never overflow.
instance abbrev pub exact : Double ℕ
exact = record {
  of_int = magnitude;
  of_nat = λ n. n;
  sub = λ m n. m - n;
  mul = λ m n. m * n;
  div = λ m n. m / n;
  lt = ltb;
  le = leb;
  eq = λ m n. m == n;
  is_finite = λ n. true;
  ceil = λ n. n;
  truncate = λ n. n;
  greatest = 2 ^ 1024;
  epsilon = 0;
  one_plus = suc;
  Long = ℕ;
  widen = λ n. n;
  long_of_nat = λ n. n;
  long_mul = λ m n. m * n;
  long_div = λ m n. m / n;
  long_lt = ltb;
  long_le = leb;
  long_ceil = λ n. n;
  long_is_finite = λ n. true;
  long_truncate = λ n. n;
}

abbrev pub calibration : Calibration ℕ
calibration = record {
  counts_per_force_unit = 10;
  counts_per_torque_unit = 20;
  force_unit = newton;
  torque_unit = newton_meter;
}

-- A calibration override, so nothing is asked of the sensor, and the policy `FailStop`.
abbrev pub config : Config ℕ
config = record {
  sensor_host = "ft";
  rdt_port = pos 49152;
  http_port = pos 80;
  receive_timeout = 1;
  configuration_connect_timeout = 2;
  configuration_timeout = 3;
  reconnect_initial_delay = 1;
  reconnect_max_delay = 8;
  sample_rate_limit_hz = 0;
  deliver_samples_with_error_status = false;
  recovery_policy = fail_stop;
  calibration_override = some calibration;
}

abbrev pub known : SensorConfiguration ℕ
known = record { product_name = ""; calibration = calibration; source = override; revision = 1 }

-- A client that has been started, with a worker and a callback.
abbrev pub client : Impl ℕ
client = record (new_impl config) {
  worker = some 5;
  active_worker_id = 5;
  callback = some 1;
  worker_exited = false;
  generation = 1;
}

-- The same in the middle of a session.
abbrev pub live : Impl ℕ
live = record client {
  transport = record { socket = some 3; shutdown_requested = false; sent = [] };
  session_started = true;
  health = record client.health { state = streaming; sensor_configuration = some known };
}

abbrev pub raw : ℕ → RawRecord
raw n = record {
  rdt_sequence = n;
  ft_sequence = 100 + n;
  status = 0;
  fx = pos 30;
  fy = negsuc 9;
  fz = pos 50;
  tx = pos 60;
  ty = pos 70;
  tz = pos 80;
}

-- A session that connects at the second address and sends its first request.
abbrev pub opening : Start ℕ
opening = record {
  while_discovering = [];
  discovery = throws (discovery_error "not asked");
  while_connecting = [];
  resolution = addresses "Success" (no_connection "refused" ∷ connected 3 ∷ []);
  before_sending = [];
  start_sent = sent_bytes 8;
  started_at = 1000;
}

abbrev pub ending : List Call
ending = stops 9 (sent_bytes 8) ∷ []

-- A pass whose session receives the given datagrams and is then stopped.
abbrev pub session : List Round → Pass ℕ
session rounds = record {
  before = [];
  start = opening;
  rounds = rounds;
  before_closing = [];
  close_sent = sent_bytes 8;
  delayed_at = 5000;
  while_delayed = [];
}

-- A pass of the loop in which a datagram arrives and no other thread calls.
abbrev pub arrival : ℕ → List ℕ → Round
arrival now bytes = record {
  before = [];
  now = now;
  receive_at = now;
  while_receiving = [];
  polls = (λ milliseconds. events false) ∷ [];
  recv = datagram bytes;
  late = [];
  received_at = now;
  in_callback = [];
  callback_result = returns;
}

abbrev pub stopping_round : Round
stopping_round = record (arrival 2000 []) { before = ending }
