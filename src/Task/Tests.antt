-- ===== src/Task/Tests.antt =====
-- Runs of the backup task at concrete inputs.
use Prim.Native.Nat.{◌/◌}
use backup_center_ajust_cons.Base.{
  ℕ, ◌*◌, ◌≡◌, refl, true, false, [], ◌∷◌, ◌++◌, none, some, arith, ltb, if◌then◌else◌,
}
use backup_center_ajust_cons.Text.{codes, normalize, any_in, contains, text_eq, strip}
use backup_center_ajust_cons.Redis.{cb_outcomes, outcome}
use backup_center_ajust_cons.Redis.Memory.{memory, Memory, empty_memory}
use backup_center_ajust_cons.Connection
use backup_center_ajust_cons.Connection.{null, text, uses_jump_host}
use backup_center_ajust_cons.Diagnostics.Classify.{classify_failure, classify_text}
use backup_center_ajust_cons.Task.Gate.{Device, Group, breaker_label, show_port}
use backup_center_ajust_cons.Task.Lock.{Round, acquired, wait}
use backup_center_ajust_cons.Task.Lock.Wait.{Ticks, Justified, wait-Justified}
use backup_center_ajust_cons.Task.Outcome.{Input, World, Settings, running, plain, returned}
use backup_center_ajust_cons.Task.Run.{run, run_executed}
use backup_center_ajust_cons.Task.Run.Finish.{IsFinished, run-IsFinished}
use backup_center_ajust_cons.Task.Run.Feed.{IsCounted, told, run_executed_tells}

abbrev group : Group
group = record {
  name = codes "core";
  is_active = true;
  connection = record {
    connection_type = text (codes "jump");
    uses_jump_host = false;
    uses_vpn = false;
    vpn_server = [];
    vpn_username = [];
    vpn_password = none;
  };
  jump_host = codes "bastion";
  jump_port = 0;
}

abbrev device : Device
device = record {
  name = codes "sw1";
  is_active = true;
  connection = record { name = codes "sw1"; device_type = none; subgroup = none; extra = none };
  group = some group;
  ip_address = codes "10.0.0.1";
}

abbrev policy : Connection.Policy
policy = record { disable_jump = true; prefer_vpn = true }

label_of_device : breaker_label policy (some device) ≡ codes "bastion:22"
unfolding breaker_label uses_jump_host show_port
label_of_device = refl

-- Both slots are taken in the first two rounds, and the second is free in the third.
abbrev rounds : ℕ → Round
rounds i = record {
  stopped = false;
  elapsed = i;
  acquires = λ idx. if ltb i 2 then false else (if ltb idx 2 then false else true);
  stopped_asleep = false;
}

second_slot : wait 5 2 rounds 6 0 ≡ acquired 2
unfolding wait
second_slot = refl

rounds-Ticks : Ticks rounds
rounds-Ticks i = omega arith

wait-Justified_example : Justified 5 2 rounds 0 (wait 5 2 rounds 6 0)
wait-Justified_example = wait-Justified 5 2 rounds rounds-Ticks

abbrev percent : ℕ → ℕ → ℕ
percent f t = f * 100 / t

abbrev cfg : Settings
cfg = record {
  connected = true;
  breaker = record {
    window_seconds = 300;
    threshold_percent = 70;
    min_samples = 10;
    open_seconds = 60;
  };
  slots = record {
    enabled = true;
    fail_streak = 4;
    success_streak = 20;
    cooldown_seconds = 300;
    streak_ttl_seconds = 900;
    max_boost = 2;
    severe_fail_streak = 2;
    severe_cooldown_seconds = 900;
    severe_drop_to_one = true;
  };
  lock = record { wait_seconds = 600; wait_seconds_large_bulk = 180; large_bulk_devices = 300 };
  policy = policy;
  max_slots = 3;
  overrides = [];
}

abbrev input : Input
input = record {
  device_id = codes "d1";
  device = some device;
  is_in_bulk = true;
  bulk_devices = 10;
  bulk_cancelled = false;
  checked_ms = 1000;
  recorded_ms = 2000;
  rounds = rounds;
  execution = returned false (codes "timed out");
}

abbrev world : World Memory
world = record {
  store = empty_memory;
  meta = record {
    status = running;
    progress = 0;
    message = plain [];
    completed = false;
    result = none;
  };
  log = [];
  attempts = [];
  touches = 0;
}

run-IsFinished_example : IsFinished [] (run memory percent cfg input world)
run-IsFinished_example = run-IsFinished memory percent cfg input world

label-IsCounted : IsCounted memory percent cfg (codes "bastion:22")
unfolding text_eq
label-IsCounted = record { client = refl; named = refl; indirect = refl }

told_timeout : told (returned false (codes "timed out")) 2000 ≡ outcome false 2000 ∷ []
unfolding classify_failure classify_text strip normalize contains any_in
told_timeout = refl

run_executed_tells_example :
    memory.lrange
      (cb_outcomes (codes "bastion:22"))
      (run_executed memory percent cfg input
        (codes "bastion:22")
        none
        world
        (returned false (codes "timed out"))).1.store
    ≡ memory.lrange (cb_outcomes (codes "bastion:22")) world.store
      ++ told (returned false (codes "timed out")) 2000
run_executed_tells_example =
    run_executed_tells memory percent cfg input (codes "bastion:22") none world
      (returned false (codes "timed out")) label-IsCounted (omega arith)
