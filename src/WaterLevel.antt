-- ===== src/WaterLevel.antt =====
-- Motes/firmwares/water-level-sensor/water-level-sensor.c: the simulated water level of the dam.
-- `unsigned long` has 32 bits, as on the nRF52840 that Makefile.target names.
pub mod Reservoir
pub mod Contents
pub mod Balance
pub mod Device
pub mod Publishes
pub mod Recovery
pub mod Streaming
pub mod Talks
pub mod Faults
pub mod Messages
pub mod Wanted
use dam_monitoring.Prelude.{
  ℕ, ◌+◌, ◌-◌, ◌*◌, ◌/◌, ◌%◌, ◌^◌, Bool, true, false, Option, some, ◌>>=◌, ◌++◌, ◌||◌, ltb, ◌==◌,
  if◌then◌else◌,
}
use dam_monitoring.Prelude.Int.{ℤ, pos, negsuc, ltb_ℤ, ◌+ℤ◌, ◌-ℤ◌, ◌*ℤ◌}
use dam_monitoring.Clib.Text.{Text, codes, snprintf}
use dam_monitoring.Clib.Arith.{rem_int}
use dam_monitoring.Clib.Format.{format_d}
use dam_monitoring.Common.Json.{JsonParser, FieldResult, is_good, is_bad, get_json_int_field}
use dam_monitoring.Common.Urn.{LinkAddr, urn}
use dam_monitoring.SensorSim.{
  Channel, inflow, outflow_1, outflow_2, gate, max_flow, scale_exp, Flows, get, put, init_flows,
  init_balance_flow, init_water_level, init_reservoir, max_water_level, max_reservoir, surface,
  water_level_var,
}
use dam_monitoring.Mqtt.{MqttEvent, publish_event, Net, initial, init_mqtt, client_event}
use dam_monitoring.Process.{
  ProcessEvent, periodic_timer_event, led_timer_event, poll, button_release, other_event,
  button_periodic, Schedule, poll_client,
}

abbrev pub ulong_mod : ℕ
ulong_mod = 2 ^ 32

-- The conversion of an `int` to `unsigned long`.
abbrev pub to_ulong : ℤ → ℕ
to_ulong (pos n) = n % ulong_mod
to_ulong (negsuc n) = ulong_mod - 1 - n % ulong_mod

abbrev pub app_buffer_size : ℕ
app_buffer_size = 512

-- The topics of the messages that the device publishes and of those that it takes.
abbrev pub pub_topic : Text
pub_topic = codes "water-level"

abbrev pub sub_topic : Text
sub_topic = codes "simulation"

abbrev pub default_time_period : ℕ → ℕ
default_time_period clock_second = clock_second * 1

abbrev pub pub_period_s : ℕ
pub_period_s = 5

-- The simulation's variables. `simulate_timer` says whether its timer runs.
pub record Sim : Type 0 where
  pub balance_flow : ℤ
  pub water_level : ℕ
  pub reservoir : ℕ
  pub flow : Flows
  pub new_gate_value : ℤ
  pub simulate_timer : Bool

unfoldable pub init_sim : Sim
init_sim = record {
  balance_flow = init_balance_flow;
  water_level = init_water_level;
  reservoir = init_reservoir;
  flow = init_flows;
  new_gate_value = pos 0;
  simulate_timer = false;
}

-- The two tests that end `simulate_read_water_level`. The first is never passed: the level is
-- unsigned.
unfoldable pub limit_level : Sim → Sim
limit_level s =
    let t = if ltb s.water_level 0 then record s { water_level = 0; reservoir = 0 } else s in
    if ltb max_water_level t.water_level
    then record t { water_level = max_water_level; reservoir = max_reservoir }
    else t

-- `var` after its sign is chosen, and `wl_var` likewise.
unfoldable pub signed_var : ℕ → ℤ
signed_var var = if var % 2 == 0 then pos 0 -ℤ pos var else pos var

unfoldable pub signed_wl_var : ℤ → ℕ → ℤ
signed_wl_var balance wl_var = if ltb_ℤ (pos 0) balance then pos 0 -ℤ pos wl_var else pos wl_var

-- The new contents and level, before the two tests.
unfoldable pub move_water : ℤ → ℤ → Sim → Sim
move_water var wl_var s =
    let reservoir = (s.reservoir + to_ulong (s.balance_flow +ℤ var)) % ulong_mod in
    record s {
      reservoir = reservoir;
      water_level = (reservoir / surface + to_ulong wl_var) % ulong_mod;
    }

-- `random` and `random'` are what the two calls of `random_rand()` return. `none` is the division by
-- zero of a balance of -1000.
unfoldable pub simulate_read_water_level : ℕ → ℕ → Sim → Option Sim
unfolding limit_level
simulate_read_water_level random random' s = rem_int random (s.balance_flow +ℤ pos 1000) >>= λ var.
    let moved =
      move_water (signed_var var) (signed_wl_var s.balance_flow (random' % water_level_var)) s in
    some (record (limit_level moved) { simulate_timer = true })

unfoldable pub read_water_level : Sim → ℤ
read_water_level s = pos s.water_level

unfoldable pub build_message : LinkAddr → Sim → Text
unfolding read_water_level
build_message addr s = snprintf app_buffer_size (
    codes "{\"bn\":\""
    ++ (urn addr
        ++ (codes "\",\"bu\": \"m\", \"e\":[{\"n\":\"water-level\", \"v\":"
            ++ (format_d (read_water_level s)
                ++ (codes "e-" ++ (format_d scale_exp ++ codes "}]}"))))))

-- The inner loop: the inflow less the outflows.
unfoldable pub balance : Flows → ℤ
balance f = get f inflow -ℤ get f outflow_1 -ℤ get f outflow_2

unfoldable pub apply_gate : Channel → FieldResult → Sim → Sim
unfolding balance
apply_gate c res s =
    if is_bad res || (ltb_ℤ s.new_gate_value (pos 0) || ltb_ℤ (pos 100) s.new_gate_value)
    then s
    else (if is_good res
        then (let flow = put s.flow c (s.new_gate_value *ℤ pos (max_flow c)) in
            record s { flow = flow; balance_flow = balance flow })
        else s)

-- One round of the loop of `handle_message`.
unfoldable pub gate_round : JsonParser → (Channel → Text) → Text → Channel → Sim → Sim
unfolding apply_gate
gate_round p garbage chunk c s =
    let (res, v) =
      get_json_int_field p (garbage c) chunk (snprintf 15 (codes "gate-" ++ gate c))
        s.new_gate_value in
    apply_gate c res (record s { new_gate_value = v })

-- `garbage` is what the uninitialised buffer of `get_json_int_field` holds in each round.
unfoldable pub handle_message : JsonParser → (Channel → Text) → Text → Sim → Sim
handle_message p garbage chunk s =
    gate_round p garbage chunk outflow_2
      (gate_round p garbage chunk outflow_1 (gate_round p garbage chunk inflow s))

-- The process: its client and timers, the simulation, and what the button and the led need.
pub record WaterDevice : Type 0 where
  pub schedule : Schedule
  pub sim : Sim
  pub btn_release : Bool
  pub yellow_led : Bool
  pub led_timer : Bool

-- The button sets the reservoir: to its initial contents, and to its greatest.
unfoldable pub set_reservoir : ℕ → WaterDevice → WaterDevice
set_reservoir n d = record d {
  sim = record d.sim { reservoir = n };
  yellow_led = true;
  led_timer = true;
}

module _ (p : JsonParser) (addr : LinkAddr) (clock_second : ℕ) (to_clock_time : ℤ → ℤ) where
  -- The process up to its loop.
  unfoldable pub start : WaterDevice
  unfolding init_mqtt init_sim initial
  start = record {
    schedule = record {
      client =
          init_mqtt (pub_period_s * clock_second) pub_topic sub_topic (initial clock_second addr);
      time_period = pos (default_time_period clock_second);
      interval = pos (default_time_period clock_second);
      running = true;
    };
    sim = record init_sim { simulate_timer = true };
    btn_release = true;
    yellow_led = false;
    led_timer = true;
  }

  -- The engine's events; a message goes to `handle_message`.
  unfoldable pub mqtt_event : MqttEvent → WaterDevice → WaterDevice
  unfolding client_event
  mqtt_event (publish_event garbage topic chunk) d = record d {
    sim = handle_message p garbage chunk d.sim;
  }
  mqtt_event e d = record d {
    schedule = record d.schedule { client = client_event e d.schedule.client };
  }

  poll_device : Net → WaterDevice → WaterDevice
  poll_device n d = record d {
    schedule = poll_client clock_second addr to_clock_time n (build_message addr d.sim) d.schedule;
  }

  -- One round of the loop: the process wakes with an event.
  unfoldable pub process_event : Net → ProcessEvent → WaterDevice → WaterDevice
  unfolding poll_device
  process_event n periodic_timer_event d = poll_device n d
  process_event n poll d = poll_device n d
  process_event n button_release d =
      if d.btn_release then set_reservoir init_reservoir d else record d { btn_release = true }
  process_event n (button_periodic seconds) d =
      if seconds == 3 then record (set_reservoir max_reservoir d) { btn_release = false } else d
  process_event n led_timer_event d = record d { yellow_led = false; led_timer = false }
  process_event n other_event d = d
