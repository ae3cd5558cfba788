-- ===== src/FlowSensor.antt =====
-- Motes/firmwares/flow-sensor/flow-sensor.c: the simulated flow sensor of one channel.
pub mod Steps
pub mod Settle
pub mod Messages
pub mod Wanted
pub mod Range
pub mod Device
pub mod Stalls
pub mod Button
pub mod Publishes
pub mod Recovery
pub mod Streaming
pub mod Talks
pub mod Faults
pub mod Response
use dam_monitoring.Prelude.{
  ℕ, ◌*◌, Bool, true, false, Option, some, ◌>>=◌, ◌++◌, ◌&&◌, ◌||◌, ◌==◌, if◌then◌else◌,
}
use dam_monitoring.Prelude.Int.{ℤ, pos, ltb_ℤ, leb_ℤ, ◌+ℤ◌, ◌-ℤ◌, ◌*ℤ◌}
use dam_monitoring.Clib.Text.{Text, codes, snprintf}
use dam_monitoring.Clib.Format.{format_d}
use dam_monitoring.Common.Json.{JsonParser, FieldResult, is_good, is_bad, get_json_int_field}
use dam_monitoring.Common.Urn.{LinkAddr, urn}
use dam_monitoring.SensorSim.{
  Channel, inflow, gate, max_flow, max_inflow, scale_exp, Flows, get, put, init_flows,
  var_threshold, linear_var, steady_var,
}
use dam_monitoring.Mqtt.{MqttEvent, publish_event, Net, initial, init_mqtt, client_event}
use dam_monitoring.Process.{
  ProcessEvent, periodic_timer_event, led_timer_event, poll, button_release, other_event,
  button_periodic, Schedule, poll_client,
}

-- The two limits that end `simulate_read_flow`.
limit_flow : ℤ → ℤ → ℤ
limit_flow max_value flow =
    let floor = if ltb_ℤ flow (pos 0) then pos 0 else flow in
    if ltb_ℤ max_value floor then max_value else floor

-- The three branches of `simulate_read_flow`: towards the band, or any value in it.
next_flow : ℕ → ℤ → ℤ → ℤ → ℤ → Option ℤ
next_flow random target max_value min_value flow =
    if ltb_ℤ flow min_value
    then (linear_var random min_value flow >>= λ v. some (flow +ℤ v))
    else (if ltb_ℤ max_value flow
        then (linear_var random max_value flow >>= λ v. some (flow -ℤ v))
        else steady_var target random max_value min_value)

-- `simulate_read_flow` on one channel: the next flow, or `none` where C leaves it undefined.
-- `random` is what `random_rand()` returns; `max_value` and `min_value` are set before each use.
unfoldable pub simulate_flow : ℕ → ℤ → ℤ → Option ℤ
unfolding limit_flow next_flow
simulate_flow random target flow =
    let max_value = target +ℤ pos var_threshold in
    let min_value = target -ℤ pos var_threshold in
    next_flow random target max_value min_value flow >>= λ next. some (limit_flow max_value next)

abbrev pub app_buffer_size : ℕ
app_buffer_size = 512

-- The topics of the messages that the device publishes and of those that it takes.
abbrev pub pub_topic : Text
pub_topic = codes "flow-rate"

abbrev pub sub_topic : Text
sub_topic = codes "simulation"

abbrev pub default_time_period : ℕ → ℕ
default_time_period clock_second = clock_second * 1

abbrev pub pub_period_s : ℕ
pub_period_s = 5

-- The simulation's variables. `simulate_timer` says whether its timer runs.
pub record Sim : Type 0 where
  pub flow : Flows
  pub target_flow : Flows
  pub new_gate_value : ℤ
  pub simulate_timer : Bool

unfoldable pub init_sim : Sim
init_sim = record {
  flow = init_flows;
  target_flow = init_flows;
  new_gate_value = pos 0;
  simulate_timer = false;
}

-- The whole callback, for the build of channel `c`. It ends by setting its timer again.
unfoldable pub simulate_read_flow : Channel → ℕ → Sim → Option Sim
simulate_read_flow c random s = simulate_flow random (get s.target_flow c) (get s.flow c) >>= λ f.
    some (record s { flow = put s.flow c f; simulate_timer = true })

unfoldable pub read_flow_sensor : Channel → Sim → ℤ
read_flow_sensor c s = get s.flow c

-- The record that is published; `STR(FLOW_NAME)` is the channel's name.
unfoldable pub build_message : LinkAddr → Channel → Sim → Text
unfolding read_flow_sensor
build_message addr c s = snprintf app_buffer_size (
    codes "{\"bn\":\""
    ++ (urn addr
        ++ (codes "\",\"bu\":\"m3/s\", \"e\": [{\"n\":\""
            ++ (gate c
                ++ (codes "\", \"v\":"
                    ++ (format_d (read_flow_sensor c s)
                        ++ (codes "e-" ++ (format_d scale_exp ++ codes "}]}"))))))))

-- The test on a gate's value, and what it sets.
unfoldable pub apply_gate : Channel → FieldResult → Sim → Sim
apply_gate c res s =
    if is_bad res || (ltb_ℤ s.new_gate_value (pos 0) || ltb_ℤ (pos 100) s.new_gate_value)
    then s
    else (if is_good res
        then record s { target_flow = put s.target_flow c (s.new_gate_value *ℤ pos (max_flow c)) }
        else s)

-- `garbage` is what the uninitialised buffer of `get_json_int_field` holds.
unfoldable pub handle_message : JsonParser → Channel → Text → Text → Sim → Sim
unfolding snprintf apply_gate
handle_message p c garbage chunk s =
    let gate_field = snprintf 15 (codes "gate-" ++ gate c) in
    let (res, v) = get_json_int_field p garbage chunk gate_field s.new_gate_value in
    apply_gate c res (record s { new_gate_value = v })

-- The process: its client and timers, the simulation, and what the button and the led need.
pub record FlowDevice : Type 0 where
  pub schedule : Schedule
  pub sim : Sim
  pub btn_release : Bool
  pub yellow_led : Bool
  pub led_timer : Bool

abbrev is_inflow : Channel → Bool
is_inflow inflow = true
is_inflow _ = false

-- A short press of the button, on the inflow sensor.
unfoldable pub press : FlowDevice → FlowDevice
press d =
    if ltb_ℤ target (pos (max_inflow * 100))
    then record d {
      sim = record d.sim {
        target_flow = put d.sim.target_flow inflow raised;
        flow = put d.sim.flow inflow raised;
      };
      yellow_led = true;
      led_timer = true;
    }
    else d
  where
    target : ℤ
    target = get d.sim.target_flow inflow

    raised : ℤ
    raised =
        target +ℤ (if leb_ℤ (pos (max_inflow * 100)) target then pos 0 else pos (max_inflow * 10))

-- A button that is held for three seconds.
unfoldable pub hold : FlowDevice → FlowDevice
hold d = record d {
  sim = record d.sim {
    target_flow = put d.sim.target_flow inflow (pos 0);
    flow = put d.sim.flow inflow (pos 0);
  };
  btn_release = false;
  yellow_led = true;
  led_timer = true;
}

module _ (p : JsonParser) (addr : LinkAddr) (clock_second : ℕ) (to_clock_time : ℤ → ℤ)
    (c : Channel) where
  -- The process up to its loop.
  unfoldable pub start : FlowDevice
  unfolding init_mqtt init_sim initial
  start = record {
    schedule = record {
      client =
          init_mqtt (pub_period_s * clock_second) pub_topic sub_topic (initial clock_second addr);
      time_period = pos (default_time_period clock_second);
      interval = pos (default_time_period clock_second);
      running = true;
    };
    sim = record init_sim { simulate_timer = true };
    btn_release = true;
    yellow_led = false;
    led_timer = is_inflow c;
  }

  -- The engine's events; a message goes to `handle_message`.
  unfoldable pub mqtt_event : MqttEvent → FlowDevice → FlowDevice
  unfolding client_event
  mqtt_event (publish_event garbage topic chunk) d = record d {
    sim = handle_message p c (garbage c) chunk d.sim;
  }
  mqtt_event e d = record d {
    schedule = record d.schedule { client = client_event e d.schedule.client };
  }

  poll_device : Net → FlowDevice → FlowDevice
  poll_device n d = record d {
    schedule =
        poll_client clock_second addr to_clock_time n (build_message addr c d.sim) d.schedule;
  }

  -- One round of the loop: the process wakes with an event.
  unfoldable pub process_event : Net → ProcessEvent → FlowDevice → FlowDevice
  unfolding poll_device
  process_event n periodic_timer_event d = poll_device n d
  process_event n poll d = poll_device n d
  process_event n button_release d =
      if is_inflow c
      then (if d.btn_release then press d else record d { btn_release = true })
      else d
  process_event n (button_periodic seconds) d = if is_inflow c && seconds == 3 then hold d else d
  process_event n led_timer_event d =
      if is_inflow c then record d { yellow_led = false; led_timer = false } else d
  process_event n other_event d = d
