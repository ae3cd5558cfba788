-- ===== src/Demo/Mote2.antt =====
-- Motes/demo/mote-2/mote-2.c: the flow sensor of all three channels. A step of one channel is that of
-- the flow sensor's firmware, with the index of the loop in place of `FLOW`.
pub mod Channels
pub mod Range
pub mod Runs
pub mod Publishes
pub mod Recovery
pub mod Streaming
pub mod Talks
pub mod Faults
pub mod Messages
use dam_monitoring.Prelude.{
  ℕ, ◌*◌, Bool, true, false, Option, some, ◌>>=◌, ◌++◌, ◌==◌, if◌then◌else◌,
}
use dam_monitoring.Prelude.Int.{ℤ, pos, ltb_ℤ, leb_ℤ, ◌+ℤ◌}
use dam_monitoring.Clib.Text.{Text, codes, snprintf}
use dam_monitoring.Clib.Format.{format_d}
use dam_monitoring.Common.Json.{JsonParser, get_json_int_field}
use dam_monitoring.Common.Urn.{LinkAddr, urn}
use dam_monitoring.SensorSim.{
  Channel, inflow, outflow_1, outflow_2, gate, max_inflow, scale_exp, get, put, init_flows,
}
use dam_monitoring.Mqtt.{
  MqttEvent, publish_event, Net, initial, init_mqtt, client_event, app_buffer_size,
}
use dam_monitoring.Process.{
  ProcessEvent, periodic_timer_event, led_timer_event, poll, button_release, other_event,
  button_periodic, Schedule, poll_client,
}
use dam_monitoring.FlowSensor.{Sim, simulate_flow, apply_gate}

-- The topics of the messages that the device publishes and of those that it takes.
abbrev pub pub_topic : Text
pub_topic = codes "flow-rate"

abbrev pub sub_topic : Text
sub_topic = codes "simulation"

abbrev pub default_time_period : ℕ → ℕ
default_time_period clock_second = clock_second * 1

abbrev pub pub_period_s : ℕ
pub_period_s = 5

unfoldable pub init_sim : Sim
init_sim = record {
  flow = init_flows;
  target_flow = init_flows;
  new_gate_value = pos 0;
  simulate_timer = false;
}

-- One round of the loop of `simulate_read_flow`.
unfoldable pub simulate_channel : Channel → ℕ → Sim → Option Sim
simulate_channel c random s = simulate_flow random (get s.target_flow c) (get s.flow c) >>= λ f.
    some (record s { flow = put s.flow c f })

-- The whole callback; `random c` is what `random_rand()` returns in the round of channel `c`.
unfoldable pub simulate_read_flow : (Channel → ℕ) → Sim → Option Sim
simulate_read_flow random s = simulate_channel inflow (random inflow) s >>= λ s1.
    simulate_channel outflow_1 (random outflow_1) s1 >>= λ s2.
    simulate_channel outflow_2 (random outflow_2) s2 >>= λ s3.
    some (record s3 { simulate_timer = true })

unfoldable pub read_flow_sensor : Channel → Sim → ℤ
read_flow_sensor c s = get s.flow c

-- `%de-%d` of a channel's flow.
abbrev pub scaled : Channel → Sim → Text
unfolding read_flow_sensor
scaled c s = format_d (read_flow_sensor c s) ++ (codes "e-" ++ format_d scale_exp)

unfoldable pub build_message : LinkAddr → Sim → Text
unfolding read_flow_sensor
build_message addr s = snprintf app_buffer_size (
    codes "{\"bn\":\""
    ++ (urn addr
        ++ (codes "\",\"bu\":\"m3/s\", \"e\": [{\"n\":\"inflow\", \"v\":"
            ++ (scaled inflow s
                ++ (codes "},{\"n\":\"outflow-1\", \"v\":"
                    ++ (scaled outflow_1 s
                        ++ (codes "},{\"n\":\"outflow-2\", \"v\":"
                            ++ (scaled outflow_2 s ++ codes "}]}"))))))))

-- One round of the loop of `handle_message`, which leaves out the inflow. The test on the value and
-- what it sets are those of the firmware, with the index in place of `FLOW`. `garbage` is what the
-- uninitialised buffer of `get_json_int_field` holds.
unfoldable pub gate_round : JsonParser → (Channel → Text) → Text → Channel → Sim → Sim
unfolding snprintf apply_gate
gate_round p garbage chunk c s =
    let gate_field = snprintf 15 (codes "gate-" ++ gate c) in
    let (res, v) = get_json_int_field p (garbage c) chunk gate_field s.new_gate_value in
    apply_gate c res (record s { new_gate_value = v })

unfoldable pub handle_message : JsonParser → (Channel → Text) → Text → Sim → Sim
handle_message p garbage chunk s =
    gate_round p garbage chunk outflow_2 (gate_round p garbage chunk outflow_1 s)

-- The process: its client and timers, the simulation, and what the button and the led need.
pub record Device : Type 0 where
  pub schedule : Schedule
  pub sim : Sim
  pub btn_release : Bool
  pub led_2 : Bool
  pub led_timer : Bool

-- A short press of the button.
unfoldable pub press : Device → Device
press d =
    if ltb_ℤ target (pos (max_inflow * 100))
    then record d {
      sim = record d.sim {
        target_flow = put d.sim.target_flow inflow raised;
        flow = put d.sim.flow inflow raised;
      };
      led_2 = true;
      led_timer = true;
    }
    else d
  where
    target : ℤ
    target = get d.sim.target_flow inflow

    raised : ℤ
    raised =
        target +ℤ (if leb_ℤ (pos (max_inflow * 100)) target then pos 0 else pos (max_inflow * 10))

-- A button that is held for three seconds.
unfoldable pub hold : Device → Device
hold d = record d {
  sim = record d.sim {
    target_flow = put d.sim.target_flow inflow (pos 0);
    flow = put d.sim.flow inflow (pos 0);
  };
  btn_release = false;
  led_2 = true;
  led_timer = true;
}

module _ (p : JsonParser) (addr : LinkAddr) (clock_second : ℕ) (to_clock_time : ℤ → ℤ) where
  -- The process up to its loop.
  unfoldable pub start : Device
  unfolding init_mqtt init_sim initial
  start = record {
    schedule = record {
      client =
          init_mqtt (pub_period_s * clock_second) pub_topic sub_topic (initial clock_second addr);
      time_period = pos (default_time_period clock_second);
      interval = pos (default_time_period clock_second);
      running = true;
    };
    sim = record init_sim { simulate_timer = true };
    btn_release = true;
    led_2 = false;
    led_timer = true;
  }

  -- The engine's events; a message goes to `handle_message`.
  unfoldable pub mqtt_event : MqttEvent → Device → Device
  unfolding client_event
  mqtt_event (publish_event garbage topic chunk) d = record d {
    sim = handle_message p garbage chunk d.sim;
  }
  mqtt_event e d = record d {
    schedule = record d.schedule { client = client_event e d.schedule.client };
  }

  poll_device : Net → Device → Device
  poll_device n d = record d {
    schedule = poll_client clock_second addr to_clock_time n (build_message addr d.sim) d.schedule;
  }

  -- One round of the loop: the process wakes with an event.
  unfoldable pub process_event : Net → ProcessEvent → Device → Device
  unfolding poll_device
  process_event n periodic_timer_event d = poll_device n d
  process_event n poll d = poll_device n d
  process_event n button_release d =
      if d.btn_release then press d else record d { btn_release = true }
  process_event n (button_periodic seconds) d = if seconds == 3 then hold d else d
  process_event n led_timer_event d = record d { led_2 = false; led_timer = false }
  process_event n other_event d = d
