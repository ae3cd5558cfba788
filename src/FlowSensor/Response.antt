-- ===== src/FlowSensor/Response.antt =====
-- What the flow sensor of Motes/firmwares/flow-sensor/flow-sensor.c does of a message, through its
-- readings, up to the record that it publishes.
use dam_monitoring.History
use dam_monitoring.Prelude.{
  ℕ, ◌+◌, ◌*◌, ◌≤◌, ◌≡◌, refl, sym, ap, ◌∙◌, List, [], ◌∷◌, ◌++◌, some, ◌>>=◌, >>=-eq-some,
  eq_of_some, arith, length,
}
use dam_monitoring.Prelude.Int.{ℤ, pos, ◌≤ℤ◌}
use dam_monitoring.Clib.Text.{Text, codes}
use dam_monitoring.Common.Json.{JsonParser}
use dam_monitoring.Common.Urn.{LinkAddr}
use dam_monitoring.SensorSim.{
  Channel, inflow, outflow_1, outflow_2, Flows, gate, max_flow, get, put,
}
use dam_monitoring.SensorSim.Asked.{asked, set_by}
use dam_monitoring.Mqtt.{publish_event}
use dam_monitoring.FlowSensor.{FlowDevice, simulate_flow, simulate_read_flow, start, mqtt_event}
use dam_monitoring.FlowSensor.Wanted.{handle_message_target, handle_message-flow}
use dam_monitoring.FlowSensor.Settle.{excess, simulate_flows, simulate_flows_settle}
use dam_monitoring.FlowSensor.Messages.{record_text}
use dam_monitoring.FlowSensor.Device.{Input, engine, simulation, step}
use dam_monitoring.FlowSensor.Recovery.{next_history, flow_recovers}
use dam_monitoring.Process.Advance.{HasNext}

get-put : (c : Channel) (f : Flows) (v : ℤ) → get (put f c v) c ≡ v
get-put inflow f v = refl
get-put outflow_1 f v = refl
get-put outflow_2 f v = refl

-- Readings with their random numbers.
abbrev pub readings : List ℕ → List Input
readings [] = []
readings (r ∷ rs) = simulation r ∷ readings rs

module _ (p : JsonParser) (addr : LinkAddr) (clock_second : ℕ) (to_clock_time : ℤ → ℤ)
    (c : Channel) where
  reading_step :
      (r : ℕ) (d d1 : FlowDevice)
      → step p addr clock_second to_clock_time c (simulation r) d ≡ some d1
      → (f : ℤ) × (simulate_flow r (get d.sim.target_flow c) (get d.sim.flow c) ≡ some f)
        × (get d1.sim.target_flow c ≡ get d.sim.target_flow c)
        × (get d1.sim.flow c ≡ f)
  unfolding step simulate_read_flow
  reading_step r d d1 h =
      let (s, read, made) = >>=-eq-some (simulate_read_flow c r d.sim) _ h in
      let (f, given, set) =
        >>=-eq-some (simulate_flow r (get d.sim.target_flow c) (get d.sim.flow c)) _ read in
      let sim1 = ap (λ x. x.sim) (sym (eq_of_some made)) ∙ sym (eq_of_some set) in
      (
        f,
        given,
        ap (λ x. get x.target_flow c) sim1,
        ap (λ x. get x.flow c) sim1 ∙ get-put c d.sim.flow f,
      )

  -- The readings of a device are steps of the flow towards its target.
  pub readings-simulate_flows :
      (rs : List ℕ) (d : FlowDevice) {e : FlowDevice}
      → History.run (step p addr clock_second to_clock_time c) (readings rs) d ≡ some e
      → simulate_flows rs (get d.sim.target_flow c) (get d.sim.flow c) ≡ some (get e.sim.flow c)
  unfolding History.run step simulate_flows simulate_read_flow
  readings-simulate_flows [] d h = ap (λ x. some (get x.sim.flow c)) (eq_of_some h)
  readings-simulate_flows (r ∷ rs) d {e} h =
      let (d1, first, rest) =
        >>=-eq-some (step p addr clock_second to_clock_time c (simulation r) d) _ h in
      let (f, given, target, flow) = reading_step r d d1 first in
      ap (λ o. o >>= simulate_flows rs (get d.sim.target_flow c)) given
      ∙ ap (λ t. simulate_flows rs t f) (sym target)
      ∙ ap (simulate_flows rs (get d1.sim.target_flow c)) (sym flow)
      ∙ readings-simulate_flows rs d1 rest

  -- A message that asks for a level, and readings that C defines, enough of them to close the distance
  -- at 100 a reading.
  message_settles :
      (d : FlowDevice) {e : FlowDevice} (garbage : Channel → Text) (topic chunk : Text) (k f : ℕ)
      (rs : List ℕ)
      → get d.sim.flow c ≡ pos f
      → asked p garbage chunk c ≡ some k
      → excess (k * max_flow c) f ≤ 100 * length rs
      → History.run
          (step p addr clock_second to_clock_time c)
          (engine (publish_event garbage topic chunk) ∷ readings rs)
          d
        ≡ some e
      → (v : ℕ) × (get e.sim.flow c ≡ pos v)
        × (k * max_flow c ≤ v + 150)
        × (v ≤ k * max_flow c + 150)
  unfolding History.run step mqtt_event excess
  message_settles d {e} garbage topic chunk k f rs flow asks enough h =
      let d1 =
        mqtt_event p addr clock_second to_clock_time c (publish_event garbage topic chunk) d in
      let target : get d1.sim.target_flow c ≡ pos (k * max_flow c) =
        handle_message_target p c (garbage c) chunk d.sim
        ∙ ap (λ o. set_by c o (get d.sim.target_flow c)) asks in
      let flow1 : get d1.sim.flow c ≡ pos f =
        ap (λ x. get x c) (handle_message-flow p c (garbage c) chunk d.sim) ∙ flow in
      let steps : simulate_flows rs (pos (k * max_flow c)) (pos f) ≡ some (get e.sim.flow c) =
        rw (sym target, sym flow1) (readings-simulate_flows rs d1 h) in
      let (v, at, near) = simulate_flows_settle rs (k * max_flow c) f enough steps in
      (v, at, omega arith, omega arith)

  -- Where `clock_time_t` is unsigned: after any history from the start, a message that asks the channel
  -- for `k` hundredths of its greatest flow, readings that C defines, enough of them to close the
  -- flow's distance from there at 100 a reading, and then, with the network there, at most four wake-ups
  -- of the timer and an event of a connection make the sensor publish under `flow-rate` a record whose
  -- flow is within 150 of what was asked for.
  pub flow_responds :
      (nonneg : (r : ℤ) → pos 0 ≤ℤ to_clock_time r) (is : List Input) (garbage : Channel → Text)
      (topic chunk : Text) (k f : ℕ) (rs : List ℕ) {d e : FlowDevice}
      → History.run
          (step p addr clock_second to_clock_time c)
          is
          (start p addr clock_second to_clock_time c)
        ≡ some d
      → get d.sim.flow c ≡ pos f
      → asked p garbage chunk c ≡ some k
      → excess (k * max_flow c) f ≤ 100 * length rs
      → History.run
          (step p addr clock_second to_clock_time c)
          (engine (publish_event garbage topic chunk) ∷ readings rs)
          d
        ≡ some e
      → (v : ℕ) × (e' : FlowDevice) × (History.run
            (step p addr clock_second to_clock_time c)
            (next_history e.schedule.client.state)
            e
          ≡ some e')
        × (k * max_flow c ≤ v + 150)
        × (v ≤ k * max_flow c + 150)
        × HasNext clock_second addr to_clock_time
            (codes "flow-rate")
            (record_text addr (gate c) (pos v))
            e.schedule
            e'.schedule
  flow_responds nonneg is garbage topic chunk k f rs {d} {e} before flow asks enough h =
      let (v, at, low, high) = message_settles d garbage topic chunk k f rs flow asks enough h in
      let asked_history = engine (publish_event garbage topic chunk) ∷ readings rs in
      let all =
        History.run-append (step p addr clock_second to_clock_time c) is asked_history _ before
        ∙ h in
      let (e', runs, _, next) =
        flow_recovers p addr clock_second to_clock_time c nonneg (is ++ asked_history) all in
      (v, e', runs, low, high, rw (sym at) next)
