-- ===== src/Checks/Streams.antt =====
-- What the sensors (Motes/firmwares) and mote 2 (Motes/demo) publish while they are subscribed, at
-- concrete histories.
use dam_monitoring.History
use dam_monitoring.History.{emitted}
use dam_monitoring.Prelude.{◌≡◌, refl, List, [], ◌∷◌, some}
use dam_monitoring.Clib.Text.{codes}
use dam_monitoring.SensorSim.{inflow}
use dam_monitoring.Mqtt.{subscribed, state_machine, connected_event, puback}
use dam_monitoring.Process.{periodic_timer_event, poll, button_release, poll_client}
use dam_monitoring.Process.Publishes.{online}
use dam_monitoring.Process.Streaming.{IsLive, published}
use dam_monitoring.FlowSensor
use dam_monitoring.FlowSensor.{FlowDevice}
use dam_monitoring.FlowSensor.Device as FlowRuns
use dam_monitoring.FlowSensor.Streaming as FlowStreaming
use dam_monitoring.FlowSensor.Streaming.{flow_streams}
use dam_monitoring.WaterLevel
use dam_monitoring.WaterLevel.{WaterDevice}
use dam_monitoring.WaterLevel.Device as WaterRuns
use dam_monitoring.WaterLevel.Streaming as WaterStreaming
use dam_monitoring.WaterLevel.Streaming.{level_streams}
use dam_monitoring.Demo.Mote2
use dam_monitoring.Demo.Mote2.Runs as MoteRuns
use dam_monitoring.Demo.Mote2.Streaming as MoteStreaming
use dam_monitoring.Demo.Mote2.Streaming.{mote_2_streams}
use dam_monitoring.Checks.{half_open, addr, full, to_clock_time, to_clock_time_nonneg}

-- A flow sensor that has subscribed.
abbrev pub flow_connects : List FlowRuns.Input
flow_connects = FlowRuns.Input.engine connected_event ∷ FlowRuns.Input.scheduler online poll ∷ []

abbrev pub flow_subscribes : List FlowRuns.Input
flow_subscribes = FlowRuns.Input.scheduler online periodic_timer_event ∷ flow_connects

abbrev pub live_flow : FlowDevice
live_flow = FlowSensor.process_event half_open addr 128 to_clock_time inflow online poll (
    FlowSensor.mqtt_event half_open addr 128 to_clock_time inflow connected_event (
      FlowSensor.process_event half_open addr 128 to_clock_time inflow online periodic_timer_event
        (FlowSensor.start half_open addr 128 to_clock_time inflow)))

pub reaches_flow :
    History.run
      (FlowRuns.step half_open addr 128 to_clock_time inflow)
      flow_subscribes
      (FlowSensor.start half_open addr 128 to_clock_time inflow)
    ≡ some live_flow
unfolding History.run FlowRuns.step FlowSensor.process_event FlowSensor.mqtt_event FlowSensor.start
    poll_client state_machine
reaches_flow = refl

subscribed_flow : live_flow.schedule.client.state ≡ subscribed
unfolding FlowSensor.process_event FlowSensor.mqtt_event FlowSensor.start poll_client state_machine
subscribed_flow = refl

-- Two expiries of the timer, with a press of the button and an event of the engine between them.
abbrev flow_goes_on : List FlowRuns.Input
flow_goes_on =
    FlowRuns.Input.scheduler full periodic_timer_event
    ∷ FlowRuns.Input.engine puback
    ∷ FlowRuns.Input.scheduler online button_release
    ∷ FlowRuns.Input.scheduler online periodic_timer_event
    ∷ []

abbrev later_flow : FlowDevice
later_flow =
    FlowSensor.process_event half_open addr 128 to_clock_time inflow online periodic_timer_event (
      FlowSensor.process_event half_open addr 128 to_clock_time inflow online button_release (
        FlowSensor.mqtt_event half_open addr 128 to_clock_time inflow puback (
          FlowSensor.process_event half_open addr 128 to_clock_time inflow full periodic_timer_event
            live_flow)))

ends_flow :
    History.run (FlowRuns.step half_open addr 128 to_clock_time inflow) flow_goes_on live_flow
    ≡ some later_flow
unfolding History.run FlowRuns.step FlowSensor.process_event FlowSensor.mqtt_event FlowSensor.start
    FlowSensor.press poll_client state_machine
ends_flow = refl

flow_streams_example :
    IsLive
      (codes "flow-rate")
      (published
        (codes "flow-rate")
        (emitted
          (FlowRuns.step half_open addr 128 to_clock_time inflow)
          (FlowStreaming.emits addr inflow)
          flow_goes_on
          live_flow)
        live_flow.schedule.client.calls)
      later_flow.schedule
flow_streams_example =
    flow_streams half_open addr 128 to_clock_time inflow to_clock_time_nonneg flow_subscribes
      flow_goes_on reaches_flow subscribed_flow (tt, (tt, (tt, (tt, tt)))) ends_flow

-- A water level sensor that has subscribed.
abbrev pub level_connects : List WaterRuns.Input
level_connects = WaterRuns.Input.engine connected_event ∷ WaterRuns.Input.scheduler online poll ∷ []

abbrev pub level_subscribes : List WaterRuns.Input
level_subscribes = WaterRuns.Input.scheduler online periodic_timer_event ∷ level_connects

abbrev pub live_level : WaterDevice
live_level = WaterLevel.process_event half_open addr 128 to_clock_time online poll (
    WaterLevel.mqtt_event half_open addr 128 to_clock_time connected_event (
      WaterLevel.process_event half_open addr 128 to_clock_time online periodic_timer_event
        (WaterLevel.start half_open addr 128 to_clock_time)))

pub reaches_level :
    History.run
      (WaterRuns.step half_open addr 128 to_clock_time)
      level_subscribes
      (WaterLevel.start half_open addr 128 to_clock_time)
    ≡ some live_level
unfolding History.run WaterRuns.step WaterLevel.process_event WaterLevel.mqtt_event WaterLevel.start
    poll_client state_machine
reaches_level = refl

subscribed_level : live_level.schedule.client.state ≡ subscribed
unfolding WaterLevel.process_event WaterLevel.mqtt_event WaterLevel.start poll_client state_machine
subscribed_level = refl

-- Two expiries of the timer, with a press of the button and an event of the engine between them.
abbrev level_goes_on : List WaterRuns.Input
level_goes_on =
    WaterRuns.Input.scheduler full periodic_timer_event
    ∷ WaterRuns.Input.engine puback
    ∷ WaterRuns.Input.scheduler online button_release
    ∷ WaterRuns.Input.scheduler online periodic_timer_event
    ∷ []

abbrev later_level : WaterDevice
later_level =
    WaterLevel.process_event half_open addr 128 to_clock_time online periodic_timer_event (
      WaterLevel.process_event half_open addr 128 to_clock_time online button_release (
        WaterLevel.mqtt_event half_open addr 128 to_clock_time puback (
          WaterLevel.process_event half_open addr 128 to_clock_time full periodic_timer_event
            live_level)))

ends_level :
    History.run (WaterRuns.step half_open addr 128 to_clock_time) level_goes_on live_level
    ≡ some later_level
unfolding History.run WaterRuns.step WaterLevel.process_event WaterLevel.mqtt_event WaterLevel.start
    WaterLevel.set_reservoir poll_client state_machine
ends_level = refl

level_streams_example :
    IsLive
      (codes "water-level")
      (published
        (codes "water-level")
        (emitted
          (WaterRuns.step half_open addr 128 to_clock_time)
          (WaterStreaming.emits addr)
          level_goes_on
          live_level)
        live_level.schedule.client.calls)
      later_level.schedule
level_streams_example =
    level_streams half_open addr 128 to_clock_time to_clock_time_nonneg level_subscribes
      level_goes_on reaches_level subscribed_level (tt, (tt, (tt, (tt, tt)))) ends_level

-- A mote 2 that has subscribed.
abbrev mote_subscribes : List MoteRuns.Input
mote_subscribes =
    MoteRuns.Input.scheduler online periodic_timer_event
    ∷ MoteRuns.Input.engine connected_event
    ∷ MoteRuns.Input.scheduler online poll
    ∷ []

abbrev live_mote : Mote2.Device
live_mote = Mote2.process_event half_open addr 128 to_clock_time online poll (
    Mote2.mqtt_event half_open addr 128 to_clock_time connected_event (
      Mote2.process_event half_open addr 128 to_clock_time online periodic_timer_event
        (Mote2.start half_open addr 128 to_clock_time)))

reaches_mote :
    History.run
      (MoteRuns.step half_open addr 128 to_clock_time)
      mote_subscribes
      (Mote2.start half_open addr 128 to_clock_time)
    ≡ some live_mote
unfolding History.run MoteRuns.step Mote2.process_event Mote2.mqtt_event Mote2.start poll_client
    state_machine
reaches_mote = refl

subscribed_mote : live_mote.schedule.client.state ≡ subscribed
unfolding Mote2.process_event Mote2.mqtt_event Mote2.start poll_client state_machine
subscribed_mote = refl

-- Two expiries of the timer, with a press of the button and an event of the engine between them.
abbrev mote_goes_on : List MoteRuns.Input
mote_goes_on =
    MoteRuns.Input.scheduler full periodic_timer_event
    ∷ MoteRuns.Input.engine puback
    ∷ MoteRuns.Input.scheduler online button_release
    ∷ MoteRuns.Input.scheduler online periodic_timer_event
    ∷ []

abbrev later_mote : Mote2.Device
later_mote = Mote2.process_event half_open addr 128 to_clock_time online periodic_timer_event (
    Mote2.process_event half_open addr 128 to_clock_time online button_release (
      Mote2.mqtt_event half_open addr 128 to_clock_time puback
        (Mote2.process_event half_open addr 128 to_clock_time full periodic_timer_event live_mote)))

ends_mote :
    History.run (MoteRuns.step half_open addr 128 to_clock_time) mote_goes_on live_mote
    ≡ some later_mote
unfolding History.run MoteRuns.step Mote2.process_event Mote2.mqtt_event Mote2.start Mote2.press
    poll_client state_machine
ends_mote = refl

mote_2_streams_example :
    IsLive
      (codes "flow-rate")
      (published
        (codes "flow-rate")
        (emitted
          (MoteRuns.step half_open addr 128 to_clock_time)
          (MoteStreaming.emits addr)
          mote_goes_on
          live_mote)
        live_mote.schedule.client.calls)
      later_mote.schedule
mote_2_streams_example =
    mote_2_streams half_open addr 128 to_clock_time to_clock_time_nonneg mote_subscribes
      mote_goes_on reaches_mote subscribed_mote (tt, (tt, (tt, (tt, tt)))) ends_mote
