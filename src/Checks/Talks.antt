-- ===== src/Checks/Talks.antt =====
-- What the sensors (Motes/firmwares) and the MQTT engine say to each other, at the start of a history.
use dam_monitoring.Prelude.{◌*◌, ◌≡◌}
use dam_monitoring.History.{emitted}
use dam_monitoring.SensorSim.{inflow}
use dam_monitoring.Mqtt.{init_mqtt, initial}
use dam_monitoring.Mqtt.Engine.{absent, calls_of, Dialogue}
use dam_monitoring.Mqtt.Engine.Spoken.{phase}
use dam_monitoring.Mqtt.Engine.Takes.{trace}
use dam_monitoring.Process.Publishes.{online}
use dam_monitoring.FlowSensor
use dam_monitoring.FlowSensor.Device as FlowRuns
use dam_monitoring.FlowSensor.Talks as FlowTalks
use dam_monitoring.FlowSensor.Talks.{flow_talks}
use dam_monitoring.WaterLevel
use dam_monitoring.WaterLevel.Device as WaterRuns
use dam_monitoring.WaterLevel.Talks as WaterTalks
use dam_monitoring.WaterLevel.Talks.{level_talks}
use dam_monitoring.Checks.{half_open, addr, to_clock_time, to_clock_time_nonneg}
use dam_monitoring.Checks.Streams.{
  flow_subscribes, live_flow, reaches_flow, level_subscribes, live_level, reaches_level,
  flow_connects, level_connects,
}

flow_talks_example :
    (calls_of (
        trace 128 addr
          (emitted
            (FlowRuns.step half_open addr 128 to_clock_time inflow)
            (FlowTalks.asks addr inflow)
            flow_subscribes
            (FlowSensor.start half_open addr 128 to_clock_time inflow))
          (init_mqtt
            (FlowSensor.pub_period_s * 128)
            FlowSensor.pub_topic
            FlowSensor.sub_topic
            (initial 128 addr)))
      ≡ live_flow.schedule.client.calls)
    × Dialogue 128 addr
        (record {
          publish_topic = FlowSensor.pub_topic;
          subscribe_topic = FlowSensor.sub_topic;
          period = FlowSensor.pub_period_s * 128;
        })
        absent
        (trace 128 addr
          (emitted
            (FlowRuns.step half_open addr 128 to_clock_time inflow)
            (FlowTalks.asks addr inflow)
            flow_subscribes
            (FlowSensor.start half_open addr 128 to_clock_time inflow))
          (init_mqtt
            (FlowSensor.pub_period_s * 128)
            FlowSensor.pub_topic
            FlowSensor.sub_topic
            (initial 128 addr)))
        (phase live_flow.schedule.client.state)
flow_talks_example =
    flow_talks half_open addr 128 to_clock_time inflow to_clock_time_nonneg online flow_connects
      reaches_flow

level_talks_example :
    (calls_of (
        trace 128 addr
          (emitted
            (WaterRuns.step half_open addr 128 to_clock_time)
            (WaterTalks.asks addr)
            level_subscribes
            (WaterLevel.start half_open addr 128 to_clock_time))
          (init_mqtt
            (WaterLevel.pub_period_s * 128)
            WaterLevel.pub_topic
            WaterLevel.sub_topic
            (initial 128 addr)))
      ≡ live_level.schedule.client.calls)
    × Dialogue 128 addr
        (record {
          publish_topic = WaterLevel.pub_topic;
          subscribe_topic = WaterLevel.sub_topic;
          period = WaterLevel.pub_period_s * 128;
        })
        absent
        (trace 128 addr
          (emitted
            (WaterRuns.step half_open addr 128 to_clock_time)
            (WaterTalks.asks addr)
            level_subscribes
            (WaterLevel.start half_open addr 128 to_clock_time))
          (init_mqtt
            (WaterLevel.pub_period_s * 128)
            WaterLevel.pub_topic
            WaterLevel.sub_topic
            (initial 128 addr)))
        (phase live_level.schedule.client.state)
level_talks_example =
    level_talks half_open addr 128 to_clock_time to_clock_time_nonneg online level_connects
      reaches_level
