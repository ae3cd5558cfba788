-- ===== src/Checks/Clients.antt =====
-- The client's failures and identifier (Motes/lib/mqtt-client), and the contents of the reservoir
-- (Motes/firmwares/water-level-sensor), at concrete inputs.
use dam_monitoring.Prelude.{◌*◌, ◌<◌, ◌≡◌, ◌↔◌, refl, true, false, [], ◌∷◌, some, length, arith}
use dam_monitoring.Prelude.Int.{pos, ◌+ℤ◌}
use dam_monitoring.Clib.Text.{codes}
use dam_monitoring.SensorSim.{init_flows}
use dam_monitoring.Common.Urn.{LinkAddr, IsAddr}
use dam_monitoring.Mqtt.{
  init, subscribed, connected_event, Client, have_connectivity, client_id, client_event,
  state_machine,
}
use dam_monitoring.Mqtt.Backoff.{failures, failures_wait}
use dam_monitoring.Mqtt.ClientId.{client_id-eq}
use dam_monitoring.WaterLevel.Contents.{swing, IsMoved, IsDepth, IsClear, readings, readings_follow}
use dam_monitoring.WaterLevel
use dam_monitoring.Checks.{addr, ready}

abbrev client : Client
client = record {
  state = init;
  reconnection_trial = 3;
  time_period = 128;
  publish_time_period = 640;
  pub_topic = codes "flow-rate";
  sub_topic = codes "simulation";
  led_timer = true;
  publish_led_timer = false;
  red_led = true;
  green_led = false;
  calls = [];
}

ready-have_connectivity : have_connectivity ready ≡ true
unfolding have_connectivity
ready-have_connectivity = refl

failures_wait_example :
    let (c1, rs) = failures 128 addr ready ([] ∷ [] ∷ [] ∷ [] ∷ []) client in
    let c2 =
      (state_machine 128 addr ready []
        (client_event connected_event (state_machine 128 addr ready [] c1).0)).0 in
    (rs ≡ pos 1024 ∷ pos 2048 ∷ pos 4096 ∷ pos 8192 ∷ [])
    × (c1.reconnection_trial ≡ 7)
    × (c2.state ≡ subscribed)
    × (c2.reconnection_trial ≡ 0)
failures_wait_example =
    failures_wait 128 addr ready ([] ∷ [] ∷ [] ∷ [] ∷ []) [] [] client refl ready-have_connectivity
      refl

abbrev neighbour : LinkAddr
neighbour = record addr { u3 = 1 }

bytes : IsAddr addr
bytes = record {
  b0 = omega arith;
  b1 = omega arith;
  b2 = omega arith;
  b3 = omega arith;
  b4 = omega arith;
  b5 = omega arith;
  b6 = omega arith;
  b7 = omega arith;
}

neighbour_bytes : IsAddr neighbour
neighbour_bytes = record {
  b0 = omega arith;
  b1 = omega arith;
  b2 = omega arith;
  b3 = omega arith;
  b4 = omega arith;
  b5 = omega arith;
  b6 = omega arith;
  b7 = omega arith;
}

client_id-eq_example :
    (length (client_id addr) ≡ 12)
    × ((client_id addr ≡ client_id neighbour) ↔ (
        (addr.u0 ≡ neighbour.u0)
        × (addr.u1 ≡ neighbour.u1)
        × (addr.u2 ≡ neighbour.u2)
        × (addr.u5 ≡ neighbour.u5)
        × (addr.u6 ≡ neighbour.u6)
        × (addr.u7 ≡ neighbour.u7)))
client_id-eq_example = client_id-eq addr neighbour bytes neighbour_bytes

abbrev filling : WaterLevel.Sim
filling = record {
  balance_flow = pos 32000;
  water_level = 45000;
  reservoir = 46080000;
  flow = init_flows;
  new_gate_value = pos 0;
  simulate_timer = true;
}

filling-IsClear : IsClear 3 filling
unfolding ◌+ℤ◌
filling-IsClear = record { above = omega arith; below = omega arith }

filling-swing : 0 < swing filling.balance_flow
unfolding ◌+ℤ◌
filling-swing = omega arith

readings_follow_example :
    (s' : WaterLevel.Sim) × (readings ((7, 3) ∷ (40, 1) ∷ (9, 4) ∷ []) filling ≡ some s')
    × IsMoved 3 (3 * swing (pos 32000)) filling s'
    × IsDepth s'
readings_follow_example =
    readings_follow (7, 3) ((40, 1) ∷ (9, 4) ∷ []) filling filling-swing filling-IsClear
