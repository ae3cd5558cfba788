-- ===== src/Mqtt/Engine/Spoken.antt =====
-- What one call of `state_machine` (Motes/lib/mqtt-client/mqtt-client.c) says to the MQTT engine.
use dam_monitoring.Prelude.{
  ℕ, ◌*◌, ◌/◌, ◌≢◌, refl, true, false, List, [], ◌∷◌, ◌++◌, if◌then◌else◌, take, arith,
}
use dam_monitoring.Clib.Text.{Text}
use dam_monitoring.Common.Urn.{LinkAddr}
use dam_monitoring.Mqtt.{
  ConnState, boot, init, net_ok, connecting, connected, subscribed, disconnected, register, connect,
  subscribe, publish, disconnect, Net, have_connectivity, client_id, app_buffer_size, broker_ip,
  default_broker_port,
}
use dam_monitoring.Mqtt.States.{next_state}
use dam_monitoring.Mqtt.Engine.{
  EngineState, absent, down, up, live, Label, says, Settings, registers, connects, refuses,
  subscribes, publishes, disconnects, Dialogue, silent, further, joined,
}

-- The engine's state by the client's.
abbrev pub phase : ConnState → EngineState
phase boot = absent
phase connected = up
phase subscribed = live
phase _ = down

pub present : (s : ConnState) → s ≢ boot → phase s ≢ absent
present boot h = absurd (h refl)
present _ h = ground arith

module _ (clock_second : ℕ) (addr : LinkAddr) (g : Settings) where
  -- The calls of one call of `state_machine`, by the state it starts in, the latest first.
  abbrev attempts : Net → List Label
  attempts n =
      if have_connectivity n
      then says (connect broker_ip default_broker_port (g.period * 3 / clock_second)) ∷ []
      else []

  abbrev pub spoken : ConnState → Net → Text → List Label
  spoken boot n m = attempts n ++ says (register (client_id addr)) ∷ []
  spoken init n m = attempts n
  spoken net_ok n m =
      says (connect broker_ip default_broker_port (g.period * 3 / clock_second)) ∷ []
  spoken connecting n m = []
  spoken connected n m = says (subscribe g.subscribe_topic n.queue_room) ∷ []
  spoken subscribed n m = says (publish g.publish_topic (take app_buffer_size m)) ∷ []
  spoken disconnected n m = says disconnect ∷ []

  attempts-Dialogue :
      (n : Net) → Dialogue clock_second addr g down (attempts n) (phase (next_state init n))
  unfolding next_state
  attempts-Dialogue n =
      elim (have_connectivity n)
        as (λ b.
          Dialogue clock_second addr g down
            (if b
              then says (connect broker_ip default_broker_port (g.period * 3 / clock_second)) ∷ []
              else [])
            (phase (if b then connecting else init))) [
              | true ↦ further silent connects
              | false ↦ silent
            ]

  -- They are what the engine takes in that state.
  pub spoken-Dialogue :
      (s : ConnState) (n : Net) (m : Text)
      → Dialogue clock_second addr g (phase s) (spoken s n m) (phase (next_state s n))
  unfolding next_state
  spoken-Dialogue boot n m =
      joined clock_second addr g (further silent registers) (attempts-Dialogue n)
  spoken-Dialogue init n m = attempts-Dialogue n
  spoken-Dialogue net_ok n m = further silent connects
  spoken-Dialogue connecting n m = silent
  spoken-Dialogue connected n m =
      elim (n.queue_room)
        as (λ b.
          Dialogue clock_second addr g up (says (subscribe g.subscribe_topic b) ∷ [])
            (phase (if b then subscribed else connected))) [
              | true ↦ further silent subscribes
              | false ↦ further silent refuses
            ]
  spoken-Dialogue subscribed n m = further silent (publishes m)
  spoken-Dialogue disconnected n m = further silent disconnects
