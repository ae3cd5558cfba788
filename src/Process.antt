-- ===== src/Process.antt =====
-- What the main processes of the sensor firmwares share: the events of Contiki's scheduler, and the
-- branch that calls `state_machine` (written out in each firmware, here from
-- Motes/firmwares/flow-sensor/flow-sensor.c).
pub mod Publishes
pub mod Sensor
pub mod Going
pub mod Advance
pub mod Recovery
pub mod Streaming
pub mod Stalled
pub mod Driven
use dam_monitoring.Prelude.{ℕ, ◌≡◌, Bool, false, arith, if◌then◌else◌}
use dam_monitoring.Prelude.Int.{ℤ, pos, ltb_ℤ, ◌≤ℤ◌}
use dam_monitoring.Clib.Text.{Text}
use dam_monitoring.Common.Urn.{LinkAddr}
use dam_monitoring.Mqtt.{Client, Net, state_machine}

-- An event with what comes with it: which timer expired, how many seconds a button is held.
pub data ProcessEvent : Type 0 where
  periodic_timer_event led_timer_event poll button_release other_event : ProcessEvent
  button_periodic : ℕ → ProcessEvent

-- The client with the variables `time_period` and `periodic_timer` of the process. `running` is
-- false once the process has called `PROCESS_EXIT()`.
pub record Schedule : Type 0 where
  pub client : Client
  pub time_period : ℤ
  pub interval : ℤ
  pub running : Bool

-- `to_clock_time` is the platform's conversion of an `int` to `clock_time_t`.
module _ (clock_second : ℕ) (addr : LinkAddr) (to_clock_time : ℤ → ℤ) where
  unfoldable pub poll_client : Net → Text → Schedule → Schedule
  poll_client n message s =
      let (c, r) = state_machine clock_second addr n message s.client in
      let time_period = to_clock_time r in
      if ltb_ℤ time_period (pos 0)
      then record s { client = c; time_period = time_period; running = false }
      else record s { client = c; time_period = time_period; interval = time_period }

  -- With an unsigned `clock_time_t` the test `time_period < 0` is never passed.
  pub poll_client_runs :
      ((r : ℤ) → pos 0 ≤ℤ to_clock_time r)
      → (n : Net) (message : Text) (s : Schedule)
      → ((poll_client n message s).running ≡ s.running)
        × ((poll_client n message s).interval
            ≡ to_clock_time (state_machine clock_second addr n message s.client).1)
  unfolding poll_client
  poll_client_runs nonneg n message s =
      let r = (state_machine clock_second addr n message s.client).1 in
      let t : ltb_ℤ (to_clock_time r) (pos 0) ≡ false = ground (arith, nonneg r) in (rw t, rw t)
