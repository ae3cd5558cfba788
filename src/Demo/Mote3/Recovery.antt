-- ===== src/Demo/Mote3/Recovery.antt =====
-- From wherever a history has left the process of Motes/demo/mote-3/mote-3.c to its next record.
use mathlib.Core.Path.{subst}
use dam_monitoring.History
use dam_monitoring.Prelude.{ℕ, ◌≡◌, sym, ap, ◌∙◌, List, some, ◌>>=◌, >>=-eq-some, eq_of_some}
use dam_monitoring.Prelude.Int.{ℤ, pos, ◌≤ℤ◌}
use dam_monitoring.Clib.Text.{codes}
use dam_monitoring.Common.Json.{JsonParser}
use dam_monitoring.Common.Urn.{LinkAddr}
use dam_monitoring.Process.Advance.{HasNext}
use dam_monitoring.WaterLevel.Device.{Input}
use dam_monitoring.WaterLevel.Messages.{level_text}
use dam_monitoring.WaterLevel.Recovery.{next_history, level_recovers}
use dam_monitoring.Demo.Mote3.{Device, start}
use dam_monitoring.Demo.Mote3.Agreement.{step, as_firmware, run_agrees, mote_3-agrees}

module _ (p : JsonParser) (addr : LinkAddr) (clock_second : ℕ) (to_clock_time : ℤ → ℤ) where
  -- Where `clock_time_t` is unsigned: after every history from the start that C defines, whatever it
  -- has done to the connection, at most four wake-ups of the timer and an event of a connection, with
  -- the network there, make the mote publish under `water-level` the whole record of its level. It
  -- makes the calls of the engine that the state of its client still asks for, and no others, ends
  -- subscribed with the green led on, goes on, and has set its timer to the client's publication
  -- period.
  pub mote_3_recovers :
      (nonneg : (r : ℤ) → pos 0 ≤ℤ to_clock_time r) (is : List Input) {d : Device}
      → History.run
          (step p addr clock_second to_clock_time)
          is
          (start p addr clock_second to_clock_time)
        ≡ some d
      → (e : Device) × (History.run
            (step p addr clock_second to_clock_time)
            (next_history d.schedule.client.state)
            d
          ≡ some e)
        × (e.sim ≡ d.sim)
        × HasNext clock_second addr to_clock_time
            (codes "water-level")
            (level_text addr d.sim.water_level)
            d.schedule
            e.schedule
  mote_3_recovers nonneg is {d} h =
      let as_run =
        sym (mote_3-agrees p addr clock_second to_clock_time is)
        ∙ ap (λ o. o >>= λ x. some (as_firmware x)) h in
      let (w, runs, sim, next) =
        level_recovers p addr clock_second to_clock_time nonneg is {d = as_firmware d} as_run in
      let (e, goes, same) =
        >>=-eq-some
          (History.run (step p addr clock_second to_clock_time)
            (next_history d.schedule.client.state) d)
          (λ x. some (as_firmware x))
          (run_agrees p addr clock_second to_clock_time (next_history d.schedule.client.state) d
            ∙ runs) in
      let at = eq_of_some same in
      (
        e,
        goes,
        ap (λ x. x.sim) at ∙ sim,
        subst
            (λ s.
              HasNext clock_second addr to_clock_time (codes "water-level")
                (level_text addr d.sim.water_level) d.schedule s)
            (sym (ap (λ x. x.schedule) at)) next,
      )
