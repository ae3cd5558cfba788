-- ===== src/Demo/Mote2/Channels.antt =====
-- The three channels of Motes/demo/mote-2/mote-2.c, one by one: a step of the mote is a step of each
-- channel as the flow sensor's firmware makes it.
use dam_monitoring.Prelude.{
  ℕ, ◌≡◌, refl, true, Option, none, some, ◌>>=◌, arith, ◌⊎◌, inl, inr, Option-cases,
}
use dam_monitoring.Prelude.Int.{ℤ}
use dam_monitoring.SensorSim.{Channel, inflow, outflow_1, outflow_2, Flows, get, put}
use dam_monitoring.FlowSensor
use dam_monitoring.FlowSensor.{Sim, simulate_flow}
use dam_monitoring.Demo.Mote2.{simulate_channel, simulate_read_flow}

-- The flows that the three firmwares would give, each from its own channel.
abbrev pub next_flows : (Channel → ℕ) → Sim → Option Flows
next_flows random s =
    simulate_flow (random inflow) (get s.target_flow inflow) (get s.flow inflow) >>= λ a.
    simulate_flow (random outflow_1) (get s.target_flow outflow_1) (get s.flow outflow_1) >>= λ b.
    simulate_flow (random outflow_2) (get s.target_flow outflow_2) (get s.flow outflow_2) >>= λ c.
    some (record { at_inflow = a; at_outflow_1 = b; at_outflow_2 = c })

pub all_flows :
    (random : Channel → ℕ) (s : Sim)
    → simulate_read_flow random s
      ≡ (next_flows random s >>= λ f. some (record s { flow = f; simulate_timer = true }))
unfolding simulate_read_flow simulate_channel
all_flows random s = ground arith

-- The flow sensor's firmware of channel `c` gives the flow of `s'`.
abbrev pub IsFirmwareFlow : (Channel → ℕ) → Sim → Sim → Channel → Type 0
IsFirmwareFlow random s s' c =
    (t : Sim) × (FlowSensor.simulate_read_flow c (random c) s ≡ some t)
    × (get s'.flow c ≡ get t.flow c)

firmware_step :
    (c : Channel) (random : ℕ) (s : Sim) {f : ℤ}
    → simulate_flow random (get s.target_flow c) (get s.flow c) ≡ some f
    → FlowSensor.simulate_read_flow c random s
      ≡ some (record s { flow = put s.flow c f; simulate_timer = true })
unfolding FlowSensor.simulate_read_flow
firmware_step c random s e = rw e

firmware_fault :
    (c : Channel) (random : ℕ) (s : Sim)
    → simulate_flow random (get s.target_flow c) (get s.flow c) ≡ none
    → FlowSensor.simulate_read_flow c random s ≡ none
unfolding FlowSensor.simulate_read_flow
firmware_fault c random s e = rw e

-- A step of the mote is three steps of the firmware, one for each channel: if all three are defined,
-- so is the mote's, each channel has the flow that its firmware gives, and the targets, the last gate
-- value read and the timer are as the firmware leaves them; if one is undefined, so is the mote's.
pub simulate_read_flow_channels :
    (random : Channel → ℕ) (s : Sim)
    → ((s' : Sim) × (simulate_read_flow random s ≡ some s')
        × ((c : Channel) → IsFirmwareFlow random s s' c)
        × (s'.target_flow ≡ s.target_flow)
        × (s'.new_gate_value ≡ s.new_gate_value)
        × (s'.simulate_timer ≡ true))
      ⊎ ((simulate_read_flow random s ≡ none)
          × ((c : Channel) × (FlowSensor.simulate_read_flow c (random c) s ≡ none)))
simulate_read_flow_channels random s =
    elim (Option-cases
      (simulate_flow (random inflow) (get s.target_flow inflow) (get s.flow inflow))) [
        | inl e ↦ inr (rw (all_flows random s, e), (inflow, firmware_fault inflow _ s e))
        | inr (a, ea) ↦
            elim (Option-cases (
              simulate_flow (random outflow_1) (get s.target_flow outflow_1)
                (get s.flow outflow_1))) [
                  | inl e ↦
                      inr (
                        rw (all_flows random s, ea, e),
                        (outflow_1, firmware_fault outflow_1 _ s e),
                      )
                  | inr (b, eb) ↦
                      elim (Option-cases (
                        simulate_flow (random outflow_2) (get s.target_flow outflow_2)
                          (get s.flow outflow_2))) [
                            | inl e ↦ inr (
                              rw (all_flows random s, ea, eb, e),
                              (outflow_2, firmware_fault outflow_2 _ s e),
                            )
                            | inr (c, ec) ↦ inl (
                              _,
                              rw (all_flows random s, ea, eb, ec),
                              each a b c ea eb ec,
                              refl,
                              refl,
                              refl,
                            )
                          ]
                ]
      ]
  where
    each :
        (a b c : ℤ)
        → simulate_flow (random inflow) (get s.target_flow inflow) (get s.flow inflow) ≡ some a
        → simulate_flow (random outflow_1) (get s.target_flow outflow_1) (get s.flow outflow_1)
          ≡ some b
        → simulate_flow (random outflow_2) (get s.target_flow outflow_2) (get s.flow outflow_2)
          ≡ some c
        → (i : Channel)
        → IsFirmwareFlow random s
            (record s {
              flow = record { at_inflow = a; at_outflow_1 = b; at_outflow_2 = c };
              simulate_timer = true;
            })
            i
    each a b c ea eb ec inflow = (_, firmware_step inflow _ s ea, refl)
    each a b c ea eb ec outflow_1 = (_, firmware_step outflow_1 _ s eb, refl)
    each a b c ea eb ec outflow_2 = (_, firmware_step outflow_2 _ s ec, refl)
