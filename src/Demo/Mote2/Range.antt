-- ===== src/Demo/Mote2/Range.antt =====
-- The range of the three flows of Motes/demo/mote-2/mote-2.c, over every history of its process.
use mathlib.Core.Path.{subst}
use dam_monitoring.Prelude.{
  sym, ℕ, ◌*◌, ◌≤◌, ◌≡◌, inl, inr, refl, ap, ◌∙◌, true, ◌++◌, some, >>=-eq-some, eq_of_some, arith,
}
use dam_monitoring.Prelude.Int.{ℤ, pos, ◌*ℤ◌}
use dam_monitoring.Clib.Text.{Text, codes, snprintf}
use dam_monitoring.Common.Json.{JsonParser, FieldResult, get_json_int_field}
use dam_monitoring.SensorSim.{
  Channel, inflow, outflow_1, outflow_2, gate, max_flow, Flows, get, put,
}
use dam_monitoring.SensorSim.Settings.{times}
use dam_monitoring.FlowSensor.{Sim, simulate_flow, apply_gate}
use dam_monitoring.FlowSensor.Settle.{excess, simulate_flow_stays}
use dam_monitoring.FlowSensor.Range.{InRange, step-InRange, apply_gate_cases}
use dam_monitoring.Demo.Mote2.{gate_round, handle_message, simulate_read_flow, init_sim}
use dam_monitoring.Demo.Mote2.Channels.{next_flows, all_flows}

-- The inflow follows the button only: its target is a whole number of tenths of
-- the greatest inflow, and its flow never leaves the band around it.
pub record IsStepped (target flow : ℤ) : Type 0 where
  pub tenths : ℕ
  pub target_exact : target ≡ pos (tenths * 8000)
  pub tenths_capped : tenths ≤ 10
  pub amount : ℕ
  pub flow_exact : flow ≡ pos amount
  pub flow_capped : amount ≤ 80150
  pub calm : excess (tenths * 8000) amount ≡ 0

abbrev pub IsGood : Channel → ℤ → ℤ → Type 0
IsGood inflow target flow = IsStepped target flow
IsGood outflow_1 target flow = InRange outflow_1 target flow
IsGood outflow_2 target flow = InRange outflow_2 target flow

-- Every channel is in range.
abbrev pub IsSound : Sim → Type 0
IsSound s = (c : Channel) → IsGood c (get s.target_flow c) (get s.flow c)

step-IsStepped :
    (random : ℕ) {target flow next : ℤ}
    → IsStepped target flow
    → simulate_flow random target flow ≡ some next
    → IsStepped target next
step-IsStepped random v given =
    let (n, exact, capped, calm) =
      simulate_flow_stays random (v.tenths * 8000) v.amount v.calm
        (rw (v.target_exact, v.flow_exact) at given) in
    record {
      tenths = v.tenths;
      target_exact = v.target_exact;
      tenths_capped = v.tenths_capped;
      amount = n;
      flow_exact = exact;
      flow_capped = omega (arith, v.tenths_capped);
      calm = calm;
    }

pub simulate-IsSound :
    (random : Channel → ℕ) (s : Sim) {s' : Sim}
    → IsSound s
    → simulate_read_flow random s ≡ some s'
    → IsSound s'
simulate-IsSound random s {s'} v e =
    let (f, flows, result) = >>=-eq-some (next_flows random s) _ (rw (all_flows random s) at e) in
    let (a, ea, rest) =
      >>=-eq-some (simulate_flow (random inflow) (get s.target_flow inflow) (get s.flow inflow)) _
        flows in
    let (b, eb, rest') =
      >>=-eq-some
        (simulate_flow (random outflow_1) (get s.target_flow outflow_1) (get s.flow outflow_1)) _
        rest in
    let (c, ec, last) =
      >>=-eq-some
        (simulate_flow (random outflow_2) (get s.target_flow outflow_2) (get s.flow outflow_2)) _
        rest' in
    let moved : record s {
      flow = record { at_inflow = a; at_outflow_1 = b; at_outflow_2 = c };
      simulate_timer = true;
    }
        ≡ s' =
      ap (λ (g : Flows). record s { flow = g; simulate_timer = true }) (eq_of_some last)
      ∙ eq_of_some result in
    subst IsSound moved (each a b c ea eb ec)
  where
    each :
        (a b c : ℤ)
        → simulate_flow (random inflow) (get s.target_flow inflow) (get s.flow inflow) ≡ some a
        → simulate_flow (random outflow_1) (get s.target_flow outflow_1) (get s.flow outflow_1)
          ≡ some b
        → simulate_flow (random outflow_2) (get s.target_flow outflow_2) (get s.flow outflow_2)
          ≡ some c
        → IsSound (record s {
          flow = record { at_inflow = a; at_outflow_1 = b; at_outflow_2 = c };
          simulate_timer = true;
        })
    each a b c ea eb ec inflow = step-IsStepped (random inflow) (v inflow) ea
    each a b c ea eb ec outflow_1 = step-InRange outflow_1 (random outflow_1) (v outflow_1) eb
    each a b c ea eb ec outflow_2 = step-InRange outflow_2 (random outflow_2) (v outflow_2) ec

put_target :
    (c : Channel) (s : Sim) (v : ℤ)
    → IsSound s
    → IsGood c v (get s.flow c)
    → IsSound (record s { target_flow = put s.target_flow c v })
put_target inflow s v all new inflow = new
put_target inflow s v all new outflow_1 = all outflow_1
put_target inflow s v all new outflow_2 = all outflow_2
put_target outflow_1 s v all new inflow = all inflow
put_target outflow_1 s v all new outflow_1 = new
put_target outflow_1 s v all new outflow_2 = all outflow_2
put_target outflow_2 s v all new inflow = all inflow
put_target outflow_2 s v all new outflow_1 = all outflow_1
put_target outflow_2 s v all new outflow_2 = new

-- A gate of an outflow.
abbrev IsOutflow : Channel → Type 0
IsOutflow inflow = ⊥
IsOutflow _ = Unit

set_target :
    (c : Channel) (s : Sim) (k : ℕ)
    → IsOutflow c
    → k ≤ 100
    → IsSound s
    → IsGood c (pos k *ℤ pos (max_flow c)) (get s.flow c)
set_target inflow s k out h all = elim out [ ]
set_target outflow_1 s k out h all =
    let v = all outflow_1 in
    record {
      percent = k;
      target_exact = times k (max_flow outflow_1);
      percent_capped = h;
      amount = v.amount;
      flow_exact = v.flow_exact;
      flow_capped = v.flow_capped;
    }
set_target outflow_2 s k out h all =
    let v = all outflow_2 in
    record {
      percent = k;
      target_exact = times k (max_flow outflow_2);
      percent_capped = h;
      amount = v.amount;
      flow_exact = v.flow_exact;
      flow_capped = v.flow_capped;
    }

apply_gate-IsSound :
    (c : Channel) (res : FieldResult) (s : Sim)
    → IsOutflow c
    → IsSound s
    → IsSound (apply_gate c res s)
apply_gate-IsSound c res s out all = elim (apply_gate_cases c res s) [
  | inl e ↦ subst IsSound (sym e) all
  | inr (k, h, e, f) ↦
      let value : s.new_gate_value *ℤ pos (max_flow c) ≡ pos k *ℤ pos (max_flow c) =
        ap (λ n. n *ℤ pos (max_flow c)) f in
      subst IsSound (sym e) (
        put_target c s _ all
          (subst (λ v. IsGood c v (get s.flow c)) (sym value) (set_target c s k out h all)))
]

gate_round-IsSound :
    (p : JsonParser) (garbage : Channel → Text) (chunk : Text) (c : Channel) (s : Sim)
    → IsOutflow c
    → IsSound s
    → IsSound (gate_round p garbage chunk c s)
unfolding gate_round
gate_round-IsSound p garbage chunk c s out all =
    let (res, n) =
      get_json_int_field p (garbage c) chunk (snprintf 15 (codes "gate-" ++ gate c))
        s.new_gate_value in
    apply_gate-IsSound c res (record s { new_gate_value = n }) out all

pub handle_message-IsSound :
    (p : JsonParser) (garbage : Channel → Text) (chunk : Text) (s : Sim)
    → IsSound s
    → IsSound (handle_message p garbage chunk s)
unfolding handle_message
handle_message-IsSound p garbage chunk s all =
    gate_round-IsSound p garbage chunk outflow_2 _ tt
      (gate_round-IsSound p garbage chunk outflow_1 s tt all)

pub init_sim-IsSound : IsSound init_sim
unfolding init_sim excess
init_sim-IsSound inflow = record {
  tenths = 4;
  target_exact = refl;
  tenths_capped = omega arith;
  amount = 32000;
  flow_exact = refl;
  flow_capped = omega arith;
  calm = refl;
}
init_sim-IsSound outflow_1 = record {
  percent = 0;
  target_exact = refl;
  percent_capped = omega arith;
  amount = 0;
  flow_exact = refl;
  flow_capped = omega arith;
}
init_sim-IsSound outflow_2 = record {
  percent = 0;
  target_exact = refl;
  percent_capped = omega arith;
  amount = 0;
  flow_exact = refl;
  flow_capped = omega arith;
}
