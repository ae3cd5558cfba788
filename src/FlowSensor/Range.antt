-- ===== src/FlowSensor/Range.antt =====
-- The range of the simulated flow over every history of the process of
-- Motes/firmwares/flow-sensor/flow-sensor.c, the button, and the end of the process.
use mathlib.Core.Path.{subst}
use dam_monitoring.Prelude.{
  sym, ℕ, ◌+◌, ◌*◌, ◌≤◌, ◌≡◌, ◌⊎◌, inl, inr, refl, true, some, >>=-eq-some, eq_of_some, arith, ap,
  ◌∙◌, ◌++◌,
}
use dam_monitoring.Prelude.Int.{ℤ, pos, ◌*ℤ◌}
use dam_monitoring.Clib.Text.{Text, codes, snprintf}
use dam_monitoring.Common.Json.{
  JsonParser, FieldResult, good, bad_value, missing, get_json_int_field,
}
use dam_monitoring.SensorSim.{Channel, inflow, outflow_1, outflow_2, gate, max_flow, get, put}
use dam_monitoring.SensorSim.Settings.{get-put, times, gate_value-cases}
use dam_monitoring.FlowSensor.{Sim, apply_gate, handle_message, simulate_read_flow, simulate_flow}
use dam_monitoring.FlowSensor.Settle.{simulate_flow_range}

-- The greatest setting of a channel, in hundredths: the button can raise the inflow past 100.
abbrev pub top : Channel → ℕ
top inflow = 109
top outflow_1 = 100
top outflow_2 = 100

-- The target is a whole number of hundredths of the channel's greatest flow, and the flow is not
-- negative and at most 150 above the greatest target.
pub record InRange (c : Channel) (target flow : ℤ) : Type 0 where
  pub percent : ℕ
  pub target_exact : target ≡ pos (percent * max_flow c)
  pub percent_capped : percent ≤ top c
  pub amount : ℕ
  pub flow_exact : flow ≡ pos amount
  pub flow_capped : amount ≤ top c * max_flow c + 150

abbrev pub IsInRange : Channel → Sim → Type 0
IsInRange c s = InRange c (get s.target_flow c) (get s.flow c)

pub apply_gate_cases :
    (c : Channel) (res : FieldResult) (s : Sim)
    → (apply_gate c res s ≡ s)
      ⊎ ((k : ℕ) × (k ≤ 100)
          × (apply_gate c res s ≡ record s {
            target_flow = put s.target_flow c (s.new_gate_value *ℤ pos (max_flow c));
          })
          × (s.new_gate_value ≡ pos k))
unfolding apply_gate
apply_gate_cases c good s = elim (gate_value-cases s.new_gate_value) [
  | inl e ↦ inl (ground arith)
  | inr (k, h, e) ↦ inr (k, h, ground arith, e)
]
apply_gate_cases c bad_value s = inl refl
apply_gate_cases c missing s = inl (ground arith)

hundred-le-top : (c : Channel) → 100 ≤ top c
hundred-le-top inflow = omega arith
hundred-le-top outflow_1 = omega arith
hundred-le-top outflow_2 = omega arith

set_target :
    (c : Channel) (s : Sim) (k : ℕ)
    → k ≤ 100
    → IsInRange c s
    → IsInRange c (record s { target_flow = put s.target_flow c (pos k *ℤ pos (max_flow c)) })
set_target c s k h v = record {
  percent = k;
  target_exact = get-put s.target_flow c _ ∙ times k (max_flow c);
  percent_capped = omega (arith, hundred-le-top c);
  amount = v.amount;
  flow_exact = v.flow_exact;
  flow_capped = v.flow_capped;
}

apply_gate-IsInRange :
    (c : Channel) (res : FieldResult) (s : Sim) → IsInRange c s → IsInRange c (apply_gate c res s)
apply_gate-IsInRange c res s v = elim (apply_gate_cases c res s) [
  | inl e ↦ rw e v
  | inr (k, h, e, f) ↦
      let e' : apply_gate c res s
          ≡ record s { target_flow = put s.target_flow c (pos k *ℤ pos (max_flow c)) } =
        e ∙ ap (λ n. record s { target_flow = put s.target_flow c (n *ℤ pos (max_flow c)) }) f in
      rw e' (set_target c s k h v)
]

pub handle_message-IsInRange :
    (p : JsonParser) (c : Channel) (garbage chunk : Text) (s : Sim)
    → IsInRange c s
    → IsInRange c (handle_message p c garbage chunk s)
unfolding handle_message
handle_message-IsInRange p c garbage chunk s v =
    let (res, n) =
      get_json_int_field p garbage chunk (snprintf 15 (codes "gate-" ++ gate c)) s.new_gate_value in
    apply_gate-IsInRange c res (record s { new_gate_value = n }) v

pub step-InRange :
    (c : Channel) (random : ℕ) {target flow next : ℤ}
    → InRange c target flow
    → simulate_flow random target flow ≡ some next
    → InRange c target next
step-InRange c random v given =
    let (n, exact, capped) =
      simulate_flow_range random (v.percent * max_flow c) v.amount
        (rw (v.target_exact, v.flow_exact) at given) in
    record {
      percent = v.percent;
      target_exact = v.target_exact;
      percent_capped = v.percent_capped;
      amount = n;
      flow_exact = exact;
      flow_capped = grind (arith, v.percent_capped);
    }

pub simulate-IsInRange :
    (c : Channel) (random : ℕ) (s : Sim) {s' : Sim}
    → IsInRange c s
    → simulate_read_flow c random s ≡ some s'
    → IsInRange c s'
unfolding simulate_read_flow
simulate-IsInRange c random s {s'} v e =
    let (f, given, result) =
      >>=-eq-some (simulate_flow random (get s.target_flow c) (get s.flow c)) _ e in
    let next = step-InRange c random v given in
    let moved : record s { flow = put s.flow c f; simulate_timer = true } ≡ s' =
      eq_of_some result in
    subst (IsInRange c) moved
      (subst (InRange c (get s.target_flow c)) (sym (get-put s.flow c f)) next)
