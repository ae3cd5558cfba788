-- ===== src/WaterLevel/Balance.antt =====
-- The balance of the flows in Motes/firmwares/water-level-sensor/water-level-sensor.c, and what a
-- message does to it.
use dam_monitoring.Prelude.{ℕ, ◌*◌, ◌≤◌, ◌≡◌, ◌⊎◌, inl, inr, refl, ap, ◌∙◌, ◌++◌, arith}
use dam_monitoring.Prelude.Int.{ℤ, pos, ◌*ℤ◌, ◌-ℤ◌, ◌≤ℤ◌, -ℤ_parts}
use dam_monitoring.Clib.Text.{Text, codes, snprintf}
use dam_monitoring.Common.Json.{
  JsonParser, FieldResult, good, bad_value, missing, get_json_int_field,
}
use dam_monitoring.SensorSim.{
  Channel, inflow, outflow_1, outflow_2, gate, max_flow, Flows, get, put, init_flows,
  min_balance_flow, max_balance_flow,
}
use dam_monitoring.SensorSim.Settings.{times, gate_value-cases}
use dam_monitoring.WaterLevel.{Sim, init_sim, balance, apply_gate, gate_round, handle_message}

-- Each flow is a setting from 0 to 100 of its channel.
pub record IsSetting (c : Channel) (v : ℤ) : Type 0 where
  pub percent : ℕ
  pub exact : v ≡ pos (percent * max_flow c)
  pub capped : percent ≤ 100

-- The flows are settings, and the balance is the inflow less the outflows.
pub record IsBalanced (s : Sim) : Type 0 where
  pub setting : (c : Channel) → IsSetting c (get s.flow c)
  pub balanced : s.balance_flow ≡ balance s.flow

put-IsSetting :
    (f : Flows) (c : Channel) (v : ℤ)
    → ((b : Channel) → IsSetting b (get f b))
    → IsSetting c v
    → (b : Channel) → IsSetting b (get (put f c v) b)
put-IsSetting f inflow v all new inflow = new
put-IsSetting f inflow v all new outflow_1 = all outflow_1
put-IsSetting f inflow v all new outflow_2 = all outflow_2
put-IsSetting f outflow_1 v all new inflow = all inflow
put-IsSetting f outflow_1 v all new outflow_1 = new
put-IsSetting f outflow_1 v all new outflow_2 = all outflow_2
put-IsSetting f outflow_2 v all new inflow = all inflow
put-IsSetting f outflow_2 v all new outflow_1 = all outflow_1
put-IsSetting f outflow_2 v all new outflow_2 = new

abbrev set_flow : Channel → ℤ → Sim → Sim
set_flow c v s = let flow = put s.flow c v in record s { flow = flow; balance_flow = balance flow }

apply_gate_cases :
    (c : Channel) (res : FieldResult) (s : Sim)
    → (apply_gate c res s ≡ s)
      ⊎ ((k : ℕ) × (k ≤ 100)
          × (apply_gate c res s ≡ set_flow c (s.new_gate_value *ℤ pos (max_flow c)) s)
          × (s.new_gate_value ≡ pos k))
unfolding apply_gate
apply_gate_cases c good s = elim (gate_value-cases s.new_gate_value) [
  | inl e ↦ inl (ground arith)
  | inr (k, h, e) ↦ inr (k, h, ground arith, e)
]
apply_gate_cases c bad_value s = inl refl
apply_gate_cases c missing s = inl (ground arith)

apply_gate-IsBalanced :
    (c : Channel) (res : FieldResult) (s : Sim) → IsBalanced s → IsBalanced (apply_gate c res s)
apply_gate-IsBalanced c res s v = elim (apply_gate_cases c res s) [
  | inl e ↦ rw e v
  | inr (k, h, e, f) ↦
      let e' : apply_gate c res s ≡ set_flow c (pos k *ℤ pos (max_flow c)) s =
        e ∙ ap (λ n. set_flow c (n *ℤ pos (max_flow c)) s) f in
      rw e' (record {
        setting =
            put-IsSetting s.flow c (pos k *ℤ pos (max_flow c)) v.setting
              (record { percent = k; exact = times k (max_flow c); capped = h });
        balanced = refl;
      })
]

gate_round-IsBalanced :
    (p : JsonParser) (garbage : Channel → Text) (chunk : Text) (c : Channel) (s : Sim)
    → IsBalanced s
    → IsBalanced (gate_round p garbage chunk c s)
unfolding gate_round
gate_round-IsBalanced p garbage chunk c s v =
    let (res, n) =
      get_json_int_field p (garbage c) chunk (snprintf 15 (codes "gate-" ++ gate c))
        s.new_gate_value in
    apply_gate-IsBalanced c res (record s { new_gate_value = n })
      (record { setting = v.setting; balanced = v.balanced })

pub handle_message-IsBalanced :
    (p : JsonParser) (garbage : Channel → Text) (chunk : Text) (s : Sim)
    → IsBalanced s
    → IsBalanced (handle_message p garbage chunk s)
unfolding handle_message
handle_message-IsBalanced p garbage chunk s v = gate_round-IsBalanced p garbage chunk outflow_2 _ (
    gate_round-IsBalanced p garbage chunk outflow_1 _
      (gate_round-IsBalanced p garbage chunk inflow s v))

-- The balance lies between all outflows open, and the inflow alone.
pub balance_range :
    (s : Sim)
    → IsBalanced s
    → (min_balance_flow ≤ℤ s.balance_flow) × (s.balance_flow ≤ℤ max_balance_flow)
unfolding balance min_balance_flow max_balance_flow ◌-ℤ◌ ◌*ℤ◌
balance_range s v =
    let a = v.setting inflow in
    let b = v.setting outflow_1 in
    let c = v.setting outflow_2 in
    rw v.balanced (
      rw (a.exact, b.exact, c.exact)
        (
          omega (
            arith,
            -ℤ_parts (pos (a.percent * 800)) (pos (b.percent * 1000)),
            -ℤ_parts (pos (a.percent * 800) -ℤ pos (b.percent * 1000)) (pos (c.percent * 350)),
            a.capped,
            b.capped,
            c.capped,
          ),
          omega (
            arith,
            -ℤ_parts (pos (a.percent * 800)) (pos (b.percent * 1000)),
            -ℤ_parts (pos (a.percent * 800) -ℤ pos (b.percent * 1000)) (pos (c.percent * 350)),
            a.capped,
            b.capped,
            c.capped,
          ),
        ))

pub init_sim-IsBalanced : IsBalanced init_sim
unfolding init_sim balance ◌-ℤ◌
init_sim-IsBalanced = record { setting = start_setting; balanced = refl }
  where
    start_setting : (c : Channel) → IsSetting c (get init_flows c)
    start_setting inflow = record { percent = 40; exact = refl; capped = omega arith }
    start_setting outflow_1 = record { percent = 0; exact = refl; capped = omega arith }
    start_setting outflow_2 = record { percent = 0; exact = refl; capped = omega arith }
