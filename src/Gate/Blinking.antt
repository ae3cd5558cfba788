-- ===== src/Gate/Blinking.antt =====
-- The blinking of a gate's led (Motes/lib/resources/res-gate.c).
use dam_monitoring.Prelude.{
  ℕ, zero, suc, ◌+◌, ◌-◌, ◌≤◌, ◌≡◌, refl, ap, ◌∙◌, Bool, true, false, not, if◌then◌else◌, arith,
}
use dam_monitoring.Gate.{Gate, blink, blinks_max}

-- The time of the gate's timer: it runs out where it runs, and is past where it does not.
unfoldable pub expire : Gate → Gate
expire g = if g.timer then blink (record g { timer = false }) else g

pub expire_times : ℕ → Gate → Gate
expire_times zero g = g
expire_times (suc n) g = expire (expire_times n g)

-- A led toggled that many times.
abbrev pub toggled : ℕ → Bool → Bool
toggled zero b = b
toggled (suc n) b = not (toggled n b)

expire-suc :
    (n : ℕ) (g : Gate)
    → g.timer ≡ true
    → g.blinks ≡ suc n
    → expire g ≡ record g { lit = not g.lit; blinks = n; timer = true }
unfolding expire blink
expire-suc n g on e = ground arith

expire-zero :
    (g : Gate)
    → g.timer ≡ true
    → g.blinks ≡ 0
    → expire g ≡ record g { lit = false; blinks = blinks_max; timer = false }
unfolding expire blink
expire-zero g on e = ground arith

-- While it still has to blink.
blinking :
    (j : ℕ) (g : Gate)
    → g.timer ≡ true
    → j ≤ g.blinks
    → expire_times j g ≡ record g { lit = toggled j g.lit; blinks = g.blinks - j; timer = true }
unfolding expire_times
blinking zero g on h = ground arith
blinking (suc j) g on h =
    let blinked : Gate = record g { lit = toggled j g.lit; blinks = g.blinks - j; timer = true } in
    ap expire (blinking j g on (omega arith))
    ∙ expire-suc (g.blinks - suc j) blinked refl (omega arith)

stopped : (m : ℕ) (g : Gate) → g.timer ≡ false → expire_times m g ≡ g
unfolding expire_times expire
stopped zero g off = refl
stopped (suc m) g off = rw (stopped m g off, off) refl

expire_times-add : (m k : ℕ) (g : Gate) → expire_times (m + k) g ≡ expire_times m (expire_times k g)
unfolding expire_times
expire_times-add zero k g = let e : 0 + k ≡ k = omega arith in rw e refl
expire_times-add (suc m) k g =
    let e : suc m + k ≡ suc (m + k) = omega arith in
    ap (λ i. expire_times i g) e ∙ ap expire (expire_times-add m k g)

-- A gate whose timer runs and whose led blinks `n` times more: after each of the next `n` expiries the
-- timer runs again, the led has been toggled once for each, and one blink fewer is left; at the
-- expiry after them, and however many times pass then, the timer has stopped, the led is off, the counter is at its
-- start, and the level as it was.
pub blink_times_stop :
    (n : ℕ) (g : Gate)
    → g.timer ≡ true
    → g.blinks ≡ n
    → ((j : ℕ)
        → j ≤ n
        → expire_times j g ≡ record g { lit = toggled j g.lit; blinks = n - j; timer = true })
      × ((m : ℕ)
          → expire_times (m + suc n) g
            ≡ record g { lit = false; blinks = blinks_max; timer = false })
unfolding expire_times
blink_times_stop n g on e =
    let blinked = record g { lit = toggled n g.lit; blinks = g.blinks - n; timer = true } in
    let ends = record g { lit = false; blinks = blinks_max; timer = false } in
    let last : expire_times (suc n) g ≡ ends =
      ap expire (blinking n g on (omega arith)) ∙ expire-zero blinked refl (omega arith) in
    (
      λ j h.
          blinking j g on (omega arith)
          ∙ ap (λ i. record g { lit = toggled j g.lit; blinks = i - j; timer = true }) e,
      λ m. expire_times-add m (suc n) g ∙ ap (expire_times m) last ∙ stopped m ends refl,
    )
