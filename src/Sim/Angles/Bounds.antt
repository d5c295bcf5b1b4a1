-- ===== src/Sim/Angles/Bounds.antt =====
-- The ranges of the angles.
use goalpaca.Prelude.{
  ℕ, ◌-◌, ◌≡◌, Bool-cases, inl, inr, true, false, if◌then◌else◌, ℤ, pos, neg, ◌+ℤ◌, ◌-ℤ◌, ◌≤ℤ◌,
  arith,
}
use goalpaca.Float.{Float64, Ieee, Within, IsBounded, IsSmall}
use goalpaca.Sim.Angles.{wrap360, wrap24, shortest_delta, clamp_dec, traveled}

module _ (f : Float64) (ieee : Ieee f) where
  open f use {F, lt, le, add, sub, mod_of, of_int, abs, copysign, seconds}

  pub IsBounded-of_Within :
      (lo hi : ℤ) (x : F) → IsSmall f lo → IsSmall f hi → Within f lo hi x → IsBounded f x
  IsBounded-of_Within lo hi x sl sh w = (lo, hi, omega arith, omega arith, w)

  pub Within-int : (z : ℤ) → Within f z z (of_int z)
  Within-int z = (ieee.of_int_le z z (omega arith), ieee.of_int_le z z (omega arith))

  -- A test against an integer narrows the range.
  pub Within-below :
      (lo hi c : ℤ) (x : F) → Within f lo hi x → lt x (of_int c) ≡ true → Within f lo c x
  Within-below lo hi c x w h = (w.0, ieee.le_of_lt x (of_int c) h)

  pub Within-above :
      (lo hi c : ℤ) (x : F) → Within f lo hi x → lt x (of_int c) ≡ false → Within f c hi x
  Within-above lo hi c x w h =
      (ieee.le_of_not_lt (of_int lo) (of_int c) x (of_int c) w.0 (Within-int c).0 h, w.1)

  pub Within-over :
      (lo hi c : ℤ) (x : F) → Within f lo hi x → lt (of_int c) x ≡ true → Within f c hi x
  Within-over lo hi c x w h = (ieee.le_of_lt (of_int c) x h, w.1)

  pub Within-under :
      (lo hi c : ℤ) (x : F) → Within f lo hi x → lt (of_int c) x ≡ false → Within f lo c x
  Within-under lo hi c x w h =
      (w.0, ieee.le_of_not_lt (of_int c) (of_int lo) (of_int c) x (Within-int c).0 w.0 h)

  pub Within-weaken :
      (lo hi lo' hi' : ℤ) (x : F) → lo' ≤ℤ lo → hi ≤ℤ hi' → Within f lo hi x → Within f lo' hi' x
  Within-weaken lo hi lo' hi' x hl hh w = (
    ieee.le_trans (of_int lo') (of_int lo) x (ieee.of_int_le lo' lo hl) w.0,
    ieee.le_trans x (of_int hi) (of_int hi') w.1 (ieee.of_int_le hi hi' hh),
  )

  -- The angle of a bounded number lies between 0 and 360 degrees, both included: adding 360 to a
  -- tiny negative remainder may round up to 360.
  pub wrap360-Within : (a : F) → IsBounded f a → Within f (pos 0) (pos 360) (wrap360 f a)
  unfolding wrap360 ◌+ℤ◌
  wrap360-Within a bounded =
      let r = ieee.mod_within 360 a (omega arith) (omega arith) bounded in
      elim (Bool-cases (lt (mod_of a (of_int (pos 360))) (of_int (pos 0)))) [
        | inl below ↦ rw below (
            ieee.add_within (neg 360) (pos 0) (pos 360) (pos 360) _ _ (omega arith)
              (Within-below (neg 360) (pos 360) (pos 0) _ r below) (Within-int (pos 360)))
        | inr above ↦ rw above (Within-above (neg 360) (pos 360) (pos 0) _ r above)
      ]

  pub wrap24-Within : (a : F) → IsBounded f a → Within f (pos 0) (pos 24) (wrap24 f a)
  unfolding wrap24 ◌+ℤ◌
  wrap24-Within a bounded =
      let r = ieee.mod_within 24 a (omega arith) (omega arith) bounded in
      elim (Bool-cases (lt (mod_of a (of_int (pos 24))) (of_int (pos 0)))) [
        | inl below ↦ rw below (
            ieee.add_within (neg 24) (pos 0) (pos 24) (pos 24) _ _ (omega arith)
              (Within-below (neg 24) (pos 24) (pos 0) _ r below) (Within-int (pos 24)))
        | inr above ↦ rw above (Within-above (neg 24) (pos 24) (pos 0) _ r above)
      ]

  -- A declination that is a number is brought between the poles.
  pub clamp_dec-Within :
      (lo hi : ℤ) (d : F) → Within f lo hi d → Within f (neg 90) (pos 90) (clamp_dec f d)
  unfolding clamp_dec
  clamp_dec-Within lo hi d w = elim (Bool-cases (lt (of_int (pos 90)) d)) [
    | inl over ↦ rw over (
        Within-weaken (pos 90) (pos 90) (neg 90) (pos 90) _ (omega arith) (omega arith)
          (Within-int (pos 90)))
    | inr under ↦ elim (Bool-cases (lt d (of_int (neg 90)))) [
      | inl below ↦
          rw (under, below)
            (Within-weaken (neg 90) (neg 90) (neg 90) (pos 90) _ (omega arith) (omega arith)
              (Within-int (neg 90)))
      | inr above ↦
          rw (under, above)
            (Within-above lo (pos 90) (neg 90) d (Within-under lo hi (pos 90) d w under) above)
    ]
  ]

  -- The shortest way between two directions is at most half a turn.
  pub shortest_delta-Within :
      (from to : F)
      → IsBounded f (sub to from)
      → Within f (neg 180) (pos 180) (shortest_delta f from to)
  unfolding shortest_delta ◌+ℤ◌ ◌-ℤ◌
  shortest_delta-Within from to bounded =
      let r = ieee.mod_within 360 (sub to from) (omega arith) (omega arith) bounded in
      elim (Bool-cases (lt (mod_of (sub to from) (of_int (pos 360))) (of_int (neg 180)))) [
        | inl below ↦
            let low = Within-below (neg 360) (pos 360) (neg 180) _ r below in
            let raised =
              ieee.add_within (neg 360) (neg 180) (pos 360) (pos 360) _ _ (omega arith) low
                (Within-int (pos 360)) in
            rw below (
              last (neg 180) _ (omega arith) (omega arith) (
                Within-weaken (pos 0) (pos 180) (neg 180) (pos 360) _ (omega arith) (omega arith)
                  raised))
        | inr above ↦ rw above (
            last (neg 180) _ (omega arith) (omega arith)
              (Within-above (neg 360) (pos 360) (neg 180) _ r above))
      ]
    where
      last :
          (lo : ℤ) (d : F)
          → neg 180 ≤ℤ lo
          → lo ≤ℤ pos 180
          → Within f lo (pos 360) d
          → Within f
              (neg 180)
              (pos 180)
              (if lt (of_int (pos 180)) d then sub d (of_int (pos 360)) else d)
      last lo d low high w = elim (Bool-cases (lt (of_int (pos 180)) d)) [
        | inl over ↦ rw over (
            Within-weaken (neg 180) (pos 0) (neg 180) (pos 180) _ (omega arith) (omega arith) (
              ieee.sub_within (pos 180) (pos 360) (pos 360) (pos 360) _ _ (omega arith)
                (Within-over lo (pos 360) (pos 180) d w over) (Within-int (pos 360))))
        | inr under ↦ rw under (
            Within-weaken lo (pos 180) (neg 180) (pos 180) d low (omega arith)
              (Within-under lo (pos 360) (pos 180) d w under))
      ]

  -- While a motor has not covered the distance, what it has covered is a number up to it.
  pub traveled-Within :
      (now start n : ℕ) (rate dist : F)
      → IsBounded f rate
      → le (of_int (pos 0)) rate ≡ true
      → Within f (neg n) (pos n) dist
      → le (abs dist) (traveled f now start rate) ≡ false
      → Within f (pos 0) (pos n) (traveled f now start rate)
  unfolding traveled
  traveled-Within now start n rate dist bounded nonneg w short =
      let forward =
        ieee.mul_nonneg (seconds (now - start)) rate (ieee.seconds_bounded (now - start)) bounded
          (ieee.seconds_nonneg (now - start)) nonneg in
      let size = ieee.abs_within n dist w in
      (
        forward,
        ieee.le_trans _ (abs dist) _ (ieee.le_of_not_le _ _ (abs dist) _ size.0 forward short)
            size.1,
      )
