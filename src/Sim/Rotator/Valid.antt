-- ===== src/Sim/Rotator/Valid.antt =====
-- The states of the rotator whose angles lie in a turn.
use goalpaca.Prelude.{
  ℕ, ◌≡◌, Bool-cases, inl, inr, true, false, ◌||◌, pos, neg, ◌+ℤ◌, ◌-ℤ◌, arith, ◌⊎◌, or_false,
}
use goalpaca.Float.{Float64, Ieee, Within, IsBounded}
use goalpaca.Sim.Angles.{wrap360, shortest_delta, traveled}
use goalpaca.Sim.Angles.Bounds.{
  IsBounded-of_Within, Within-weaken, Within-int, wrap360-Within, shortest_delta-Within,
  traveled-Within,
}
use goalpaca.Sim.Rotator

-- The angles of a state lie in a turn, and it turns forward.
pub record IsValid (f : Float64) (r : Rotator.Rotator f) : Type 0 where
  pub start_in : Within f (pos 0) (pos 360) r.start
  pub target_in : Within f (pos 0) (pos 360) r.target
  pub offset_in : Within f (pos 0) (pos 360) r.sync_offset
  pub rate_bounded : IsBounded f r.rate
  pub rate_nonneg : f.le (f.of_int (pos 0)) r.rate ≡ true

-- What a reading can find: no move, a move that has arrived, or a move under way.
pub current_mechanical_cases :
    (f : Float64) (now : ℕ) (r : Rotator.Rotator f)
    → ((r.moving ≡ false) × (Rotator.current_mechanical f now r ≡ (r, r.start)))
      ⊎ ((r.moving ≡ true)
          × (Rotator.current_mechanical f now r
              ≡ (record r { start = r.target; moving = false }, r.target)))
      ⊎ ((r.moving ≡ true)
          × (f.le (f.abs (shortest_delta f r.start r.target)) (traveled f now r.start_time r.rate)
              ≡ false)
          × (Rotator.current_mechanical f now r ≡ (
            r,
            wrap360 f (
                f.add r.start (
                  f.copysign
                    (traveled f now r.start_time r.rate)
                    (shortest_delta f r.start r.target))),
          )))
unfolding Rotator.current_mechanical
current_mechanical_cases f now r = ground arith

module _ (f : Float64) (ieee : Ieee f) where
  open f use {F, le, add, sub, of_int, abs, copysign}

  -- The angle between a reading and the end of a move.
  between :
      (now : ℕ) (r : Rotator.Rotator f)
      → IsValid f r
      → le (abs (shortest_delta f r.start r.target)) (traveled f now r.start_time r.rate) ≡ false
      → Within f (pos 0) (pos 360) (
          wrap360 f (
            add r.start
              (copysign (traveled f now r.start_time r.rate) (shortest_delta f r.start r.target))))
  unfolding ◌+ℤ◌ ◌-ℤ◌
  between now r v short =
      let apart =
        ieee.sub_within (pos 0) (pos 360) (pos 0) (pos 360) _ _ (omega arith) v.target_in
          v.start_in in
      let dist =
        shortest_delta-Within f ieee r.start r.target
          (IsBounded-of_Within f ieee (neg 360) (pos 360) _ (omega arith) (omega arith) apart) in
      let gone =
        traveled-Within f ieee now r.start_time 180 r.rate _ v.rate_bounded v.rate_nonneg dist
          short in
      let moved = ieee.copysign_within 180 _ (shortest_delta f r.start r.target) gone in
      let sum =
        ieee.add_within (pos 0) (pos 360) (neg 180) (pos 180) _ _ (omega arith) v.start_in moved in
      wrap360-Within f ieee _
        (IsBounded-of_Within f ieee (neg 180) (pos 540) _ (omega arith) (omega arith) sum)

  -- A reading keeps the state valid and gives an angle in a turn.
  pub current_mechanical-IsValid :
      (now : ℕ) (r : Rotator.Rotator f)
      → IsValid f r
      → IsValid f (Rotator.current_mechanical f now r).0
        × Within f (pos 0) (pos 360) (Rotator.current_mechanical f now r).1
  current_mechanical-IsValid now r v = elim (current_mechanical_cases f now r) [
    | inl (off, e) ↦ rw e (v, v.start_in)
    | inr (inl (on, e)) ↦ rw e (
      record {
        start_in = v.target_in;
        target_in = v.target_in;
        offset_in = v.offset_in;
        rate_bounded = v.rate_bounded;
        rate_nonneg = v.rate_nonneg;
      },
      v.target_in,
    )
    | inr (inr (on, short, e)) ↦ rw e (v, between now r v short)
  ]

  pub begin_move-IsValid :
      (now : ℕ) (angle : F) (r : Rotator.Rotator f)
      → IsBounded f angle
      → IsValid f r
      → IsValid f (Rotator.begin_move f now angle r)
  unfolding Rotator.begin_move
  begin_move-IsValid now angle r bounded v =
      let (settled, in_turn) = current_mechanical-IsValid now r v in
      record {
        start_in = in_turn;
        target_in = wrap360-Within f ieee angle bounded;
        offset_in = settled.offset_in;
        rate_bounded = settled.rate_bounded;
        rate_nonneg = settled.rate_nonneg;
      }

  pub sum-IsBounded :
      (x y : F)
      → Within f (pos 0) (pos 360) x
      → Within f (neg 360) (pos 360) y
      → IsBounded f (add x y)
  unfolding ◌+ℤ◌
  sum-IsBounded x y wx wy =
      IsBounded-of_Within f ieee (neg 360) (pos 720) _ (omega arith) (omega arith)
        (ieee.add_within (pos 0) (pos 360) (neg 360) (pos 360) x y (omega arith) wx wy)

  pub difference-IsBounded :
      (x y : F)
      → Within f (pos 0) (pos 360) x
      → Within f (pos 0) (pos 360) y
      → IsBounded f (sub x y)
  unfolding ◌-ℤ◌
  difference-IsBounded x y wx wy =
      IsBounded-of_Within f ieee (neg 360) (pos 360) _ (omega arith) (omega arith)
        (ieee.sub_within (pos 0) (pos 360) (pos 0) (pos 360) x y (omega arith) wx wy)

  pub widen : (x : F) → Within f (pos 0) (pos 360) x → Within f (neg 360) (pos 360) x
  widen x w =
      Within-weaken f ieee (pos 0) (pos 360) (neg 360) (pos 360) x (omega arith) (omega arith) w

  offset-Within :
      (x : F)
      → IsBounded f x
      → (le x (of_int (neg 360)) || le (of_int (pos 360)) x) ≡ false
      → Within f (neg 360) (pos 360) x
  offset-Within x (lo, hi, _, _, w) h =
      let (above, below) = or_false _ _ h in
      (
        ieee.le_of_not_le (of_int lo) (of_int (neg 360)) x (of_int (neg 360)) w.0
            (Within-int f ieee (neg 360)).0 above,
        ieee.le_of_not_le (of_int (pos 360)) (of_int lo) (of_int (pos 360)) x
            (Within-int f ieee (pos 360)).0 w.0 below,
      )

  pub move-IsValid :
      (now : ℕ) (relative : F) (r : Rotator.Rotator f)
      → IsBounded f relative
      → IsValid f r
      → IsValid f (Rotator.move f now relative r).0
  unfolding Rotator.move
  move-IsValid now relative r g v =
      elim (Bool-cases (le relative (of_int (neg 360)) || le (of_int (pos 360)) relative)) [
        | inl refused ↦ rw refused v
        | inr taken ↦
            let (settled, in_turn) = current_mechanical-IsValid now r v in
            rw taken (
              begin_move-IsValid now _ (Rotator.current_mechanical f now r).0
                (sum-IsBounded _ relative in_turn (offset-Within relative g taken)) settled)
      ]
