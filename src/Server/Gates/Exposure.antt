-- ===== src/Server/Gates/Exposure.antt =====
-- What the camera's gates accept: the gain, the offset and the readout rectangle.
use goalpaca.Prelude.{
  ℕ, ◌+◌, ◌/◌, ◌^◌, ◌≤◌, ◌<◌, ℤ, pos, pos_part, ◌≤ℤ◌, ◌<ℤ◌, ◌≡◌, ◌≢◌, ◌↔◌, ◌⊎◌, inl, inr,
  Bool-cases, Option-cases, true, none, length, arith,
}
use goalpaca.Float.{Float64}
use goalpaca.Alpaca.ImageBytes.Word.{i64_of}
use goalpaca.Server.Gates.{Sprintf, invalid_valuef, not_impl_err}
use goalpaca.Server.Gates.Camera

-- The gate accepts a gain exactly when the camera has gains and either it lists them and the gain
-- is an index of the list, or it does not and the gain lies between its smallest and its largest.
pub gate_camera_set_gain_lem :
    (f : Float64) (sprintf : Sprintf f) (c : Camera.Camera) (n : ℤ)
    → (Camera.gate_camera_set_gain f sprintf c n ≡ none) ↔ (
        (c.can_gain ≡ true)
        × (((c.gains.1 ≡ none) × (pos 0 ≤ℤ n) × (n <ℤ pos (length c.gains.0)))
            ⊎ ((c.gains.1 ≢ none) × (c.gain_min ≤ℤ n) × (n ≤ℤ c.gain_max))))
unfolding Camera.gate_camera_set_gain Camera.gate_camera_gain invalid_valuef not_impl_err
gate_camera_set_gain_lem f sprintf c n = elim (Bool-cases c.can_gain) [
  | inr off ↦ ((λ h. ground arith), λ h. ground arith)
  | inl on ↦ elim (Option-cases c.gains.1) [
    | inl e ↦ rw (e, on) ((λ h. ground arith), λ h. ground arith)
    | inr (err, e) ↦ rw (e, on) ((λ h. ground arith), λ h. ground arith)
  ]
]

-- The gate accepts an offset exactly when the camera has offsets and either it lists them and the
-- offset is an index of the list, or it does not and the offset lies between its smallest and its
-- largest.
pub gate_camera_set_offset_lem :
    (f : Float64) (sprintf : Sprintf f) (c : Camera.Camera) (n : ℤ)
    → (Camera.gate_camera_set_offset f sprintf c n ≡ none) ↔ (
        (c.can_offset ≡ true)
        × (((c.offsets.1 ≡ none) × (pos 0 ≤ℤ n) × (n <ℤ pos (length c.offsets.0)))
            ⊎ ((c.offsets.1 ≢ none) × (c.offset_min ≤ℤ n) × (n ≤ℤ c.offset_max))))
unfolding Camera.gate_camera_set_offset Camera.gate_camera_offset invalid_valuef not_impl_err
gate_camera_set_offset_lem f sprintf c n = elim (Bool-cases c.can_offset) [
  | inr off ↦ ((λ h. ground arith), λ h. ground arith)
  | inl on ↦ elim (Option-cases c.offsets.1) [
    | inl e ↦ rw (e, on) ((λ h. ground arith), λ h. ground arith)
    | inr (err, e) ↦ rw (e, on) ((λ h. ground arith), λ h. ground arith)
  ]
]

-- The rectangle is a rectangle, its corner lies on the sensor, and it ends at most where the binned
-- sensor ends.
pub record IsOnSensor (c : Camera.Camera) (max_w max_h : ℤ) : Type 0 where
  pub binned : (pos 1 ≤ℤ c.bin_x) × (pos 1 ≤ℤ c.bin_y)
  pub sized : (pos 1 ≤ℤ c.num_x) × (pos 1 ≤ℤ c.num_y)
  pub placed : (pos 0 ≤ℤ c.start_x) × (pos 0 ≤ℤ c.start_y)
  pub ends_x : pos (pos_part c.start_x + pos_part c.num_x) ≤ℤ max_w
  pub ends_y : pos (pos_part c.start_y + pos_part c.num_y) ≤ℤ max_h

add_int_small :
    (a b : ℤ)
    → pos 0 ≤ℤ a
    → pos 0 ≤ℤ b
    → pos_part a + pos_part b < 2 ^ 63
    → Camera.add_int a b ≡ pos (pos_part a + pos_part b)
unfolding Camera.add_int i64_of
add_int_small a b ha hb h = ground arith

-- A sum that reaches 2^63 becomes negative.
add_int_wrapped :
    (x n q : ℕ) → x < 2 ^ 63 → n < 2 ^ 63 → 2 ^ 63 ≤ x + n → Camera.add_int (pos x) (pos n) ≤ℤ pos q
unfolding Camera.add_int i64_of
add_int_wrapped x n q hx hn sum = ground arith

le_of_eq_le : (x y m : ℤ) → x ≡ y → x ≤ℤ m → y ≤ℤ m
le_of_eq_le x y m e h = rw (← e) h

-- What the checks compare, sums included as they are computed.
Checked : Camera.Camera → ℤ → ℤ → Type 0
Checked c max_w max_h =
    (pos 1 ≤ℤ c.bin_x)
    × (pos 1 ≤ℤ c.bin_y)
    × (pos 1 ≤ℤ c.num_x)
    × (pos 1 ≤ℤ c.num_y)
    × (pos 0 ≤ℤ c.start_x)
    × (pos 0 ≤ℤ c.start_y)
    × (Camera.add_int c.start_x c.num_x ≤ℤ max_w)
    × (Camera.add_int c.start_y c.num_y ≤ℤ max_h)

abbrev pub max_w : Camera.Camera → ℤ
max_w c = Camera.div_int c.camera_x_size (pos_part c.bin_x)

abbrev pub max_h : Camera.Camera → ℤ
max_h c = Camera.div_int c.camera_y_size (pos_part c.bin_y)

valid_subframe_checks :
    (f : Float64) (sprintf : Sprintf f) (c : Camera.Camera)
    → (Camera.valid_subframe f sprintf c ≡ none) ↔ Checked c (max_w c) (max_h c)
unfolding Camera.valid_subframe invalid_valuef Checked
valid_subframe_checks f sprintf c = ((λ h. ground arith), λ h. ground arith)

-- Where no sum of a corner and a size reaches 2^63, the check before an exposure accepts exactly
-- the rectangles that lie on the binned sensor.
pub valid_subframe_lem :
    (f : Float64) (sprintf : Sprintf f) (c : Camera.Camera)
    → pos_part c.start_x + pos_part c.num_x < 2 ^ 63
    → pos_part c.start_y + pos_part c.num_y < 2 ^ 63
    → (Camera.valid_subframe f sprintf c ≡ none) ↔ IsOnSensor c (max_w c) (max_h c)
unfolding Checked
valid_subframe_lem f sprintf c hx hy = (
  (λ h.
      let (bx, by, nx, ny, sx, sy, ex, ey) = (valid_subframe_checks f sprintf c).0 h in
      record {
        binned = (bx, by);
        sized = (nx, ny);
        placed = (sx, sy);
        ends_x = le_of_eq_le _ _ _ (add_int_small c.start_x c.num_x sx (omega (arith, nx)) hx) ex;
        ends_y = le_of_eq_le _ _ _ (add_int_small c.start_y c.num_y sy (omega (arith, ny)) hy) ey;
      }),
  λ on. (valid_subframe_checks f sprintf c).1 (
    on.binned.0,
    on.binned.1,
    on.sized.0,
    on.sized.1,
    on.placed.0,
    on.placed.1,
    rw (add_int_small c.start_x c.num_x on.placed.0 (omega (arith, on.sized.0)) hx) on.ends_x,
    rw (add_int_small c.start_y c.num_y on.placed.1 (omega (arith, on.sized.1)) hy) on.ends_y,
  ),
)

-- The sum wraps. A corner that a client may set, with a width of at least 1 whose sum reaches 2^63
-- and which so lies outside every sensor, is accepted as if it lay on the sensor.
pub valid_subframe_wraps :
    (f : Float64) (sprintf : Sprintf f) (c : Camera.Camera) (x n w : ℕ)
    → c.start_x ≡ pos x
    → c.num_x ≡ pos n
    → x < 2 ^ 63
    → n < 2 ^ 63
    → 2 ^ 63 ≤ x + n
    → (c.camera_x_size ≡ pos w) × (pos 1 ≤ℤ c.bin_x) × (pos 1 ≤ℤ c.bin_y)
    → (pos 1 ≤ℤ c.num_y) × (pos 0 ≤ℤ c.start_y)
    → Camera.add_int c.start_y c.num_y ≤ℤ max_h c
    → Camera.valid_subframe f sprintf c ≡ none
unfolding Checked Camera.div_int
valid_subframe_wraps f sprintf c x n w ex en hx hn sum (ew, bx, by) (ny, sy) ey =
    (valid_subframe_checks f sprintf c).1 (
      bx,
      by,
      rw en (omega arith),
      ny,
      rw ex (omega arith),
      sy,
      rw (ex, en, ew) (add_int_wrapped x n (w / pos_part c.bin_x) hx hn sum),
      ey,
    )
