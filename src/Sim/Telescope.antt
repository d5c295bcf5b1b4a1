-- ===== src/Sim/Telescope.antt =====
-- sim/telescope.go: the state of the simulated mount, and how its pointing follows the clock.
-- An axis is one of the three that the array of rates has. The methods that change the state are in
-- Telescope/Calls.
pub mod Calls
pub mod Parking
pub mod Quiet
pub mod Rest
pub mod Settings
pub mod Served
pub mod Takeover
pub mod Waiting
pub mod Stopping
use goalpaca.Prelude.{
  ℕ, ◌-◌, ◌==◌, ℤ, pos, eqb_ℤ, Bool, true, false, not, ◌&&◌, ◌||◌, if◌then◌else◌,
}
use goalpaca.Float.{Float64}
use goalpaca.Sim.Angles.{wrap24, clamp_dec}
use goalpaca.Server.Gates.Telescope.{drive_sidereal, pier_east}

pub record Telescope (f : Float64) : Type 0 where
  pub ra_slew_rate : f.F
  pub dec_slew_rate : f.F
  pub start_ra : f.F
  pub start_dec : f.F
  pub target_ra : f.F
  pub target_dec : f.F
  pub slew_start : ℕ
  pub slewing : Bool
  pub axis_rate_0 : f.F
  pub axis_rate_1 : f.F
  pub axis_rate_2 : f.F
  pub axis_start : ℕ
  pub rate_epoch : ℕ
  pub park_on_arrive : Bool
  pub home_on_arrive : Bool
  pub at_park : Bool
  pub at_home : Bool
  pub want_ra : f.F
  pub want_dec : f.F
  pub want_ra_set : Bool
  pub want_dec_set : Bool
  pub altitude : f.F
  pub azimuth : f.F
  pub tracking : Bool
  pub tracking_rate : ℤ
  pub site_latitude : f.F
  pub site_longitude : f.F
  pub site_elevation : f.F
  pub ra_rate : f.F
  pub dec_rate : f.F
  pub guide_rate_ra : f.F
  pub guide_rate_d : f.F
  pub does_refraction : Bool
  pub slew_settle_time : ℤ
  pub side_of_pier : ℤ
  pub pulse_guiding : Bool
  pub pulse_until : ℤ

module _ (f : Float64) where
  open f use {F, le, eq, add, sub, mul, div, abs, copysign, of_int, decimal, seconds}

  -- WithSlewRate
  unfoldable pub with_slew_rate : F → Telescope f → Telescope f
  with_slew_rate deg_per_sec t = record t {
    dec_slew_rate = deg_per_sec;
    ra_slew_rate = div deg_per_sec (of_int (pos 15));
  }

  -- WithPosition
  unfoldable pub with_position : F → F → Telescope f → Telescope f
  with_position ra_hours dec_deg t = record t {
    start_ra = ra_hours;
    target_ra = ra_hours;
    want_ra = ra_hours;
    start_dec = dec_deg;
    target_dec = dec_deg;
    want_dec = dec_deg;
  }

  -- The guide rates are the constant 0.5 / 3600 * 15, which is 1 / 480.
  unfoldable pub new_telescope : Telescope f
  new_telescope = record {
    ra_slew_rate = of_int (pos 6);
    dec_slew_rate = of_int (pos 90);
    start_ra = of_int (pos 0);
    start_dec = of_int (pos 90);
    target_ra = of_int (pos 0);
    target_dec = of_int (pos 90);
    slew_start = 0;
    slewing = false;
    axis_rate_0 = of_int (pos 0);
    axis_rate_1 = of_int (pos 0);
    axis_rate_2 = of_int (pos 0);
    axis_start = 0;
    rate_epoch = 0;
    park_on_arrive = false;
    home_on_arrive = false;
    at_park = false;
    at_home = false;
    want_ra = of_int (pos 0);
    want_dec = of_int (pos 90);
    want_ra_set = false;
    want_dec_set = false;
    altitude = of_int (pos 0);
    azimuth = of_int (pos 0);
    tracking = false;
    tracking_rate = drive_sidereal;
    site_latitude = of_int (pos 45);
    site_longitude = of_int (pos 0);
    site_elevation = of_int (pos 100);
    ra_rate = of_int (pos 0);
    dec_rate = of_int (pos 0);
    guide_rate_ra = div (of_int (pos 1)) (of_int (pos 480));
    guide_rate_d = div (of_int (pos 1)) (of_int (pos 480));
    does_refraction = false;
    slew_settle_time = pos 0;
    side_of_pier = pier_east;
    pulse_guiding = false;
    pulse_until = pos 0;
  }

  -- time.Since(start).Seconds() * rate, against the distance to the target.
  unfoldable pub ra_done : ℕ → Telescope f → Bool
  ra_done now t =
      le (abs (sub t.target_ra t.start_ra)) (mul (seconds (now - t.slew_start)) t.ra_slew_rate)

  unfoldable pub dec_done : ℕ → Telescope f → Bool
  dec_done now t =
      le (abs (sub t.target_dec t.start_dec)) (mul (seconds (now - t.slew_start)) t.dec_slew_rate)

  unfoldable pub settle : ℕ → Telescope f → Telescope f
  settle now t =
      if t.slewing && (ra_done now t && dec_done now t)
      then record t {
        start_ra = t.target_ra;
        start_dec = t.target_dec;
        slewing = false;
        rate_epoch = now;
        park_on_arrive = false;
        at_park = if t.park_on_arrive then true else t.at_park;
        tracking = if t.park_on_arrive then false else t.tracking;
        home_on_arrive = false;
        at_home = if t.home_on_arrive then true else t.at_home;
      }
      else t

  unfoldable pub axis_moving : Telescope f → Bool
  axis_moving t = not (eq t.axis_rate_0 (of_int (pos 0))) || not (eq t.axis_rate_1 (of_int (pos 0)))

  unfoldable pub rate_drift_active : Telescope f → Bool
  rate_drift_active t =
      t.tracking
      && eqb_ℤ t.tracking_rate drive_sidereal
      && not t.slewing
      && not (axis_moving t)
      && (not (eq t.ra_rate (of_int (pos 0))) || not (eq t.dec_rate (of_int (pos 0))))
      && not (t.rate_epoch == 0)

  -- The pointing after a drift at the offset rates, and after a drift of the axes.
  unfoldable pub drifted_ra : ℕ → Telescope f → F
  drifted_ra now t =
      wrap24 f
        (add t.start_ra (div (mul t.ra_rate (seconds (now - t.rate_epoch))) (of_int (pos 3600))))

  unfoldable pub drifted_dec : ℕ → Telescope f → F
  drifted_dec now t =
      clamp_dec f
        (add t.start_dec (div (mul t.dec_rate (seconds (now - t.rate_epoch))) (of_int (pos 3600))))

  unfoldable pub moved_ra : ℕ → Telescope f → F
  moved_ra now t =
      wrap24 f
        (add t.start_ra (mul (div t.axis_rate_0 (of_int (pos 15))) (seconds (now - t.axis_start))))

  unfoldable pub moved_dec : ℕ → Telescope f → F
  moved_dec now t = clamp_dec f (add t.start_dec (mul t.axis_rate_1 (seconds (now - t.axis_start))))

  unfoldable pub settle_rates : ℕ → Telescope f → Telescope f
  settle_rates now t =
      if rate_drift_active t
      then record t {
        start_ra = drifted_ra now t;
        start_dec = drifted_dec now t;
        target_ra = drifted_ra now t;
        target_dec = drifted_dec now t;
        rate_epoch = now;
      }
      else record t { rate_epoch = now }

  unfoldable pub settle_axes : ℕ → Telescope f → Telescope f
  settle_axes now t = if not (axis_moving t) then t else record t {
    start_ra = moved_ra now t;
    start_dec = moved_dec now t;
    target_ra = moved_ra now t;
    target_dec = moved_dec now t;
    axis_start = now;
  }

  unfoldable pub current_ra : ℕ → Telescope f → F
  current_ra now t =
      let dist = sub t.target_ra t.start_ra in
      if axis_moving t
      then moved_ra now t
      else if not t.slewing
      then (if rate_drift_active t then drifted_ra now t else t.start_ra)
      else if ra_done now t
      then t.target_ra
      else add t.start_ra (copysign (mul (seconds (now - t.slew_start)) t.ra_slew_rate) dist)

  unfoldable pub current_dec : ℕ → Telescope f → F
  current_dec now t =
      let dist = sub t.target_dec t.start_dec in
      if axis_moving t
      then moved_dec now t
      else if not t.slewing
      then (if rate_drift_active t then drifted_dec now t else t.start_dec)
      else if dec_done now t
      then t.target_dec
      else add t.start_dec (copysign (mul (seconds (now - t.slew_start)) t.dec_slew_rate) dist)

  -- The pointing of the moment becomes the place that a motion starts from.
  unfoldable pub freeze : ℕ → Telescope f → Telescope f
  freeze now t =
      let ra = current_ra now t in
      let turned = record t { start_ra = ra } in
      record turned { start_dec = current_dec now turned }

  unfoldable pub stop_axes : Telescope f → Telescope f
  stop_axes t = record t {
    axis_rate_0 = of_int (pos 0);
    axis_rate_1 = of_int (pos 0);
    axis_rate_2 = of_int (pos 0);
  }

  unfoldable pub begin_slew : ℕ → F → F → Telescope f → Telescope f
  begin_slew now ra dec t =
      let frozen = freeze now (settle_rates now (stop_axes (settle_axes now t))) in
      record frozen {
        target_ra = ra;
        target_dec = dec;
        slew_start = now;
        slewing = not (eq frozen.start_ra ra) || not (eq frozen.start_dec dec);
        at_park = false;
        at_home = false;
      }
