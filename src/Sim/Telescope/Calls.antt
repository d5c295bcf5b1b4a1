-- ===== src/Sim/Telescope/Calls.antt =====
-- sim/telescope.go: the methods of the simulated mount. The direction of a pulse and the sides of
-- the pier are the numbers of alpaca/telescope.go.
use goalpaca.Prelude.{
  ℕ, ◌+◌, ◌-◌, ◌*◌, ◌^◌, ℤ, pos, neg, pos_part, neg_part, ◌+ℤ◌, eqb_ℤ, ltb_ℤ, Bool, true, false,
  not, ◌&&◌, ◌||◌, if◌then◌else◌, List, [], ◌∷◌, none, some,
}
use goalpaca.Float.{Float64}
use goalpaca.Alpaca.Errors.{err_invalid_operation}
use goalpaca.Alpaca.ImageBytes.Word.{i64_of}
use goalpaca.Sim.Angles.{wrap24, clamp_dec}
use goalpaca.Server.Gates.{Answer}
use goalpaca.Server.Gates.Camera.{guide_north, guide_south, guide_east, guide_west}
use goalpaca.Server.Gates.Telescope.{pier_east, pier_west}
use goalpaca.Sim.Telescope.{
  Telescope, settle, axis_moving, settle_rates, settle_axes, current_ra, current_dec, freeze,
  stop_axes, begin_slew,
}

pub data TelescopeAxis : Type 0 where
  primary secondary tertiary : TelescopeAxis

-- time.Duration(ms) * time.Millisecond, which wraps at 2^63.
unfoldable pub milliseconds : ℤ → ℤ
milliseconds ms = i64_of (pos_part ms * 1000000 + (2 ^ 84 - neg_part ms * 1000000))

module _ (f : Float64) where
  open f use {F, lt, le, eq, add, sub, mul, div, mod_of, of_int, decimal}

  unfoldable pub right_ascension : ℕ → Telescope f → Telescope f × F
  right_ascension now t = let settled = settle f now t in (settled, current_ra f now settled)

  unfoldable pub declination : ℕ → Telescope f → Telescope f × F
  declination now t = let settled = settle f now t in (settled, current_dec f now settled)

  unfoldable pub is_slewing : ℕ → Telescope f → Telescope f × Bool
  is_slewing now t =
      let settled = settle f now t in (settled, settled.slewing || axis_moving f settled)

  unfoldable pub is_at_park : ℕ → Telescope f → Telescope f × Bool
  is_at_park now t = let settled = settle f now t in (settled, settled.at_park)

  unfoldable pub is_at_home : ℕ → Telescope f → Telescope f × Bool
  is_at_home now t = let settled = settle f now t in (settled, settled.at_home)

  unfoldable pub target_right_ascension : Telescope f → Answer F
  target_right_ascension t =
      if not t.want_ra_set then (of_int (pos 0), some err_invalid_operation) else (t.want_ra, none)

  unfoldable pub set_target_right_ascension : F → Telescope f → Telescope f
  set_target_right_ascension v t = record t { want_ra = v; want_ra_set = true }

  unfoldable pub target_declination : Telescope f → Answer F
  target_declination t =
      if not t.want_dec_set
      then (of_int (pos 0), some err_invalid_operation)
      else (t.want_dec, none)

  unfoldable pub set_target_declination : F → Telescope f → Telescope f
  set_target_declination v t = record t { want_dec = v; want_dec_set = true }

  unfoldable pub slew_to_coordinates_async : ℕ → F → F → Telescope f → Telescope f
  slew_to_coordinates_async now ra dec t =
      begin_slew f now ra dec
        (record t { want_ra = ra; want_ra_set = true; want_dec = dec; want_dec_set = true })

  -- The times of the polls, at most 600.
  unfoldable pub wait_slew_done : List ℕ → Telescope f → Telescope f
  wait_slew_done [] t = t
  wait_slew_done (now ∷ polls) t =
      let (settled, busy) = is_slewing now t in
      let rest = wait_slew_done polls settled in if not busy then settled else rest

  unfoldable pub slew_to_coordinates : ℕ → List ℕ → F → F → Telescope f → Telescope f
  slew_to_coordinates now polls ra dec t =
      wait_slew_done polls (slew_to_coordinates_async now ra dec t)

  unfoldable pub slew_to_target_async : ℕ → Telescope f → Telescope f
  slew_to_target_async now t = slew_to_coordinates_async now t.want_ra t.want_dec t

  unfoldable pub sync_to_coordinates : ℕ → F → F → Telescope f → Telescope f
  sync_to_coordinates now ra dec t = record t {
    want_ra = ra;
    want_ra_set = true;
    want_dec = dec;
    want_dec_set = true;
    start_ra = ra;
    start_dec = dec;
    target_ra = ra;
    target_dec = dec;
    slewing = false;
    rate_epoch = now;
  }

  unfoldable pub sync_to_target : ℕ → Telescope f → Telescope f
  sync_to_target now t = sync_to_coordinates now t.want_ra t.want_dec t

  unfoldable pub slew_to_alt_az_async : ℕ → F → F → Telescope f → Telescope f
  slew_to_alt_az_async now az alt t =
      let set = record t { azimuth = az; altitude = alt } in
      let cur = current_ra f now set in
      let cur_dec = current_dec f now set in
      record set {
        start_ra = cur;
        start_dec = cur_dec;
        target_ra = mod_of (add cur set.ra_slew_rate) (of_int (pos 24));
        target_dec = cur_dec;
        slew_start = now;
        slewing = true;
        at_park = false;
        at_home = false;
      }

  unfoldable pub sync_to_alt_az : F → F → Telescope f → Telescope f
  sync_to_alt_az az alt t = record t { azimuth = az; altitude = alt }

  unfoldable pub abort_slew : ℕ → Telescope f → Telescope f
  abort_slew now t =
      let frozen =
        freeze f now (settle_rates f now (stop_axes f (settle_axes f now (settle f now t)))) in
      record frozen {
        target_ra = frozen.start_ra;
        target_dec = frozen.start_dec;
        slewing = false;
        park_on_arrive = false;
        home_on_arrive = false;
      }

  unfoldable pub park : ℕ → Telescope f → Telescope f
  park now t =
      let moved = begin_slew f now (of_int (pos 0)) (of_int (pos 90)) t in
      if t.at_park
      then t
      else if not moved.slewing
      then record moved { park_on_arrive = true; at_park = true; tracking = false }
      else record moved { park_on_arrive = true }

  unfoldable pub unpark : Telescope f → Telescope f
  unpark t = record t { at_park = false }

  unfoldable pub find_home : ℕ → Telescope f → Telescope f
  find_home now t =
      let moved = begin_slew f now (of_int (pos 0)) (of_int (pos 90)) t in
      record moved {
        home_on_arrive = true;
        at_home = if not moved.slewing then true else moved.at_home;
      }

  unfoldable pub set_tracking : ℕ → Bool → Telescope f → Telescope f
  set_tracking now v t = record (settle_rates f now t) { tracking = v }

  unfoldable pub set_tracking_rate : ℕ → ℤ → Telescope f → Telescope f
  set_tracking_rate now r t =
      let settled = settle_rates f now t in
      record settled {
        ra_rate = if not (eqb_ℤ r settled.tracking_rate) then of_int (pos 0) else settled.ra_rate;
        dec_rate = if not (eqb_ℤ r settled.tracking_rate) then of_int (pos 0) else settled.dec_rate;
        tracking_rate = r;
      }

  -- The Unix time is the clock's.
  unfoldable pub sidereal_time : ℤ → Telescope f → F
  sidereal_time unix t =
      let jd = add (div (of_int unix) (of_int (pos 86400))) (decimal (pos 24405875) 1) in
      let d = sub jd (of_int (pos 2451545)) in
      let gmst = add (decimal (pos 18697374558) 9) (mul (decimal (pos 2406570982441908) 14) d) in
      wrap24 f (add gmst (div t.site_longitude (of_int (pos 15))))

  unfoldable pub set_right_ascension_rate : ℕ → F → Telescope f → Telescope f
  set_right_ascension_rate now v t = record (settle_rates f now t) { ra_rate = v }

  unfoldable pub set_declination_rate : ℕ → F → Telescope f → Telescope f
  set_declination_rate now v t = record (settle_rates f now t) { dec_rate = v }

  -- The branches of DestinationSideOfPier on the hour angle.
  unfoldable pub side_of_hour_angle : F → ℤ
  side_of_hour_angle ha =
      let up = if lt ha (of_int (neg 12)) then add ha (of_int (pos 24)) else ha in
      let down = if le (of_int (pos 12)) up then sub up (of_int (pos 24)) else up in
      if lt down (of_int (pos 0)) then pier_west else pier_east

  unfoldable pub destination_side_of_pier : ℤ → F → F → Telescope f → ℤ
  destination_side_of_pier unix ra dec t =
      side_of_hour_angle (mod_of (sub (sidereal_time unix t) ra) (of_int (pos 24)))

  -- After(t.pulseUntil)
  unfoldable pub is_pulse_guiding : ℕ → Telescope f → Telescope f × Bool
  is_pulse_guiding now t =
      let guiding = t.pulse_guiding && not (ltb_ℤ t.pulse_until (pos now)) in
      (record t { pulse_guiding = guiding }, guiding)

  -- The switch on the direction.
  unfoldable pub displaced : ℤ → F → Telescope f → Telescope f
  displaced direction dur t =
      if eqb_ℤ direction guide_north
      then record t { start_dec = clamp_dec f (add t.start_dec (mul t.guide_rate_d dur)) }
      else if eqb_ℤ direction guide_south
      then record t { start_dec = clamp_dec f (sub t.start_dec (mul t.guide_rate_d dur)) }
      else if eqb_ℤ direction guide_east
      then record t {
        start_ra = wrap24 f (add t.start_ra (div (mul t.guide_rate_ra dur) (of_int (pos 15))));
      }
      else if eqb_ℤ direction guide_west
      then record t {
        start_ra = wrap24 f (sub t.start_ra (div (mul t.guide_rate_ra dur) (of_int (pos 15))));
      }
      else t

  unfoldable pub pulse_guide : ℕ → ℤ → ℤ → Telescope f → Telescope f
  pulse_guide now direction duration t =
      let dur = div (of_int duration) (of_int (pos 1000)) in
      let pulsed = displaced direction dur (settle_rates f now t) in
      record pulsed {
        target_ra = pulsed.start_ra;
        target_dec = pulsed.start_dec;
        pulse_guiding = true;
        pulse_until = pos now +ℤ milliseconds duration;
      }

  -- t.axisRates[axis] = rate
  unfoldable pub set_axis_rate : TelescopeAxis → F → Telescope f → Telescope f
  set_axis_rate primary rate t = record t { axis_rate_0 = rate }
  set_axis_rate secondary rate t = record t { axis_rate_1 = rate }
  set_axis_rate tertiary rate t = record t { axis_rate_2 = rate }

  unfoldable pub move_axis : ℕ → TelescopeAxis → F → Telescope f → Telescope f
  move_axis now axis rate t =
      let frozen = freeze f now (settle_rates f now t) in
      let taken =
        settle_axes f now
          (record frozen { slewing = false; park_on_arrive = false; home_on_arrive = false }) in
      let moved = set_axis_rate axis rate taken in
      record moved {
        axis_start = now;
        at_home = if not (eq rate (of_int (pos 0))) then false else moved.at_home;
      }
