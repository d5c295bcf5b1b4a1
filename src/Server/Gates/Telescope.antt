-- ===== src/Server/Gates/Telescope.antt =====
-- server/gates.go: the gates of the telescope, with validAxisRate, validDriveRate and
-- requireTargetsSet of server/gate.go, and validRADec and validAltAz of server/telescope_http.go.
-- A driver is a record of its answers to the methods that the gates call.
use goalpaca.Prelude.{
  String, ℤ, pos, neg, ltb_ℤ, eqb_ℤ, Bool, true, false, not, none, ◌&&◌, ◌||◌, if◌then◌else◌, List,
  [], ◌∷◌,
}
use goalpaca.Alpaca.Errors.{Error}
use goalpaca.Float.{Float64}
use goalpaca.Server.Gates.{
  Sprintf, int, float, Answer, check_first, not_impl_err, parked_err, invalid_op_err,
  invalid_valuef, invalid_range, non_negative,
}
use goalpaca.Server.Gates.Camera.{valid_guide_direction}

pub record AxisRate (f : Float64) : Type 0 where
  pub minimum : f.F
  pub maximum : f.F

pub record Telescope (f : Float64) : Type 0 where
  pub can_find_home : Bool
  pub can_move_axis : ℤ → Bool
  pub can_park : Bool
  pub can_pulse_guide : Bool
  pub can_set_declination_rate : Bool
  pub can_set_guide_rates : Bool
  pub can_set_park : Bool
  pub can_set_pier_side : Bool
  pub can_set_right_ascension_rate : Bool
  pub can_set_tracking : Bool
  pub can_unpark : Bool
  pub at_park : Bool
  pub axis_rates : ℤ → List (AxisRate f)
  pub tracking_rate : ℤ
  pub tracking_rates : List ℤ
  pub target_right_ascension : Answer f.F
  pub target_declination : Answer f.F

abbrev pub drive_sidereal : ℤ
drive_sidereal = pos 0

abbrev pub pier_east : ℤ
pier_east = pos 0

abbrev pub pier_west : ℤ
pier_west = pos 1

abbrev pub axis_primary : ℤ
axis_primary = pos 0

abbrev pub axis_secondary : ℤ
axis_secondary = pos 1

abbrev pub axis_tertiary : ℤ
axis_tertiary = pos 2

-- The loop of validDriveRate.
unfoldable pub is_listed : List ℤ → ℤ → Bool
is_listed [] dr = false
is_listed (r ∷ rates) dr = if eqb_ℤ r dr then true else is_listed rates dr

module _ (f : Float64) (sprintf : Sprintf f) where
  open f use {F, lt, le, eq, abs, of_int}

  -- The loop of validAxisRate.
  unfoldable pub in_a_range : List (AxisRate f) → F → Bool
  in_a_range [] r = false
  in_a_range (ar ∷ ranges) r =
      if le ar.minimum r && le r ar.maximum then true else in_a_range ranges r

  unfoldable pub valid_axis_rate : Telescope f → ℤ → F → Bool
  valid_axis_rate t axis rate =
      if eq rate (of_int (pos 0)) then true else in_a_range (t.axis_rates axis) (abs rate)

  unfoldable pub gate_axis_rate : Telescope f → ℤ → F → Error
  gate_axis_rate t axis rate =
      if not (valid_axis_rate t axis rate)
      then invalid_valuef f sprintf "Rate %g is outside the axis' supported ranges"
          (float rate ∷ [])
      else none

  unfoldable pub valid_ra_dec : F → F → Error
  valid_ra_dec ra dec =
      if lt ra (of_int (pos 0)) || le (of_int (pos 24)) ra
      then invalid_valuef f sprintf "RightAscension %g is outside the valid range 0 to 23.999"
          (float ra ∷ [])
      else invalid_range f sprintf "Declination" dec (of_int (neg 90)) (of_int (pos 90))

  unfoldable pub valid_alt_az : F → F → Error
  valid_alt_az az alt =
      check_first (invalid_range f sprintf "Azimuth" az (of_int (pos 0)) (of_int (pos 360)))
        (invalid_range f sprintf "Altitude" alt (of_int (neg 90)) (of_int (pos 90)))

  unfoldable pub require_targets_set : Telescope f → Error
  require_targets_set t =
      check_first t.target_right_ascension.1 (check_first t.target_declination.1 none)

  unfoldable pub gate_telescope_declination_rate : Telescope f → Error
  gate_telescope_declination_rate t =
      if not t.can_set_declination_rate
      then not_impl_err "DeclinationRate"
      else if not (eqb_ℤ t.tracking_rate drive_sidereal)
      then invalid_op_err "DeclinationRate can only be set when tracking at the Sidereal rate"
      else none

  unfoldable pub gate_telescope_right_ascension_rate : Telescope f → Error
  gate_telescope_right_ascension_rate t =
      if not t.can_set_right_ascension_rate
      then not_impl_err "RightAscensionRate"
      else if not (eqb_ℤ t.tracking_rate drive_sidereal)
      then invalid_op_err "RightAscensionRate can only be set when tracking at the Sidereal rate"
      else none

  unfoldable pub gate_telescope_guide_rate : Telescope f → String → F → Error
  gate_telescope_guide_rate t member rate =
      if not t.can_set_guide_rates then not_impl_err member else non_negative f sprintf member rate

  unfoldable pub gate_telescope_side_of_pier : Telescope f → ℤ → Error
  gate_telescope_side_of_pier t side =
      if not t.can_set_pier_side
      then not_impl_err "SideOfPier"
      else if not (eqb_ℤ side pier_east) && not (eqb_ℤ side pier_west)
      then invalid_valuef f sprintf "SideOfPier %d is not a valid pier side" (int side ∷ [])
      else none

  unfoldable pub gate_telescope_site_elevation : F → Error
  gate_telescope_site_elevation m =
      invalid_range f sprintf "SiteElevation" m (of_int (neg 300)) (of_int (pos 10000))

  unfoldable pub gate_telescope_site_latitude : F → Error
  gate_telescope_site_latitude d =
      invalid_range f sprintf "SiteLatitude" d (of_int (neg 90)) (of_int (pos 90))

  unfoldable pub gate_telescope_site_longitude : F → Error
  gate_telescope_site_longitude d =
      invalid_range f sprintf "SiteLongitude" d (of_int (neg 180)) (of_int (pos 180))

  unfoldable pub gate_telescope_slew_settle_time : ℤ → Error
  gate_telescope_slew_settle_time seconds =
      if ltb_ℤ seconds (pos 0)
      then invalid_valuef f sprintf "SlewSettleTime %d is negative" (int seconds ∷ [])
      else none

  unfoldable pub gate_telescope_target_declination : F → Error
  gate_telescope_target_declination deg =
      invalid_range f sprintf "TargetDeclination" deg (of_int (neg 90)) (of_int (pos 90))

  unfoldable pub gate_telescope_target_right_ascension : F → Error
  gate_telescope_target_right_ascension hours =
      if lt hours (of_int (pos 0)) || le (of_int (pos 24)) hours
      then invalid_valuef f sprintf "TargetRightAscension %g is outside the valid range 0 to 23.999"
          (float hours ∷ [])
      else none

  unfoldable pub gate_telescope_tracking : Telescope f → Bool → Error
  gate_telescope_tracking t on =
      if not t.can_set_tracking
      then not_impl_err "Tracking"
      else if on && t.at_park
      then parked_err "Tracking = true"
      else none

  unfoldable pub gate_telescope_tracking_rate : Telescope f → ℤ → Error
  gate_telescope_tracking_rate t dr =
      if not (is_listed t.tracking_rates dr)
      then invalid_valuef f sprintf "TrackingRate %d is not a supported drive rate" (int dr ∷ [])
      else none

  unfoldable pub gate_telescope_abort_slew : Telescope f → Error
  gate_telescope_abort_slew t = if t.at_park then parked_err "AbortSlew" else none

  unfoldable pub gate_telescope_find_home : Telescope f → Error
  gate_telescope_find_home t =
      if not t.can_find_home
      then not_impl_err "FindHome"
      else if t.at_park
      then parked_err "FindHome"
      else none

  unfoldable pub gate_telescope_move_axis : Telescope f → ℤ → F → Error
  gate_telescope_move_axis t axis rate =
      if ltb_ℤ axis axis_primary || ltb_ℤ axis_tertiary axis
      then invalid_valuef f sprintf "Axis %d is not a valid telescope axis" (int axis ∷ [])
      else if not (t.can_move_axis axis)
      then not_impl_err "MoveAxis"
      else check_first (gate_axis_rate t axis rate)
          (if t.at_park then parked_err "MoveAxis" else none)

  unfoldable pub gate_telescope_park : Telescope f → Error
  gate_telescope_park t = if not t.can_park then not_impl_err "Park" else none

  unfoldable pub gate_telescope_unpark : Telescope f → Error
  gate_telescope_unpark t = if not t.can_unpark then not_impl_err "Unpark" else none

  unfoldable pub gate_telescope_set_park : Telescope f → Error
  gate_telescope_set_park t = if not t.can_set_park then not_impl_err "SetPark" else none

  unfoldable pub gate_telescope_pulse_guide : Telescope f → ℤ → ℤ → Error
  gate_telescope_pulse_guide t dir duration =
      if not t.can_pulse_guide
      then not_impl_err "PulseGuide"
      else if not (valid_guide_direction dir)
      then invalid_valuef f sprintf "Direction %d is not a valid guide direction" (int dir ∷ [])
      else if ltb_ℤ duration (pos 0)
      then invalid_valuef f sprintf "Duration %d is negative" (int duration ∷ [])
      else if t.at_park
      then parked_err "PulseGuide"
      else none

  unfoldable pub gate_telescope_slew_to_coordinates : Telescope f → String → Bool → F → F → Error
  gate_telescope_slew_to_coordinates t member can ra dec =
      if not can
      then not_impl_err member
      else check_first (valid_ra_dec ra dec) (if t.at_park then parked_err member else none)

  unfoldable pub gate_telescope_slew_to_alt_az : Telescope f → String → Bool → F → F → Error
  gate_telescope_slew_to_alt_az t member can az alt =
      if not can
      then not_impl_err member
      else check_first (valid_alt_az az alt) (if t.at_park then parked_err member else none)

  unfoldable pub gate_telescope_slew_to_target : Telescope f → String → Bool → Error
  gate_telescope_slew_to_target t member can =
      if not can
      then not_impl_err member
      else if t.at_park
      then parked_err member
      else require_targets_set t
