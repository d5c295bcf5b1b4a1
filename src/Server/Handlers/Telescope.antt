-- ===== src/Server/Handlers/Telescope.antt =====
-- telescopePut of server/telescope_http.go, with setTargets and parseUTCDate of server/gate.go. Of the
-- methods that the gates ask for an answer, AtPark alone may change the driver's state.
use goalpaca.Prelude.{String, ℤ, Bool, true, false, if◌then◌else◌, List, [], ◌∷◌, none, some, eqb_ℤ}
use goalpaca.Alpaca.Errors.{Error, error_number_for, err_num_parked}
use goalpaca.Float.{Float64}
use goalpaca.Server.Gates.{Sprintf, text, invalid_valuef}
use goalpaca.Server.Gates.Telescope as Gated
use goalpaca.Server.Gates.Parked.{Motion, gate_motion, parked_as}
use goalpaca.Server.Gates.Parked as Parked
use goalpaca.Server.Transaction.{
  Library, Params, Got, got, refused, req_int, req_float, req_bool, req_string,
}
use goalpaca.Server.Handlers.{Outcome, Cases, with_arg, gated, dispatch}

pub record TelescopeDriver (f : Float64) : Type 1 where
  pub Device : Type 0
  pub answers : Device → Gated.Telescope f
  pub can_slew : Device → Bool
  pub can_slew_async : Device → Bool
  pub can_slew_alt_az : Device → Bool
  pub can_slew_alt_az_async : Device → Bool
  pub can_sync : Device → Bool
  pub can_sync_alt_az : Device → Bool
  -- What a call of AtPark does.
  pub ask_park : Device → Device
  pub set_declination_rate : f.F → Device → Device × Error
  pub set_does_refraction : Bool → Device → Device × Error
  pub set_guide_rate_declination : f.F → Device → Device × Error
  pub set_guide_rate_right_ascension : f.F → Device → Device × Error
  pub set_right_ascension_rate : f.F → Device → Device × Error
  pub set_side_of_pier : ℤ → Device → Device × Error
  pub set_site_elevation : f.F → Device → Device × Error
  pub set_site_latitude : f.F → Device → Device × Error
  pub set_site_longitude : f.F → Device → Device × Error
  pub set_slew_settle_time : ℤ → Device → Device × Error
  pub set_target_declination : f.F → Device → Device × Error
  pub set_target_right_ascension : f.F → Device → Device × Error
  pub set_tracking : Bool → Device → Device × Error
  pub set_tracking_rate : ℤ → Device → Device × Error
  pub set_utc_date : String → Device → Device × Error
  pub abort_slew : Device → Device × Error
  pub find_home : Device → Device × Error
  pub move_axis : ℤ → f.F → Device → Device × Error
  pub park : Device → Device × Error
  pub pulse_guide : ℤ → ℤ → Device → Device × Error
  pub set_park : Device → Device × Error
  pub slew_to_alt_az : f.F → f.F → Device → Device × Error
  pub slew_to_alt_az_async : f.F → f.F → Device → Device × Error
  pub slew_to_coordinates : f.F → f.F → Device → Device × Error
  pub slew_to_coordinates_async : f.F → f.F → Device → Device × Error
  pub slew_to_target : Device → Device × Error
  pub slew_to_target_async : Device → Device × Error
  pub sync_to_alt_az : f.F → f.F → Device → Device × Error
  pub sync_to_coordinates : f.F → f.F → Device → Device × Error
  pub sync_to_target : Device → Device × Error
  pub unpark : Device → Device × Error

pub data Member : Type 0 where
  declination_rate does_refraction guide_rate_declination guide_rate_right_ascension
        right_ascension_rate :
      Member
  side_of_pier site_elevation site_latitude site_longitude slew_settle_time : Member
  target_declination target_right_ascension tracking tracking_rate utc_date : Member
  abort_slew find_home move_axis park pulse_guide : Member
  set_park slew_to_alt_az slew_to_alt_az_async slew_to_coordinates slew_to_coordinates_async :
      Member
  slew_to_target slew_to_target_async sync_to_alt_az sync_to_coordinates sync_to_target : Member
  unpark : Member

abbrev pub put_cases : Cases Member
put_cases =
    ("declinationrate", declination_rate)
    ∷ ("doesrefraction", does_refraction)
    ∷ ("guideratedeclination", guide_rate_declination)
    ∷ ("guideraterightascension", guide_rate_right_ascension)
    ∷ ("rightascensionrate", right_ascension_rate)
    ∷ ("sideofpier", side_of_pier)
    ∷ ("siteelevation", site_elevation)
    ∷ ("sitelatitude", site_latitude)
    ∷ ("sitelongitude", site_longitude)
    ∷ ("slewsettletime", slew_settle_time)
    ∷ ("targetdeclination", target_declination)
    ∷ ("targetrightascension", target_right_ascension)
    ∷ ("tracking", tracking)
    ∷ ("trackingrate", tracking_rate)
    ∷ ("utcdate", utc_date)
    ∷ ("abortslew", abort_slew)
    ∷ ("findhome", find_home)
    ∷ ("moveaxis", move_axis)
    ∷ ("park", park)
    ∷ ("pulseguide", pulse_guide)
    ∷ ("setpark", set_park)
    ∷ ("slewtoaltaz", slew_to_alt_az)
    ∷ ("slewtoaltazasync", slew_to_alt_az_async)
    ∷ ("slewtocoordinates", slew_to_coordinates)
    ∷ ("slewtocoordinatesasync", slew_to_coordinates_async)
    ∷ ("slewtotarget", slew_to_target)
    ∷ ("slewtotargetasync", slew_to_target_async)
    ∷ ("synctoaltaz", sync_to_alt_az)
    ∷ ("synctocoordinates", sync_to_coordinates)
    ∷ ("synctotarget", sync_to_target)
    ∷ ("unpark", unpark)
    ∷ []

-- utcDateLayouts; time.RFC3339Nano and time.RFC3339 are written out.
abbrev pub utc_date_layouts : List String
utc_date_layouts =
    "2006-01-02T15:04:05.999999999Z07:00" ∷ "2006-01-02T15:04:05Z07:00"
    ∷ "2006-01-02T15:04:05.999999999" ∷ "2006-01-02T15:04:05" ∷ []

module _ (f : Float64) (lib : Library f) where
  -- The loop over the layouts.
  unfoldable pub parses_any : List String → String → Bool
  parses_any [] s = false
  parses_any (layout ∷ layouts) s =
      let rest = parses_any layouts s in if lib.parses_time layout s then true else rest

  unfoldable pub parse_utc_date : Sprintf f → String → Error
  parse_utc_date sprintf s =
      if parses_any utc_date_layouts s
      then none
      else invalid_valuef f sprintf "UTCDate %q is not an ISO-8601 date-time" (text s ∷ [])

  -- Two required floats.
  unfoldable pub req_floats : Params → String → String → Got (f.F × f.F)
  req_floats p first second = elim (req_float f lib p first) [
    | refused err ↦ refused err
    | got x ↦ elim (req_float f lib p second) [ refused err ↦ refused err | got y ↦ got (x, y) ]
  ]

  unfoldable pub alt_az_params : Params → Got (f.F × f.F)
  alt_az_params p = req_floats p "Azimuth" "Altitude"

  unfoldable pub ra_dec_params : Params → Got (f.F × f.F)
  ra_dec_params p = req_floats p "RightAscension" "Declination"

module _ (f : Float64) (lib : Library f) (sprintf : Sprintf f) (driver : TelescopeDriver f) where
  open driver use {Device, answers, ask_park}

  -- The gate of a motion asks AtPark after its other checks but that of the targets: where it does,
  -- a parked mount is refused as parked.
  unfoldable pub asks_park : Motion f → Device → Bool
  asks_park m t =
      eqb_ℤ (error_number_for (gate_motion f sprintf (parked_as f true (answers t)) m)).0
        err_num_parked

  unfoldable pub after_gate : Motion f → Device → Device
  after_gate m t = if asks_park m t then ask_park t else t

  -- The gate of a motion, and the call it guards.
  unfoldable pub moved : Motion f → (Device → Device × Error) → Device → Device × Error
  moved m call t = gated (gate_motion f sprintf (answers t) m) call (after_gate m t)

  unfoldable pub set_targets : f.F → f.F → Device → Device
  set_targets ra dec t =
      (driver.set_target_declination dec (driver.set_target_right_ascension ra t).0).0

  -- The call, and setTargets where it succeeds.
  unfoldable pub with_targets : f.F → f.F → (Device → Device × Error) → Device → Device × Error
  with_targets ra dec call t = elim (call t).1 [
    | none ↦ (set_targets ra dec (call t).0, none)
    | some err ↦ ((call t).0, some err)
  ]

  -- The gate asks AtPark where tracking goes on.
  unfoldable pub put_tracking : Bool → Device → Device × Error
  put_tracking true t = moved Parked.tracking_on (driver.set_tracking true) t
  put_tracking false t =
      gated (Gated.gate_telescope_tracking f sprintf (answers t) false) (driver.set_tracking false)
        t

  unfoldable pub put_case : Params → Member → Device → Device × Error
  put_case p declination_rate t =
      with_arg (req_float f lib p "DeclinationRate")
        (λ x.
          gated (Gated.gate_telescope_declination_rate f sprintf (answers t))
            (driver.set_declination_rate x))
        t
  put_case p does_refraction t =
      with_arg (req_bool f lib p "DoesRefraction") (λ b. driver.set_does_refraction b) t
  put_case p guide_rate_declination t =
      with_arg (req_float f lib p "GuideRateDeclination")
        (λ x.
          gated (Gated.gate_telescope_guide_rate f sprintf (answers t) "GuideRateDeclination" x)
            (driver.set_guide_rate_declination x))
        t
  put_case p guide_rate_right_ascension t =
      with_arg (req_float f lib p "GuideRateRightAscension")
        (λ x.
          gated (Gated.gate_telescope_guide_rate f sprintf (answers t) "GuideRateRightAscension" x)
            (driver.set_guide_rate_right_ascension x))
        t
  put_case p right_ascension_rate t =
      with_arg (req_float f lib p "RightAscensionRate")
        (λ x.
          gated (Gated.gate_telescope_right_ascension_rate f sprintf (answers t))
            (driver.set_right_ascension_rate x))
        t
  put_case p side_of_pier t =
      with_arg (req_int f lib p "SideOfPier")
        (λ n.
          gated (Gated.gate_telescope_side_of_pier f sprintf (answers t) n)
            (driver.set_side_of_pier n))
        t
  put_case p site_elevation t =
      with_arg (req_float f lib p "SiteElevation")
        (λ x. gated (Gated.gate_telescope_site_elevation f sprintf x) (driver.set_site_elevation x))
        t
  put_case p site_latitude t =
      with_arg (req_float f lib p "SiteLatitude")
        (λ x. gated (Gated.gate_telescope_site_latitude f sprintf x) (driver.set_site_latitude x)) t
  put_case p site_longitude t =
      with_arg (req_float f lib p "SiteLongitude")
        (λ x. gated (Gated.gate_telescope_site_longitude f sprintf x) (driver.set_site_longitude x))
        t
  put_case p slew_settle_time t =
      with_arg (req_int f lib p "SlewSettleTime")
        (λ n.
          gated (Gated.gate_telescope_slew_settle_time f sprintf n) (driver.set_slew_settle_time n))
        t
  put_case p target_declination t =
      with_arg (req_float f lib p "TargetDeclination")
        (λ x.
          gated (Gated.gate_telescope_target_declination f sprintf x)
            (driver.set_target_declination x))
        t
  put_case p target_right_ascension t =
      with_arg (req_float f lib p "TargetRightAscension")
        (λ x.
          gated (Gated.gate_telescope_target_right_ascension f sprintf x)
            (driver.set_target_right_ascension x))
        t
  put_case p tracking t = with_arg (req_bool f lib p "Tracking") put_tracking t
  put_case p tracking_rate t =
      with_arg (req_int f lib p "TrackingRate")
        (λ n.
          gated (Gated.gate_telescope_tracking_rate f sprintf (answers t) n)
            (driver.set_tracking_rate n))
        t
  put_case p utc_date t =
      with_arg (req_string f lib p "UTCDate")
        (λ v. gated (parse_utc_date f lib sprintf v) (driver.set_utc_date v)) t
  put_case p abort_slew t = moved Parked.abort_slew driver.abort_slew t
  put_case p find_home t = moved Parked.find_home driver.find_home t
  put_case p move_axis t =
      with_arg (req_int f lib p "Axis")
        (λ axis.
          with_arg (req_float f lib p "Rate")
            (λ rate. moved (Parked.move_axis axis rate) (driver.move_axis axis rate)))
        t
  put_case p park t = gated (Gated.gate_telescope_park f sprintf (answers t)) driver.park t
  put_case p pulse_guide t =
      with_arg (req_int f lib p "Direction")
        (λ dir.
          with_arg (req_int f lib p "Duration")
            (λ dur. moved (Parked.pulse_guide dir dur) (driver.pulse_guide dir dur)))
        t
  put_case p set_park t =
      gated (Gated.gate_telescope_set_park f sprintf (answers t)) driver.set_park t
  put_case p slew_to_alt_az t =
      with_arg (alt_az_params f lib p)
        (λ q.
          moved (Parked.slew_to_alt_az "SlewToAltAz" (driver.can_slew_alt_az t) q.0 q.1)
            (driver.slew_to_alt_az q.0 q.1))
        t
  put_case p slew_to_alt_az_async t =
      with_arg (alt_az_params f lib p)
        (λ q.
          moved (Parked.slew_to_alt_az "SlewToAltAzAsync" (driver.can_slew_alt_az_async t) q.0 q.1)
            (driver.slew_to_alt_az_async q.0 q.1))
        t
  put_case p slew_to_coordinates t =
      with_arg (ra_dec_params f lib p)
        (λ q.
          moved (Parked.slew_to_coordinates "SlewToCoordinates" (driver.can_slew t) q.0 q.1)
            (with_targets q.0 q.1 (driver.slew_to_coordinates q.0 q.1)))
        t
  put_case p slew_to_coordinates_async t =
      with_arg (ra_dec_params f lib p)
        (λ q.
          moved
            (Parked.slew_to_coordinates "SlewToCoordinatesAsync" (driver.can_slew_async t) q.0 q.1)
            (with_targets q.0 q.1 (driver.slew_to_coordinates_async q.0 q.1)))
        t
  put_case p slew_to_target t =
      moved (Parked.slew_to_target "SlewToTarget" (driver.can_slew t)) driver.slew_to_target t
  put_case p slew_to_target_async t =
      moved (Parked.slew_to_target "SlewToTargetAsync" (driver.can_slew_async t))
        driver.slew_to_target_async t
  put_case p sync_to_alt_az t =
      with_arg (alt_az_params f lib p)
        (λ q.
          moved (Parked.slew_to_alt_az "SyncToAltAz" (driver.can_sync_alt_az t) q.0 q.1)
            (driver.sync_to_alt_az q.0 q.1))
        t
  put_case p sync_to_coordinates t =
      with_arg (ra_dec_params f lib p)
        (λ q.
          moved (Parked.slew_to_coordinates "SyncToCoordinates" (driver.can_sync t) q.0 q.1)
            (with_targets q.0 q.1 (driver.sync_to_coordinates q.0 q.1)))
        t
  put_case p sync_to_target t =
      moved (Parked.slew_to_target "SyncToTarget" (driver.can_sync t)) driver.sync_to_target t
  put_case p unpark t = gated (Gated.gate_telescope_unpark f sprintf (answers t)) driver.unpark t

  unfoldable pub telescope_put : String → Params → Device → Device × Outcome
  telescope_put member p t = dispatch put_cases (put_case p) member t
