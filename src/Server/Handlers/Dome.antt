-- ===== src/Server/Handlers/Dome.antt =====
-- domePut of server/dome.go.
use goalpaca.Prelude.{String, Bool, pos, none, if◌then◌else◌, not, ◌&&◌, [], ◌∷◌}
use goalpaca.Alpaca.Errors.{Error}
use goalpaca.Float.{Float64}
use goalpaca.Server.Gates.{Sprintf, not_impl_err, invalid_range}
use goalpaca.Server.Transaction.{Library, Params, req_float, req_bool}
use goalpaca.Server.Handlers.{Outcome, Cases, with_arg, gated, dispatch}

pub record DomeDriver (f : Float64) : Type 1 where
  pub Device : Type 0
  pub can_slave : Device → Bool
  pub can_set_shutter : Device → Bool
  pub can_find_home : Device → Bool
  pub can_park : Device → Bool
  pub can_set_park : Device → Bool
  pub can_set_altitude : Device → Bool
  pub can_set_azimuth : Device → Bool
  pub can_sync_azimuth : Device → Bool
  pub set_slaved : Bool → Device → Device × Error
  pub abort_slew : Device → Device × Error
  pub close_shutter : Device → Device × Error
  pub find_home : Device → Device × Error
  pub open_shutter : Device → Device × Error
  pub park : Device → Device × Error
  pub set_park : Device → Device × Error
  pub slew_to_altitude : f.F → Device → Device × Error
  pub slew_to_azimuth : f.F → Device → Device × Error
  pub sync_to_azimuth : f.F → Device → Device × Error

pub data Member : Type 0 where
  slaved abort_slew close_shutter find_home open_shutter park set_park : Member
  slew_to_altitude slew_to_azimuth sync_to_azimuth : Member

abbrev pub put_cases : Cases Member
put_cases =
    ("slaved", slaved)
    ∷ ("abortslew", abort_slew)
    ∷ ("closeshutter", close_shutter)
    ∷ ("findhome", find_home)
    ∷ ("openshutter", open_shutter)
    ∷ ("park", park)
    ∷ ("setpark", set_park)
    ∷ ("slewtoaltitude", slew_to_altitude)
    ∷ ("slewtoazimuth", slew_to_azimuth)
    ∷ ("synctoazimuth", sync_to_azimuth)
    ∷ []

-- `if !can { return true, notImplErr(member) }`
unfoldable pub offered : Bool → String → Error
offered can member = if not can then not_impl_err member else none

module _ (f : Float64) (lib : Library f) (sprintf : Sprintf f) (driver : DomeDriver f) where
  open driver use {Device}
  open f use {of_int}

  unfoldable pub put_case : Params → Member → Device → Device × Error
  put_case p slaved d =
      with_arg (req_bool f lib p "Slaved")
        (λ b.
          gated (if b && not (driver.can_slave d) then not_impl_err "Slaved" else none)
            (driver.set_slaved b))
        d
  put_case p abort_slew d = driver.abort_slew d
  put_case p close_shutter d =
      gated (offered (driver.can_set_shutter d) "CloseShutter") driver.close_shutter d
  put_case p find_home d = gated (offered (driver.can_find_home d) "FindHome") driver.find_home d
  put_case p open_shutter d =
      gated (offered (driver.can_set_shutter d) "OpenShutter") driver.open_shutter d
  put_case p park d = gated (offered (driver.can_park d) "Park") driver.park d
  put_case p set_park d = gated (offered (driver.can_set_park d) "SetPark") driver.set_park d
  put_case p slew_to_altitude d =
      with_arg (req_float f lib p "Altitude")
        (λ x. gated (offered (driver.can_set_altitude d) "SlewToAltitude") (
          gated (invalid_range f sprintf "Altitude" x (of_int (pos 0)) (of_int (pos 90)))
            (driver.slew_to_altitude x)))
        d
  put_case p slew_to_azimuth d =
      with_arg (req_float f lib p "Azimuth")
        (λ x. gated (offered (driver.can_set_azimuth d) "SlewToAzimuth") (
          gated (invalid_range f sprintf "Azimuth" x (of_int (pos 0)) (of_int (pos 360)))
            (driver.slew_to_azimuth x)))
        d
  put_case p sync_to_azimuth d =
      with_arg (req_float f lib p "Azimuth")
        (λ x. gated (offered (driver.can_sync_azimuth d) "SyncToAzimuth") (
          gated (invalid_range f sprintf "Azimuth" x (of_int (pos 0)) (of_int (pos 360)))
            (driver.sync_to_azimuth x)))
        d

  unfoldable pub dome_put : String → Params → Device → Device × Outcome
  dome_put member p d = dispatch put_cases (put_case p) member d
