-- ===== src/Sim/Dome/Flags.antt =====
-- The flags of the dome, over any calls of a client.
use goalpaca.Prelude.{ℕ, ◌≡◌, refl, Bool, true, false, ◌&&◌, List, [], ◌∷◌, pos, arith}
use goalpaca.Float.{Float64}
use goalpaca.Sim.Dome

pub data Call (f : Float64) : Type 0 where
  read_azimuth read_altitude read_shutter read_home read_park read_slewing : Call f
  slew_to_azimuth : f.F → Call f
  slew_to_altitude : f.F → Call f
  sync_to_azimuth : f.F → Call f
  open_shutter close_shutter find_home park abort_slew : Call f

unfoldable pub step : (f : Float64) → ℕ → Call f → Dome.Dome f → Dome.Dome f
step f now read_azimuth d = (Dome.azimuth f now d).0
step f now read_altitude d = (Dome.altitude f now d).0
step f now read_shutter d = (Dome.shutter_status f now d).0
step f now read_home d = (Dome.is_at_home f now d).0
step f now read_park d = (Dome.is_at_park f now d).0
step f now read_slewing d = (Dome.slewing f now d).0
step f now (slew_to_azimuth angle) d = Dome.slew_to_azimuth f now angle d
step f now (slew_to_altitude angle) d = Dome.slew_to_altitude f now angle d
step f now (sync_to_azimuth angle) d = Dome.sync_to_azimuth f angle d
step f now open_shutter d = Dome.open_shutter f now d
step f now close_shutter d = Dome.close_shutter f now d
step f now find_home d = Dome.find_home f now d
step f now park d = Dome.park f now d
step f now abort_slew d = Dome.abort_slew f now d

unfoldable pub run : (f : Float64) → List (ℕ × Call f) → Dome.Dome f → Dome.Dome f
run f [] d = d
run f ((now, c) ∷ calls) d = run f calls (step f now c d)

-- At most one of the two flags is up.
abbrev pub IsExclusive : (f : Float64) → Dome.Dome f → Type 0
IsExclusive f d = (d.at_home && d.at_park) ≡ false

module _ (f : Float64) where
  azimuth_keeps :
      (now : ℕ) (d : Dome.Dome f)
      → ((Dome.current_azimuth f now d).0.at_home ≡ d.at_home)
        × ((Dome.current_azimuth f now d).0.at_park ≡ d.at_park)
  unfolding Dome.current_azimuth
  azimuth_keeps now d = (ground arith, ground arith)

  altitude_keeps :
      (now : ℕ) (d : Dome.Dome f)
      → ((Dome.current_altitude f now d).0.at_home ≡ d.at_home)
        × ((Dome.current_altitude f now d).0.at_park ≡ d.at_park)
  unfolding Dome.current_altitude
  altitude_keeps now d = (ground arith, ground arith)

  shutter_keeps :
      (now : ℕ) (d : Dome.Dome f)
      → ((Dome.current_shutter f now d).0.at_home ≡ d.at_home)
        × ((Dome.current_shutter f now d).0.at_park ≡ d.at_park)
  unfolding Dome.current_shutter
  shutter_keeps now d = (ground arith, ground arith)

  same_flags : {h p h' p' : Bool} → (h ≡ h') × (p ≡ p') → (h' && p') ≡ false → (h && p) ≡ false
  same_flags (eh, ep) h = rw (eh, ep) h

  pub step-IsExclusive :
      (now : ℕ) (c : Call f) (d : Dome.Dome f) → IsExclusive f d → IsExclusive f (step f now c d)
  unfolding step Dome.azimuth Dome.altitude Dome.shutter_status Dome.is_at_home Dome.is_at_park
      Dome.slewing Dome.slew_to_azimuth Dome.slew_to_altitude Dome.sync_to_azimuth Dome.open_shutter
      Dome.close_shutter Dome.find_home Dome.park Dome.abort_slew Dome.begin_altitude
  step-IsExclusive now read_azimuth d h = same_flags (azimuth_keeps now d) h
  step-IsExclusive now read_altitude d h = same_flags (altitude_keeps now d) h
  step-IsExclusive now read_shutter d h = same_flags (shutter_keeps now d) h
  step-IsExclusive now read_home d h = same_flags (azimuth_keeps now d) h
  step-IsExclusive now read_park d h = same_flags (azimuth_keeps now d) h
  step-IsExclusive now read_slewing d h =
      let turned = (Dome.current_azimuth f now d).0 in
      let raised = (Dome.current_altitude f now turned).0 in
      same_flags (shutter_keeps now raised)
        (same_flags (altitude_keeps now turned) (same_flags (azimuth_keeps now d) h))
  step-IsExclusive now (slew_to_azimuth angle) d h = refl
  step-IsExclusive now (slew_to_altitude angle) d h = same_flags (altitude_keeps now d) h
  step-IsExclusive now (sync_to_azimuth angle) d h = h
  step-IsExclusive now open_shutter d h = same_flags (shutter_keeps now d) h
  step-IsExclusive now close_shutter d h = same_flags (shutter_keeps now d) h
  step-IsExclusive now find_home d h = refl
  step-IsExclusive now park d h =
      let moved = Dome.begin_azimuth f now (f.of_int (pos 0)) d in
      same_flags (shutter_keeps now (record moved { at_park = true; at_home = false })) refl
  step-IsExclusive now abort_slew d h = refl

  run-IsExclusive :
      (calls : List (ℕ × Call f)) (d : Dome.Dome f)
      → IsExclusive f d
      → IsExclusive f (run f calls d)
  unfolding run
  run-IsExclusive [] d h = h
  run-IsExclusive ((now, c) ∷ calls) d h =
      run-IsExclusive calls (step f now c d) (step-IsExclusive now c d h)

  pub reads_one_flag :
      (now : ℕ) (d : Dome.Dome f)
      → IsExclusive f d
      → ((Dome.is_at_home f now d).1 && (Dome.is_at_park f now d).1) ≡ false
  unfolding Dome.is_at_home Dome.is_at_park
  reads_one_flag now d h = let kept = same_flags (azimuth_keeps now d) h in ground arith

  -- From a new dome, whatever the calls and their times: the dome never reads both as at home and as
  -- parked.
  pub home_or_park :
      (calls : List (ℕ × Call f)) (now : ℕ)
      → let d = run f calls (Dome.new_dome f) in
        ((Dome.is_at_home f now d).1 && (Dome.is_at_park f now d).1) ≡ false
  unfolding Dome.new_dome
  home_or_park calls now =
      reads_one_flag now (run f calls (Dome.new_dome f))
        (run-IsExclusive calls (Dome.new_dome f) refl)
