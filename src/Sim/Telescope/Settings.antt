-- ===== src/Sim/Telescope/Settings.antt =====
-- sim/telescope.go: the setters of the mount that its motion does not read, and the methods that
-- wait for a slew.
use goalpaca.Prelude.{ℕ, ℤ, Bool, List}
use goalpaca.Float.{Float64}
use goalpaca.Sim.Telescope.{Telescope}
use goalpaca.Sim.Telescope.Calls.{wait_slew_done, slew_to_target_async, slew_to_alt_az_async}

module _ (f : Float64) where
  open f use {F}

  unfoldable pub set_site_latitude : F → Telescope f → Telescope f
  set_site_latitude v t = record t { site_latitude = v }

  unfoldable pub set_site_longitude : F → Telescope f → Telescope f
  set_site_longitude v t = record t { site_longitude = v }

  unfoldable pub set_site_elevation : F → Telescope f → Telescope f
  set_site_elevation v t = record t { site_elevation = v }

  unfoldable pub set_guide_rate_right_ascension : F → Telescope f → Telescope f
  set_guide_rate_right_ascension v t = record t { guide_rate_ra = v }

  unfoldable pub set_guide_rate_declination : F → Telescope f → Telescope f
  set_guide_rate_declination v t = record t { guide_rate_d = v }

  unfoldable pub set_does_refraction : Bool → Telescope f → Telescope f
  set_does_refraction v t = record t { does_refraction = v }

  unfoldable pub set_slew_settle_time : ℤ → Telescope f → Telescope f
  set_slew_settle_time v t = record t { slew_settle_time = v }

  unfoldable pub set_side_of_pier : ℤ → Telescope f → Telescope f
  set_side_of_pier v t = record t { side_of_pier = v }

  -- With the times of the polls.
  unfoldable pub slew_to_target : ℕ → List ℕ → Telescope f → Telescope f
  slew_to_target now polls t = wait_slew_done f polls (slew_to_target_async f now t)

  unfoldable pub slew_to_alt_az : ℕ → List ℕ → F → F → Telescope f → Telescope f
  slew_to_alt_az now polls az alt t = wait_slew_done f polls (slew_to_alt_az_async f now az alt t)
