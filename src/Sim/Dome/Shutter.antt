-- ===== src/Sim/Dome/Shutter.antt =====
-- What the dome's shutter reads after it is opened, closed or parked.
use goalpaca.Prelude.{ℕ, ◌-◌, ◌≡◌, refl, Bool, false, pos, if◌then◌else◌, arith}
use goalpaca.Float.{Float64}
use goalpaca.Sim.Dome

module _ (f : Float64) where
  -- A second has passed.
  abbrev pub is_over : ℕ → ℕ → Bool
  is_over now later = f.le (f.of_int (pos 1)) (f.seconds (later - now))

  moving_shutter :
      (later : ℕ) (d : Dome.Dome f)
      → Dome.same_shutter d.shutter_state d.shutter_target ≡ false
      → (Dome.current_shutter f later d).1
        ≡ (if is_over d.shutter_time later then d.shutter_target else d.shutter_state)
  unfolding Dome.current_shutter Dome.shutter_due
  moving_shutter later d apart = ground arith

  -- Whatever the shutter did before. After OpenShutter it reads as opening until a second has passed
  -- and then as open; after CloseShutter and after Park it reads as closing until a second has passed
  -- and then as closed.
  pub shutter_lem :
      (now later : ℕ) (d : Dome.Dome f)
      → ((Dome.shutter_status f later (Dome.open_shutter f now d)).1
          ≡ (if is_over now later then Dome.shutter_open else Dome.shutter_opening))
        × ((Dome.shutter_status f later (Dome.close_shutter f now d)).1
            ≡ (if is_over now later then Dome.shutter_closed else Dome.shutter_closing))
        × ((Dome.shutter_status f later (Dome.park f now d)).1
            ≡ (if is_over now later then Dome.shutter_closed else Dome.shutter_closing))
  unfolding Dome.shutter_status Dome.open_shutter Dome.close_shutter Dome.park
  shutter_lem now later d = (
    moving_shutter later (Dome.open_shutter f now d) refl,
    moving_shutter later (Dome.close_shutter f now d) refl,
    moving_shutter later (Dome.park f now d) refl,
  )
