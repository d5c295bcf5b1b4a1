-- ===== src/Sim/Telescope/Rest.antt =====
-- What a client's requests can do to a parked mount.
use goalpaca.Prelude.{ℕ, ◌≡◌, refl, true, false, inl, inr, none, List, [], ◌∷◌, arith, ◌⊎◌}
use goalpaca.Float.{Float64}
use goalpaca.Server.Gates.{Sprintf}
use goalpaca.Sim.Telescope.{Telescope, settle, axis_moving, new_telescope}
use goalpaca.Sim.Telescope.Stopping.{IsZeroEqual}
use goalpaca.Sim.Telescope.Calls
use goalpaca.Sim.Telescope.Calls.{TelescopeAxis, primary, secondary, tertiary}
use goalpaca.Sim.Telescope.Parking
use goalpaca.Sim.Telescope.Quiet.{
  IsQuiet, abort-IsQuiet, move_axis-IsQuiet, alt_az-IsQuiet, home-IsQuiet, park-IsQuiet,
  tracking_off-IsQuiet, sync-IsQuiet, IsQuiet-of_eq, tracking-IsQuiet, unparked, pulse-IsQuiet,
  unparked-IsQuiet, settle-IsQuiet, slew-IsQuiet,
}

module _ (f : Float64) where
  open f use {F, eq, of_int}

  -- An accepted request leaves the mount quiet.
  apply-IsQuiet :
      (zero_equal : IsZeroEqual f) (sprintf : Sprintf f) (now : ℕ) (q : Parking.Request f)
      (t : Telescope f)
      → Parking.answer_to f sprintf q t ≡ none
      → IsQuiet f t
      → IsQuiet f (Parking.apply f now q t)
  unfolding Parking.answer_to Parking.motion_of Parking.apply Calls.slew_to_coordinates_async
      Calls.slew_to_target_async Calls.sync_to_target Calls.unpark Calls.sync_to_alt_az axis_moving
  apply-IsQuiet zero_equal sprintf now Parking.read t h quiet = quiet
  apply-IsQuiet zero_equal sprintf now Parking.tracking_on t h quiet =
      tracking-IsQuiet f now t (unparked f sprintf _ t h) quiet
  apply-IsQuiet zero_equal sprintf now Parking.tracking_off t h quiet =
      tracking_off-IsQuiet f now t quiet
  apply-IsQuiet zero_equal sprintf now Parking.abort_slew t h quiet =
      abort-IsQuiet f zero_equal now t quiet
  apply-IsQuiet zero_equal sprintf now Parking.find_home t h quiet = home-IsQuiet f zero_equal now t
  apply-IsQuiet zero_equal sprintf now (Parking.move_axis axis rate) t h quiet =
      move_axis-IsQuiet f now axis rate t (unparked f sprintf _ t h)
  apply-IsQuiet zero_equal sprintf now (Parking.pulse_guide direction duration) t h quiet =
      pulse-IsQuiet f now direction duration t quiet
  apply-IsQuiet zero_equal sprintf now (Parking.slew_to_coordinates ra dec) t h quiet =
      slew-IsQuiet f zero_equal now ra dec _
  apply-IsQuiet zero_equal sprintf now (Parking.sync_to_coordinates ra dec) t h quiet =
      sync-IsQuiet f now ra dec t (unparked f sprintf _ t h) quiet
  apply-IsQuiet zero_equal sprintf now (Parking.slew_to_alt_az az alt) t h quiet =
      alt_az-IsQuiet f now az alt t quiet
  apply-IsQuiet zero_equal sprintf now (Parking.sync_to_alt_az az alt) t h quiet = record {
    parked = quiet.parked;
    parking = quiet.parking;
  }
  apply-IsQuiet zero_equal sprintf now Parking.slew_to_target t h quiet =
      slew-IsQuiet f zero_equal now _ _ _
  apply-IsQuiet zero_equal sprintf now Parking.sync_to_target t h quiet =
      sync-IsQuiet f now _ _ t (unparked f sprintf _ t h) quiet
  apply-IsQuiet zero_equal sprintf now Parking.park t h quiet =
      park-IsQuiet f zero_equal now t quiet
  apply-IsQuiet zero_equal sprintf now Parking.unpark t h quiet =
      unparked-IsQuiet f (Calls.unpark f t) refl quiet.parking

  serve_cases :
      (sprintf : Sprintf f) (now : ℕ) (q : Parking.Request f) (t : Telescope f)
      → ((Parking.answer_to f sprintf q (settle f now t) ≡ none)
          × (Parking.serve f sprintf now q t ≡ Parking.apply f now q (settle f now t)))
        ⊎ (Parking.serve f sprintf now q t ≡ settle f now t)
  unfolding Parking.serve
  serve_cases sprintf now q t = ground arith

  serve-IsQuiet :
      (zero_equal : IsZeroEqual f) (sprintf : Sprintf f) (now : ℕ) (q : Parking.Request f)
      (t : Telescope f)
      → IsQuiet f t
      → IsQuiet f (Parking.serve f sprintf now q t)
  serve-IsQuiet zero_equal sprintf now q t quiet =
      let settled = settle-IsQuiet f now t quiet in
      elim (serve_cases sprintf now q t) [
        | inl (accepted, e) ↦
            IsQuiet-of_eq f _ _ e
              (apply-IsQuiet zero_equal sprintf now q (settle f now t) accepted settled)
        | inr e ↦ IsQuiet-of_eq f _ _ e settled
      ]

  serve_all-IsQuiet :
      (zero_equal : IsZeroEqual f) (sprintf : Sprintf f) (requests : List (ℕ × Parking.Request f))
      (t : Telescope f)
      → IsQuiet f t
      → IsQuiet f (Parking.serve_all f sprintf requests t)
  unfolding Parking.serve_all
  serve_all-IsQuiet zero_equal sprintf [] t quiet = quiet
  serve_all-IsQuiet zero_equal sprintf ((now, q) ∷ requests) t quiet =
      serve_all-IsQuiet zero_equal sprintf requests (Parking.serve f sprintf now q t)
        (serve-IsQuiet zero_equal sprintf now q t quiet)

  -- From a new simulated mount, whatever the requests and their times, served one after the other
  -- through the server's gates: whenever the mount then reads as parked, it is not tracking, and it
  -- does not read as slewing. The 0 of float64 equals itself.
  pub parked_at_rest :
      (zero_equal : IsZeroEqual f) (sprintf : Sprintf f) (requests : List (ℕ × Parking.Request f))
      (now : ℕ)
      → (Calls.is_at_park f now (Parking.serve_all f sprintf requests (new_telescope f))).1 ≡ true
      → ((Calls.is_at_park f now
            (Parking.serve_all f sprintf requests (new_telescope f))).0.tracking
          ≡ false)
        × ((Calls.is_slewing f now (Parking.serve_all f sprintf requests (new_telescope f))).1
            ≡ false)
  unfolding Calls.is_at_park Calls.is_slewing new_telescope axis_moving
  parked_at_rest zero_equal sprintf requests now h =
      let fresh : IsQuiet f (new_telescope f) = record {
        parked = λ e. ground arith;
        parking = λ e. ground arith;
      } in
      let served = serve_all-IsQuiet zero_equal sprintf requests (new_telescope f) fresh in
      let (off, still, axes) = (settle-IsQuiet f now _ served).parked h in
      (off, rw (still, axes) refl)
