-- ===== src/Sim/Telescope/Served/AtRest.antt =====
-- What a client's requests can do to a parked mount, through telescopePut.
use goalpaca.Prelude.{
  ℕ, ℤ, ◌≡◌, refl, Bool, true, false, ◌||◌, List, [], ◌∷◌, none, arith, Bool-cases, Option-cases,
  inl, inr,
}
use goalpaca.Float.{Float64}
use goalpaca.Alpaca.Errors.{Error}
use goalpaca.Server.Gates.{Sprintf}
use goalpaca.Server.Gates.Parked.{
  Motion, gate_motion, gate_motion-parked, gate_motion-Parked_number,
}
use goalpaca.Server.Transaction.{Library, Params}
use goalpaca.Server.Handlers.Keeps.{Leaves, with_arg-keeps, gated-keeps, dispatch-keeps}
use goalpaca.Server.Handlers.Telescope as Handler
use goalpaca.Server.Handlers.Telescope.{
  Member, put_case, put_cases, telescope_put, moved, asks_park, after_gate, with_targets,
  set_targets, put_tracking,
}
use goalpaca.Sim.Telescope.{Telescope, settle, settle_rates, axis_moving, new_telescope}
use goalpaca.Sim.Telescope.Stopping.{IsZeroEqual, settle_rates-IsKept}
use goalpaca.Sim.Telescope.Calls
use goalpaca.Sim.Telescope.Settings
use goalpaca.Sim.Telescope.Served.{answers, axis_of, move_axis_at, telescope_driver, Put, put_all}
use goalpaca.Sim.Telescope.Quiet.{
  IsQuiet, abort-IsQuiet, move_axis-IsQuiet, alt_az-IsQuiet, home-IsQuiet, park-IsQuiet,
  kept-IsQuiet, tracking_off-IsQuiet, sync-IsQuiet, tracking-IsQuiet, pulse-IsQuiet,
  unparked-IsQuiet, settle-IsQuiet, slew-IsQuiet,
}

module _ (f : Float64) where
  open f use {F, eq, of_int}

  -- A change of fields that rest does not read.
  same-IsQuiet :
      (s t : Telescope f)
      → s.axis_rate_0 ≡ t.axis_rate_0
      → s.axis_rate_1 ≡ t.axis_rate_1
      → s.at_park ≡ t.at_park
      → s.tracking ≡ t.tracking
      → s.slewing ≡ t.slewing
      → s.park_on_arrive ≡ t.park_on_arrive
      → IsQuiet f t
      → IsQuiet f s
  same-IsQuiet s t e0 e1 ep et es ea quiet =
      kept-IsQuiet f s t
        (record {
          same_0 = e0;
          same_1 = e1;
          same_park = ep;
          same_tracking = et;
          same_slewing = es;
          same_parking = ea;
        })
        quiet

  wait-IsQuiet :
      (polls : List ℕ) (t : Telescope f) → IsQuiet f t → IsQuiet f (Calls.wait_slew_done f polls t)
  unfolding Calls.wait_slew_done Calls.is_slewing
  wait-IsQuiet [] t quiet = quiet
  wait-IsQuiet (now ∷ polls) t quiet =
      let settled = settle-IsQuiet f now t quiet in
      elim (Bool-cases ((settle f now t).slewing || axis_moving f (settle f now t))) [
        | inl busy ↦ rw busy (wait-IsQuiet polls (settle f now t) settled)
        | inr done ↦ rw done settled
      ]

  move_axis_at-IsQuiet :
      (now : ℕ) (axis : ℤ) (rate : F) (t : Telescope f)
      → t.at_park ≡ false
      → IsQuiet f t
      → IsQuiet f (move_axis_at f now axis rate t)
  unfolding move_axis_at
  move_axis_at-IsQuiet now axis rate t off quiet = elim (Option-cases (axis_of axis)) [
    | inl e ↦ rw (move_axis_at, e) quiet
    | inr (a, e) ↦ rw (move_axis_at, e) (move_axis-IsQuiet f now a rate t off)
  ]

  module _ (sprintf : Sprintf f) (lib : Library f) (now : ℕ) (polls : List ℕ) where
    -- A gate that accepts has asked AtPark, and found the mount not parked.
    accepted :
        (m : Motion f) (t : Telescope f)
        → gate_motion f sprintf (answers f now t) m ≡ none
        → ((settle f now t).at_park ≡ false)
          × (after_gate f lib sprintf (telescope_driver f now polls) m t ≡ settle f now t)
    unfolding after_gate asks_park Calls.is_at_park
    accepted m t ok = elim (Bool-cases (settle f now t).at_park) [
      | inl on ↦ elim (gate_motion-parked f sprintf (answers f now t) m on ok) [ ]
      | inr off ↦
          let number = gate_motion-Parked_number f sprintf (answers f now t) m (rw off at ok) in
          (off, rw number refl)
    ]

    after_gate-IsQuiet :
        (m : Motion f) (t : Telescope f)
        → IsQuiet f t
        → IsQuiet f (after_gate f lib sprintf (telescope_driver f now polls) m t)
    unfolding after_gate Calls.is_at_park
    after_gate-IsQuiet m t quiet =
        elim (Bool-cases (asks_park f lib sprintf (telescope_driver f now polls) m t)) [
          | inl e ↦ rw e (settle-IsQuiet f now t quiet)
          | inr e ↦ rw e quiet
        ]

    moved-IsQuiet :
        (m : Motion f) (call : Telescope f → Telescope f × Error) (t : Telescope f)
        → ((s : Telescope f) → s.at_park ≡ false → IsQuiet f s → IsQuiet f (call s).0)
        → IsQuiet f t
        → Leaves (IsQuiet f) (moved f lib sprintf (telescope_driver f now polls) m call t)
    unfolding moved
    moved-IsQuiet m call t called quiet =
        gated-keeps (IsQuiet f) _ call _
          (λ ok.
            let (off, e) = accepted m t ok in
            record { kept = called _ (rw e off) (after_gate-IsQuiet m t quiet) })
          (after_gate-IsQuiet m t quiet)

    targets-IsQuiet :
        (ra dec : F) (call : Telescope f → Telescope f × Error) (t : Telescope f)
        → IsQuiet f (call t).0
        → IsQuiet f (with_targets f lib sprintf (telescope_driver f now polls) ra dec call t).0
    unfolding with_targets set_targets Calls.set_target_declination Calls.set_target_right_ascension
    targets-IsQuiet ra dec call t quiet = elim (Option-cases (call t).1) [
      | inl e ↦ rw (with_targets, e) (same-IsQuiet _ (call t).0 refl refl refl refl refl refl quiet)
      | inr (err, e) ↦ rw (with_targets, e) quiet
    ]

    put_tracking-IsQuiet :
        (on : Bool) (t : Telescope f)
        → IsQuiet f t
        → Leaves (IsQuiet f) (put_tracking f lib sprintf (telescope_driver f now polls) on t)
    unfolding put_tracking
    put_tracking-IsQuiet true t quiet =
        moved-IsQuiet _ _ t (λ s off q. tracking-IsQuiet f now s off q) quiet
    put_tracking-IsQuiet false t quiet =
        gated-keeps (IsQuiet f) _ _ t (λ ok. record { kept = tracking_off-IsQuiet f now t quiet })
          quiet

    module _ (zero_equal : IsZeroEqual f) where
      put_case-IsQuiet :
          (p : Params) (m : Member) (t : Telescope f)
          → IsQuiet f t
          → Leaves (IsQuiet f) (put_case f lib sprintf (telescope_driver f now polls) p m t)
      unfolding put_case Calls.set_declination_rate Calls.set_right_ascension_rate
          Calls.set_tracking_rate Settings.set_does_refraction Settings.set_guide_rate_declination
          Settings.set_guide_rate_right_ascension Settings.set_side_of_pier
          Settings.set_site_elevation Settings.set_site_latitude Settings.set_site_longitude
          Settings.set_slew_settle_time Settings.slew_to_alt_az Settings.slew_to_target
          Calls.set_target_declination Calls.set_target_right_ascension Calls.slew_to_coordinates
          Calls.slew_to_coordinates_async Calls.slew_to_target_async Calls.sync_to_alt_az
          Calls.sync_to_target Calls.unpark axis_moving
      put_case-IsQuiet p Handler.declination_rate t quiet =
          with_arg-keeps (IsQuiet f) _ _ t
            (λ x e.
              gated-keeps (IsQuiet f) _ _ t
                (λ ok. record {
                  kept =
                      same-IsQuiet _ (settle_rates f now t) refl refl refl refl refl refl
                        (kept-IsQuiet f _ t (settle_rates-IsKept f now t) quiet);
                })
                quiet)
            quiet
      put_case-IsQuiet p Handler.does_refraction t quiet =
          with_arg-keeps (IsQuiet f) _ _ t
            (λ b e. record { kept = same-IsQuiet _ t refl refl refl refl refl refl quiet }) quiet
      put_case-IsQuiet p Handler.guide_rate_declination t quiet =
          with_arg-keeps (IsQuiet f) _ _ t
            (λ x e.
              gated-keeps (IsQuiet f) _ _ t
                (λ ok. record { kept = same-IsQuiet _ t refl refl refl refl refl refl quiet })
                quiet)
            quiet
      put_case-IsQuiet p Handler.guide_rate_right_ascension t quiet =
          with_arg-keeps (IsQuiet f) _ _ t
            (λ x e.
              gated-keeps (IsQuiet f) _ _ t
                (λ ok. record { kept = same-IsQuiet _ t refl refl refl refl refl refl quiet })
                quiet)
            quiet
      put_case-IsQuiet p Handler.right_ascension_rate t quiet =
          with_arg-keeps (IsQuiet f) _ _ t
            (λ x e.
              gated-keeps (IsQuiet f) _ _ t
                (λ ok. record {
                  kept =
                      same-IsQuiet _ (settle_rates f now t) refl refl refl refl refl refl
                        (kept-IsQuiet f _ t (settle_rates-IsKept f now t) quiet);
                })
                quiet)
            quiet
      put_case-IsQuiet p Handler.side_of_pier t quiet =
          with_arg-keeps (IsQuiet f) _ _ t
            (λ x e.
              gated-keeps (IsQuiet f) _ _ t
                (λ ok. record { kept = same-IsQuiet _ t refl refl refl refl refl refl quiet })
                quiet)
            quiet
      put_case-IsQuiet p Handler.site_elevation t quiet =
          with_arg-keeps (IsQuiet f) _ _ t
            (λ x e.
              gated-keeps (IsQuiet f) _ _ t
                (λ ok. record { kept = same-IsQuiet _ t refl refl refl refl refl refl quiet })
                quiet)
            quiet
      put_case-IsQuiet p Handler.site_latitude t quiet =
          with_arg-keeps (IsQuiet f) _ _ t
            (λ x e.
              gated-keeps (IsQuiet f) _ _ t
                (λ ok. record { kept = same-IsQuiet _ t refl refl refl refl refl refl quiet })
                quiet)
            quiet
      put_case-IsQuiet p Handler.site_longitude t quiet =
          with_arg-keeps (IsQuiet f) _ _ t
            (λ x e.
              gated-keeps (IsQuiet f) _ _ t
                (λ ok. record { kept = same-IsQuiet _ t refl refl refl refl refl refl quiet })
                quiet)
            quiet
      put_case-IsQuiet p Handler.slew_settle_time t quiet =
          with_arg-keeps (IsQuiet f) _ _ t
            (λ x e.
              gated-keeps (IsQuiet f) _ _ t
                (λ ok. record { kept = same-IsQuiet _ t refl refl refl refl refl refl quiet })
                quiet)
            quiet
      put_case-IsQuiet p Handler.target_declination t quiet =
          with_arg-keeps (IsQuiet f) _ _ t
            (λ x e.
              gated-keeps (IsQuiet f) _ _ t
                (λ ok. record { kept = same-IsQuiet _ t refl refl refl refl refl refl quiet })
                quiet)
            quiet
      put_case-IsQuiet p Handler.target_right_ascension t quiet =
          with_arg-keeps (IsQuiet f) _ _ t
            (λ x e.
              gated-keeps (IsQuiet f) _ _ t
                (λ ok. record { kept = same-IsQuiet _ t refl refl refl refl refl refl quiet })
                quiet)
            quiet
      put_case-IsQuiet p Handler.tracking t quiet =
          with_arg-keeps (IsQuiet f) _ _ t (λ on e. put_tracking-IsQuiet on t quiet) quiet
      put_case-IsQuiet p Handler.tracking_rate t quiet =
          with_arg-keeps (IsQuiet f) _ _ t
            (λ x e.
              gated-keeps (IsQuiet f) _ _ t
                (λ ok. record {
                  kept =
                      same-IsQuiet _ (settle_rates f now t) refl refl refl refl refl refl
                        (kept-IsQuiet f _ t (settle_rates-IsKept f now t) quiet);
                })
                quiet)
            quiet
      put_case-IsQuiet p Handler.utc_date t quiet =
          with_arg-keeps (IsQuiet f) _ _ t
            (λ x e. gated-keeps (IsQuiet f) _ _ t (λ ok. record { kept = quiet }) quiet) quiet
      put_case-IsQuiet p Handler.abort_slew t quiet =
          moved-IsQuiet _ _ t (λ s off q. abort-IsQuiet f zero_equal now s q) quiet
      put_case-IsQuiet p Handler.find_home t quiet =
          moved-IsQuiet _ _ t (λ s off q. home-IsQuiet f zero_equal now s) quiet
      put_case-IsQuiet p Handler.move_axis t quiet =
          with_arg-keeps (IsQuiet f) _ _ t
            (λ x e.
              with_arg-keeps (IsQuiet f) _ _ t
                (λ y e'.
                  moved-IsQuiet _ _ t (λ s off q. move_axis_at-IsQuiet now x y s off q) quiet)
                quiet)
            quiet
      put_case-IsQuiet p Handler.park t quiet =
          gated-keeps (IsQuiet f) _ _ t
            (λ ok. record { kept = park-IsQuiet f zero_equal now t quiet }) quiet
      put_case-IsQuiet p Handler.pulse_guide t quiet =
          with_arg-keeps (IsQuiet f) _ _ t
            (λ x e.
              with_arg-keeps (IsQuiet f) _ _ t
                (λ y e'. moved-IsQuiet _ _ t (λ s off q. pulse-IsQuiet f now x y s q) quiet) quiet)
            quiet
      put_case-IsQuiet p Handler.set_park t quiet =
          gated-keeps (IsQuiet f) _ _ t (λ ok. record { kept = quiet }) quiet
      put_case-IsQuiet p Handler.slew_to_alt_az t quiet =
          with_arg-keeps (IsQuiet f) _ _ t
            (λ x e.
              moved-IsQuiet _ _ t
                (λ s off q. wait-IsQuiet polls _ (alt_az-IsQuiet f now x.0 x.1 s q)) quiet)
            quiet
      put_case-IsQuiet p Handler.slew_to_alt_az_async t quiet =
          with_arg-keeps (IsQuiet f) _ _ t
            (λ x e. moved-IsQuiet _ _ t (λ s off q. alt_az-IsQuiet f now x.0 x.1 s q) quiet) quiet
      put_case-IsQuiet p Handler.slew_to_coordinates t quiet =
          with_arg-keeps (IsQuiet f) _ _ t
            (λ x e.
              moved-IsQuiet _ _ t
                (λ s off q.
                  targets-IsQuiet x.0 x.1 _ s
                    (wait-IsQuiet polls _ (slew-IsQuiet f zero_equal now x.0 x.1 _)))
                quiet)
            quiet
      put_case-IsQuiet p Handler.slew_to_coordinates_async t quiet =
          with_arg-keeps (IsQuiet f) _ _ t
            (λ x e.
              moved-IsQuiet _ _ t
                (λ s off q. targets-IsQuiet x.0 x.1 _ s (slew-IsQuiet f zero_equal now x.0 x.1 _))
                quiet)
            quiet
      put_case-IsQuiet p Handler.slew_to_target t quiet =
          moved-IsQuiet _ _ t
            (λ s off q. wait-IsQuiet polls _ (slew-IsQuiet f zero_equal now _ _ _)) quiet
      put_case-IsQuiet p Handler.slew_to_target_async t quiet =
          moved-IsQuiet _ _ t (λ s off q. slew-IsQuiet f zero_equal now _ _ _) quiet
      put_case-IsQuiet p Handler.sync_to_alt_az t quiet =
          with_arg-keeps (IsQuiet f) _ _ t
            (λ x e.
              moved-IsQuiet _ _ t (λ s off q. same-IsQuiet _ s refl refl refl refl refl refl q)
                quiet)
            quiet
      put_case-IsQuiet p Handler.sync_to_coordinates t quiet =
          with_arg-keeps (IsQuiet f) _ _ t
            (λ x e.
              moved-IsQuiet _ _ t
                (λ s off q. targets-IsQuiet x.0 x.1 _ s (sync-IsQuiet f now x.0 x.1 s off q)) quiet)
            quiet
      put_case-IsQuiet p Handler.sync_to_target t quiet =
          moved-IsQuiet _ _ t (λ s off q. sync-IsQuiet f now _ _ s off q) quiet
      put_case-IsQuiet p Handler.unpark t quiet =
          gated-keeps (IsQuiet f) _ _ t
            (λ ok. record { kept = unparked-IsQuiet f (Calls.unpark f t) refl quiet.parking }) quiet

  module _ (lib : Library f) (sprintf : Sprintf f) (zero_equal : IsZeroEqual f) where
    put_all-IsQuiet :
        (requests : List (Put f)) (t : Telescope f)
        → IsQuiet f t
        → IsQuiet f (put_all f lib sprintf requests t)
    unfolding put_all telescope_put
    put_all-IsQuiet [] t quiet = quiet
    put_all-IsQuiet (q ∷ requests) t quiet = put_all-IsQuiet requests _ (
        dispatch-keeps (IsQuiet f) put_cases
          (put_case f lib sprintf (telescope_driver f q.now q.polls) q.params) q.member t
          (λ m. put_case-IsQuiet sprintf lib q.now q.polls zero_equal q.params m t quiet) quiet)

    -- From a new simulated mount, whatever PUT requests reach its handler one after the other, with
    -- whatever members, parameters and times: whenever the mount then reads as parked, it is not
    -- tracking, and it does not read as slewing. The 0 of float64 equals itself.
    pub telescope_put-parked :
        (requests : List (Put f)) (now : ℕ)
        → (Calls.is_at_park f now (put_all f lib sprintf requests (new_telescope f))).1 ≡ true
        → ((Calls.is_at_park f now (put_all f lib sprintf requests (new_telescope f))).0.tracking
            ≡ false)
          × ((Calls.is_slewing f now (put_all f lib sprintf requests (new_telescope f))).1 ≡ false)
    unfolding Calls.is_at_park Calls.is_slewing new_telescope axis_moving
    telescope_put-parked requests now h =
        let fresh : IsQuiet f (new_telescope f) = record {
          parked = λ e. ground arith;
          parking = λ e. ground arith;
        } in
        let served = put_all-IsQuiet requests (new_telescope f) fresh in
        let (off, still, axes) = (settle-IsQuiet f now _ served).parked h in
        (off, rw (still, axes) refl)
