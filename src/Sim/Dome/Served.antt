-- ===== src/Sim/Dome/Served.antt =====
-- The simulated dome behind domePut.
use goalpaca.Prelude.{ℕ, ◌≡◌, refl, String, List, true, false, ◌&&◌, none}
use goalpaca.Float.{Float64}
use goalpaca.Server.Gates.{Sprintf}
use goalpaca.Server.Transaction.{Library, Params}
use goalpaca.Server.Handlers.{Event, serve_all}
use goalpaca.Server.Handlers.Keeps.{
  Leaves, AllCalls-Unit, with_arg-keeps, gated-keeps, dispatch-keeps, serve_all-keeps,
}
use goalpaca.Server.Handlers.Dome as Handler
use goalpaca.Server.Handlers.Dome.{DomeDriver, Member, put_cases, put_case, dome_put}
use goalpaca.Sim.Dome
use goalpaca.Sim.Dome.Flags

module _ (f : Float64) where
  -- The driver at a time.
  abbrev pub dome_driver : ℕ → DomeDriver f
  dome_driver now = record {
    Device = Dome.Dome f;
    can_slave = λ d. false;
    can_set_shutter = λ d. true;
    can_find_home = λ d. true;
    can_park = λ d. true;
    can_set_park = λ d. true;
    can_set_altitude = λ d. true;
    can_set_azimuth = λ d. true;
    can_sync_azimuth = λ d. true;
    set_slaved = λ b d. (d, none);
    abort_slew = λ d. (Dome.abort_slew f now d, none);
    close_shutter = λ d. (Dome.close_shutter f now d, none);
    find_home = λ d. (Dome.find_home f now d, none);
    open_shutter = λ d. (Dome.open_shutter f now d, none);
    park = λ d. (Dome.park f now d, none);
    set_park = λ d. (d, none);
    slew_to_altitude = λ x d. (Dome.slew_to_altitude f now x d, none);
    slew_to_azimuth = λ x d. (Dome.slew_to_azimuth f now x d, none);
    sync_to_azimuth = λ x d. (Dome.sync_to_azimuth f x d, none);
  }

  record HasOneFlag (d : Dome.Dome f) : Type 0 where
    exclusive : Flags.IsExclusive f d

  called :
      (now : ℕ) (c : Flags.Call f) (d : Dome.Dome f)
      → HasOneFlag d
      → HasOneFlag (Flags.step f now c d)
  called now c d h = record { exclusive = Flags.step-IsExclusive f now c d h.exclusive }

  module _ (lib : Library f) (sprintf : Sprintf f) where
    put_case-HasOneFlag :
        (now : ℕ) (p : Params) (m : Member) (d : Dome.Dome f)
        → HasOneFlag d
        → Leaves HasOneFlag (put_case f lib sprintf (dome_driver now) p m d)
    unfolding put_case Flags.step
    put_case-HasOneFlag now p Handler.slaved d h =
        with_arg-keeps HasOneFlag _ _ d
          (λ b e. gated-keeps HasOneFlag _ _ d (λ ok. record { kept = h }) h) h
    put_case-HasOneFlag now p Handler.abort_slew d h = record {
      kept = called now Flags.abort_slew d h;
    }
    put_case-HasOneFlag now p Handler.close_shutter d h =
        gated-keeps HasOneFlag _ _ d (λ ok. record { kept = called now Flags.close_shutter d h }) h
    put_case-HasOneFlag now p Handler.find_home d h =
        gated-keeps HasOneFlag _ _ d (λ ok. record { kept = called now Flags.find_home d h }) h
    put_case-HasOneFlag now p Handler.open_shutter d h =
        gated-keeps HasOneFlag _ _ d (λ ok. record { kept = called now Flags.open_shutter d h }) h
    put_case-HasOneFlag now p Handler.park d h =
        gated-keeps HasOneFlag _ _ d (λ ok. record { kept = called now Flags.park d h }) h
    put_case-HasOneFlag now p Handler.set_park d h =
        gated-keeps HasOneFlag _ _ d (λ ok. record { kept = h }) h
    put_case-HasOneFlag now p Handler.slew_to_altitude d h =
        with_arg-keeps HasOneFlag _ _ d
          (λ x e.
            gated-keeps HasOneFlag _ _ d
              (λ can.
                gated-keeps HasOneFlag _ _ d
                  (λ ok. record { kept = called now (Flags.slew_to_altitude x) d h }) h)
              h)
          h
    put_case-HasOneFlag now p Handler.slew_to_azimuth d h =
        with_arg-keeps HasOneFlag _ _ d
          (λ x e.
            gated-keeps HasOneFlag _ _ d
              (λ can.
                gated-keeps HasOneFlag _ _ d
                  (λ ok. record { kept = called now (Flags.slew_to_azimuth x) d h }) h)
              h)
          h
    put_case-HasOneFlag now p Handler.sync_to_azimuth d h =
        with_arg-keeps HasOneFlag _ _ d
          (λ x e.
            gated-keeps HasOneFlag _ _ d
              (λ can.
                gated-keeps HasOneFlag _ _ d
                  (λ ok. record { kept = called now (Flags.sync_to_azimuth x) d h }) h)
              h)
          h

    put-HasOneFlag :
        (now : ℕ) (member : String) (p : Params) (d : Dome.Dome f)
        → HasOneFlag d
        → HasOneFlag (dome_put f lib sprintf (dome_driver now) member p d).0
    unfolding dome_put
    put-HasOneFlag now member p d h =
        dispatch-keeps HasOneFlag put_cases (put_case f lib sprintf (dome_driver now) p) member d
          (λ m. put_case-HasOneFlag now p m d h) h

    -- From a new dome, whatever PUT requests and calls come, and when: the dome never reads both as
    -- at home and as parked.
    pub dome_put-home_or_park :
        (events : List (ℕ × Event (Flags.Call f))) (now : ℕ)
        → let d =
            serve_all
              (Flags.step f)
              (λ at. dome_put f lib sprintf (dome_driver at))
              events
              (Dome.new_dome f) in
          ((Dome.is_at_home f now d).1 && (Dome.is_at_park f now d).1) ≡ false
    unfolding Dome.new_dome
    dome_put-home_or_park events now =
        let fresh : HasOneFlag (Dome.new_dome f) = record { exclusive = refl } in
        let served =
          serve_all-keeps HasOneFlag (λ c. Unit) (Flags.step f)
            (λ at. dome_put f lib sprintf (dome_driver at)) (λ at c d ok. called at c d)
            put-HasOneFlag events _ (AllCalls-Unit events) fresh in
        Flags.reads_one_flag f now _ served.exclusive
