-- ===== src/Sim/Camera/Shot/Refines.antt =====
-- The camera of sim/camera.go answers as the machine of three states does.
use goalpaca.Prelude.{
  ℕ, ◌≤◌, ◌≡◌, refl, ◌∙◌, ap, arith, String, List, [], ◌∷◌, true, false, if◌then◌else◌, none, some,
  pos, neg, ◌&&◌, ◌||◌, inl, inr, Bool-cases, ◌⊎◌,
}
use goalpaca.Float.{Float64}
use goalpaca.Sim.Camera
use goalpaca.Sim.Camera.Shot.{
  to_bin_x, to_bin_y, to_start_x, to_start_y, to_num_x, to_num_y, to_gain, to_offset, to_cooler_on,
  to_set_ccd_temperature, Call, expose, stop, abort, adjust, Exposure, Shot, no_shot, running,
  taken, View, apply, step, run, reads, settle_shot, settle, stop_shot, abort_shot, adjust_view,
  act, run_view, shot_reads, new_view,
}

-- The times of the calls do not run backwards, from a start to an end.
abbrev pub IsOrdered : {f : Float64} → ℕ → List (ℕ × Call f) → ℕ → Type 0
IsOrdered t [] end = t ≤ end
IsOrdered t ((now, call) ∷ calls) end = (t ≤ now) × IsOrdered now calls end

module _ (f : Float64) (format_utc : ℕ → String) where
  open f use {F, lt, of_int}

  unfoldable exposure_of : Camera.Camera f → Exposure f
  exposure_of c = record {
    width = c.exp_w;
    height = c.exp_h;
    duration = c.last_duration;
    started = elim c.start_time [ none ↦ 0 | some t ↦ t ];
  }

  -- What the flags and times stand for.
  unfoldable shot_of : ℕ → Camera.Camera f → Shot f
  unfolding exposure_of
  shot_of now c =
      if c.has_exposure
      then if Camera.is_before now c.ready_at
        then running (exposure_of c) c.ready_at
        else taken (exposure_of c)
      else no_shot

  unfoldable view_of : ℕ → Camera.Camera f → View f
  unfolding shot_of
  view_of now c = record { shot = shot_of now c; num_x = c.num_x; num_y = c.num_y }

  -- An active exposure has data to come; other data is complete.
  abbrev IsSound : ℕ → Camera.Camera f → Type 0
  IsSound now c =
      (c.exposing ≡ true → c.has_exposure ≡ true)
      × (c.exposing ≡ false → c.has_exposure ≡ true → Camera.is_before now c.ready_at ≡ false)
      × (c.has_exposure ≡ true
          → (t : ℕ) × (c.start_time ≡ some t) × (c.last_start_time ≡ format_utc t))

  IsSound-later : (t now : ℕ) (c : Camera.Camera f) → t ≤ now → IsSound t c → IsSound now c
  IsSound-later t now c le (active, idle, begun) =
      (active, (λ e h. ground (arith, idle e h)), begun)

  -- The passing of time settles the shot.
  view_of_later :
      (t now : ℕ) (c : Camera.Camera f)
      → t ≤ now
      → view_of now c ≡ settle f format_utc now (view_of t c)
  unfolding view_of shot_of settle settle_shot
  view_of_later t now c le = ground arith

  set_point_cases :
      (v : F) (c : Camera.Camera f)
      → ((Camera.set_set_ccd_temperature f format_utc v c).0 ≡ c)
        ⊎ ((Camera.set_set_ccd_temperature f format_utc v c).0 ≡ record c { setpoint = v })
  unfolding Camera.set_set_ccd_temperature
  set_point_cases v c =
      elim (Bool-cases (lt v (f.decimal (neg 27315) 2) || lt (of_int (pos 30)) v)) [
        | inl e ↦ rw e (inl refl)
        | inr e ↦ rw e (inr refl)
      ]

  step-IsSound :
      (now : ℕ) (call : Call f) (c : Camera.Camera f)
      → IsSound now c
      → IsSound now (step f format_utc now call c)
  unfolding step Camera.start_exposure Camera.stop_exposure Camera.abort_exposure apply
  step-IsSound now (expose d light) c s =
      elim (Bool-cases
        (lt d (Camera.exposure_min f format_utc) || lt (Camera.exposure_max f format_utc) d)) [
          | inl e ↦ rw (step, Camera.start_exposure, e) s
          | inr e ↦
              rw (step, Camera.start_exposure, e)
                ((λ h. refl), (λ h. absurd (ground arith)), λ h. (now, refl, refl))
        ]
  step-IsSound now stop c (active, idle, begun) =
      elim (Bool-cases (c.exposing && Camera.is_before now c.ready_at)) [
        | inl e ↦
            rw (step, Camera.stop_exposure, e)
              ((λ h. absurd (ground arith)), (λ h g. ground arith), begun)
        | inr e ↦
            rw (step, Camera.stop_exposure, e)
              ((λ h. absurd (ground arith)), (λ h g. ground (arith, idle)), begun)
      ]
  step-IsSound now abort c (active, idle, begun) =
      elim (Bool-cases (c.exposing && Camera.is_before now c.ready_at)) [
        | inl e ↦
            rw (step, Camera.abort_exposure, e)
              (
                (λ h. absurd (ground arith)),
                (λ h g. absurd (ground arith)),
                λ h. absurd (ground arith),
              )
        | inr e ↦
            rw (step, Camera.abort_exposure, e)
              ((λ h. absurd (ground arith)), (λ h g. ground (arith, idle)), begun)
      ]
  step-IsSound now (adjust (to_bin_x v)) c s = s
  step-IsSound now (adjust (to_bin_y v)) c s = s
  step-IsSound now (adjust (to_start_x v)) c s = s
  step-IsSound now (adjust (to_start_y v)) c s = s
  step-IsSound now (adjust (to_num_x v)) c s = s
  step-IsSound now (adjust (to_num_y v)) c s = s
  step-IsSound now (adjust (to_gain v)) c s = s
  step-IsSound now (adjust (to_offset v)) c s = s
  step-IsSound now (adjust (to_cooler_on v)) c s = s
  step-IsSound now (adjust (to_set_ccd_temperature v)) c s = elim (set_point_cases v c) [
    | inl e ↦ rw (step, apply, e) s
    | inr e ↦ rw (step, apply, e) s
  ]

  -- There is no exposure, or one that runs, or one that is taken.
  shot_cases :
      (now : ℕ) (c : Camera.Camera f)
      → IsSound now c
      → ((c.has_exposure ≡ false) × (c.exposing ≡ false))
        ⊎ (((t : ℕ) × (c.has_exposure ≡ true)
              × (c.exposing ≡ true)
              × (Camera.is_before now c.ready_at ≡ true)
              × (c.start_time ≡ some t))
            ⊎ ((c.has_exposure ≡ true) × (Camera.is_before now c.ready_at ≡ false)))
  shot_cases now c (active, idle, begun) = elim (Bool-cases c.has_exposure) [
    | inr h ↦ inl (h, ground (arith, active))
    | inl h ↦ elim (Bool-cases (Camera.is_before now c.ready_at)) [
      | inr w ↦ inr (inr (h, w))
      | inl w ↦ let (t, b, _) = begun h in inr (inl (t, h, ground (arith, idle), w, b))
    ]
  ]

  view_of-step :
      (now : ℕ) (call : Call f) (c : Camera.Camera f)
      → IsSound now c
      → view_of now (step f format_utc now call c) ≡ act f format_utc now call (view_of now c)
  unfolding view_of shot_of exposure_of step act apply adjust_view Camera.start_exposure
      Camera.stop_exposure Camera.abort_exposure settle_shot stop_shot abort_shot
  view_of-step now (expose d light) c s =
      elim (Bool-cases
        (lt d (Camera.exposure_min f format_utc) || lt (Camera.exposure_max f format_utc) d)) [
          | inl e ↦ rw (step, act, Camera.start_exposure, e) refl
          | inr e ↦ rw (step, act, Camera.start_exposure, e) refl
        ]
  view_of-step now stop c s = elim (shot_cases now c s) [
    | inl (h, e) ↦ rw (Camera.stop_exposure, h, e) refl
    | inr (inl (t, h, e, w, b)) ↦ rw (Camera.stop_exposure, h, e, w, b) (ground arith)
    | inr (inr (h, w)) ↦ elim (Bool-cases c.exposing) [
      | inl e ↦ rw (Camera.stop_exposure, h, e, w, w) refl
      | inr e ↦ rw (Camera.stop_exposure, h, e, w) refl
    ]
  ]
  view_of-step now abort c s = elim (shot_cases now c s) [
    | inl (h, e) ↦ rw (Camera.abort_exposure, h, e) refl
    | inr (inl (t, h, e, w, b)) ↦ rw (Camera.abort_exposure, h, e, w) refl
    | inr (inr (h, w)) ↦ elim (Bool-cases c.exposing) [
      | inl e ↦ rw (Camera.abort_exposure, h, e, w, w) refl
      | inr e ↦ rw (Camera.abort_exposure, h, e, w) refl
    ]
  ]
  view_of-step now (adjust (to_bin_x v)) c s = refl
  view_of-step now (adjust (to_bin_y v)) c s = refl
  view_of-step now (adjust (to_start_x v)) c s = refl
  view_of-step now (adjust (to_start_y v)) c s = refl
  view_of-step now (adjust (to_num_x v)) c s = refl
  view_of-step now (adjust (to_num_y v)) c s = refl
  view_of-step now (adjust (to_gain v)) c s = refl
  view_of-step now (adjust (to_offset v)) c s = refl
  view_of-step now (adjust (to_cooler_on v)) c s = refl
  view_of-step now (adjust (to_set_ccd_temperature v)) c s = elim (set_point_cases v c) [
    | inl e ↦ rw (step, apply, e) refl
    | inr e ↦ rw (step, apply, e) refl
  ]

  run-view :
      (calls : List (ℕ × Call f)) (t end : ℕ) (c : Camera.Camera f)
      → IsOrdered t calls end
      → IsSound t c
      → (view_of end (run f format_utc calls c)
          ≡ settle f format_utc end (run_view f format_utc calls (view_of t c)))
        × IsSound end (run f format_utc calls c)
  unfolding run run_view
  run-view [] t end c le s = (view_of_later t end c le, IsSound-later t end c le s)
  run-view ((now, call) ∷ calls) t end c (le, rest) s =
      let now_sound = IsSound-later t now c le s in
      let later =
        run-view calls now end (step f format_utc now call c) rest
          (step-IsSound now call c now_sound) in
      let stepped =
        view_of-step now call c now_sound
        ∙ ap (λ v. act f format_utc now call v) (view_of_later t now c le) in
      (later.0 ∙ ap (λ v. settle f format_utc end (run_view f format_utc calls v)) stepped, later.1)

  reads-shot :
      (now : ℕ) (c : Camera.Camera f)
      → IsSound now c
      → reads f format_utc now c ≡ shot_reads f format_utc (view_of now c).shot
  unfolding reads shot_reads view_of shot_of exposure_of Camera.image_ready Camera.camera_state
      Camera.last_exposure_duration Camera.last_exposure_start_time Camera.image_frame
  reads-shot now c s = elim (shot_cases now c s) [
    | inl (h, e) ↦ rw (h, e) refl
    | inr (inl (t, h, e, w, b)) ↦ let (t', b', text) = s.2 h in rw (h, e, w, b', text) refl
    | inr (inr (h, w)) ↦
        let (t, b, text) = s.2 h in
        elim (Bool-cases c.exposing) [
          | inl e ↦ rw (h, e, w, b, text) refl
          | inr e ↦ rw (h, e, w, b, text) refl
        ]
  ]

  -- The camera refines the machine of three states. After any calls made in order from a new camera,
  -- it answers at a later time what the machine answers that was run on the same calls: whether an
  -- image is ready, whether it is exposing, the duration and start of the last exposure, and the
  -- image.
  pub reads-run :
      (calls : List (ℕ × Call f)) (end : ℕ)
      → IsOrdered 0 calls end
      → reads f format_utc end (run f format_utc calls (Camera.new_camera f format_utc))
        ≡ shot_reads f format_utc
            (settle f format_utc end (run_view f format_utc calls (new_view f format_utc))).shot
  unfolding Camera.new_camera new_view view_of shot_of
  reads-run calls end le =
      let new_sound : IsSound 0 (Camera.new_camera f format_utc) = (
        (λ h. absurd (ground arith)),
        (λ e h. absurd (ground arith)),
        λ h. absurd (ground arith),
      ) in
      let (same, sound) = run-view calls 0 end (Camera.new_camera f format_utc) le new_sound in
      reads-shot end (run f format_utc calls (Camera.new_camera f format_utc)) sound
      ∙ ap (λ (v : View f). shot_reads f format_utc v.shot) same
