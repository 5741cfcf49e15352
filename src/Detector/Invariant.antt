-- ===== src/Detector/Invariant.antt =====
-- Which snapshots the node accepts, and that it never works with another.
use vehicle_detection_system.Common.{
  ◌≡◌, refl, ◌≤◌, ◌<◌, ◌^◌, true, false, none, some, List, [], ◌∷◌, is_empty, arith, Option-cases,
  inl, inr, Bytes, ◌⊎◌, subst, sym, ◌∙◌,
}
use vehicle_detection_system.Common.Results.{ok, error, ok_inj, ok-ne-error}
use vehicle_detection_system.Common.Int.{of_size}
use vehicle_detection_system.Common.Double.{Double}
use vehicle_detection_system.Validation.{
  validate_non_empty_string, validate_positive_double, validate_int_min, first_failure,
}
use vehicle_detection_system.Clouds.{
  zero_double, RoiBounds, EuclideanClusteringParams, VehicleSizeLimits,
}
use vehicle_detection_system.Detector.Settings.{
  Snapshot, Declared, build_snapshot_from_parameters, enforce_initial_parameters, rejection,
  Parameter, apply_parameters, roi_is_empty, limits_are_empty,
}
use vehicle_detection_system.Detector.Node.{Node, start, on_parameter_change}

module _ {D : Type 0} ⦃d : Double D⦄ where
  -- No least bound reaches its greatest one; a bound that is NaN reaches none.
  pub record IsOpen (roi : RoiBounds D) : Type 0 where
    pub x : d.le roi.max_x roi.min_x ≡ false
    pub y : d.le roi.max_y roi.min_y ≡ false
    pub z : d.le roi.max_z roi.min_z ≡ false

  pub record Admits (limits : VehicleSizeLimits D) : Type 0 where
    pub length : d.le limits.max_length limits.min_length ≡ false
    pub width : d.le limits.max_width limits.min_width ≡ false
    pub height : d.le limits.max_height limits.min_height ≡ false

  pub record CanCluster (clustering : EuclideanClusteringParams D) : Type 0 where
    pub tolerance : d.lt zero_double clustering.tolerance ≡ true
    pub positive : 1 ≤ clustering.min_size
    pub ordered : clustering.min_size ≤ clustering.max_size
    pub bounded : clustering.max_size < 2 ^ 63

  pub record IsUsable (s : Snapshot D) : Type 0 where
    pub frame : is_empty s.target_frame_id ≡ false
    pub voxel : d.lt zero_double s.voxel_leaf_size ≡ true
    pub ground : d.lt zero_double s.ground_distance_threshold ≡ true
    pub clustering : CanCluster s.clustering
    pub roi : IsOpen s.roi
    pub limits : Admits s.vehicle_limits

  sizes_lem :
      (s : Snapshot D)
      → rejection s ≡ none
      → (1 ≤ s.clustering.min_size)
        × (s.clustering.min_size ≤ s.clustering.max_size)
        × (s.clustering.max_size < 2 ^ 63)
  unfolding rejection first_failure validate_non_empty_string validate_positive_double
      validate_int_min of_size
  sizes_lem s h = ground arith

  values_lem :
      (s : Snapshot D)
      → rejection s ≡ none
      → (is_empty s.target_frame_id ≡ false)
        × (d.lt zero_double s.voxel_leaf_size ≡ true)
        × (d.lt zero_double s.ground_distance_threshold ≡ true)
        × (d.lt zero_double s.clustering.tolerance ≡ true)
        × (roi_is_empty s.roi ≡ false)
        × (limits_are_empty s.vehicle_limits ≡ false)
  unfolding rejection first_failure validate_non_empty_string validate_positive_double
  values_lem s h = ground arith

  roi_lem : (roi : RoiBounds D) → roi_is_empty roi ≡ false → IsOpen roi
  unfolding roi_is_empty
  roi_lem roi h = record { x = ground arith; y = ground arith; z = ground arith }

  limits_lem : (limits : VehicleSizeLimits D) → limits_are_empty limits ≡ false → Admits limits
  unfolding limits_are_empty
  limits_lem limits h = record {
    length = ground arith;
    width = ground arith;
    height = ground arith;
  }

  rejection-IsUsable : (s : Snapshot D) → rejection s ≡ none → IsUsable s
  rejection-IsUsable s h =
      let (positive, ordered, bounded) = sizes_lem s h in
      let (frame, voxel, plane, tolerance, roi, limits) = values_lem s h in
      record {
        frame = frame;
        voxel = voxel;
        ground = plane;
        clustering = record {
          tolerance = tolerance;
          positive = positive;
          ordered = ordered;
          bounded = bounded;
        };
        roi = roi_lem s.roi roi;
        limits = limits_lem s.vehicle_limits limits;
      }

  -- An update is stored whole or not at all.
  on_parameter_change_lem :
      (params : List (Parameter D)) (n : Node D)
      → let candidate = apply_parameters params n.snapshot in
        let (answer, next) = on_parameter_change params n in
        ((rejection candidate ≡ none) × (answer ≡ ok tt) × (next.snapshot ≡ candidate))
        ⊎ ((reason : Bytes) × (rejection candidate ≡ some reason)
            × (answer ≡ error reason)
            × (next ≡ n))
  unfolding on_parameter_change
  on_parameter_change_lem params n =
      elim (Option-cases (rejection (apply_parameters params n.snapshot))) [
        | inl fine ↦
            inl (fine, rw (on_parameter_change, fine) refl, rw (on_parameter_change, fine) refl)
        | inr (reason, bad) ↦
            inr
              (reason, bad, rw (on_parameter_change, bad) refl, rw (on_parameter_change, bad) refl)
      ]

  -- The node after a row of updates.
  pub run : List (List (Parameter D)) → Node D → Node D
  run [] n = n
  run (params ∷ updates) n = run updates (on_parameter_change params n).1

  start_lem : (p : Declared D) (n : Node D) → start p ≡ ok n → rejection n.snapshot ≡ none
  unfolding start enforce_initial_parameters
  start_lem p n e =
      let s = build_snapshot_from_parameters p in
      elim (Option-cases (rejection s)) [
        | inl fine ↦
            let made : start p ≡ ok (record { snapshot = s }) =
              rw (start, enforce_initial_parameters, fine) refl in
            subst (λ m. rejection m.snapshot ≡ none) (ok_inj (sym made ∙ e)) fine
        | inr (reason, bad) ↦
            let thrown : start p ≡ error reason =
              rw (start, enforce_initial_parameters, bad) refl in
            ok-ne-error (sym e ∙ thrown)
      ]

  update_lem :
      (params : List (Parameter D)) (n : Node D)
      → rejection n.snapshot ≡ none
      → rejection (on_parameter_change params n).1.snapshot ≡ none
  update_lem params n h = elim (on_parameter_change_lem params n) [
    | inl (fine, _, e) ↦ rw e fine
    | inr (_, _, _, e) ↦ rw e h
  ]

  run_lem :
      (updates : List (List (Parameter D))) (n : Node D)
      → rejection n.snapshot ≡ none
      → rejection (run updates n).snapshot ≡ none
  unfolding run
  run_lem [] n h = h
  run_lem (params ∷ updates) n h = run_lem updates _ (update_lem params n h)

  -- From a constructor that does not throw, after any row of updates: the frame is named, the lengths and
  -- the tolerance are above 0, 1 ≤ cluster_min_size ≤ cluster_max_size < 2^63, and no least bound of the
  -- region or of the sizes reaches its greatest one. A bound that is NaN reaches none, so it is accepted.
  pub run-IsUsable :
      (p : Declared D) (updates : List (List (Parameter D))) (n : Node D)
      → start p ≡ ok n
      → IsUsable (run updates n).snapshot
  run-IsUsable p updates n e = rejection-IsUsable _ (run_lem updates n (start_lem p n e))
