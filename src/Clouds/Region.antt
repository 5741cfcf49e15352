-- ===== src/Clouds/Region.antt =====
-- A box of points that the region crops stays within the region.
use vehicle_detection_system.Common.{
  ◌≡◌, true, some, List, [], ◌∷◌, All, All-get_elem?, arith, Option-cases, inl, inr,
}
use vehicle_detection_system.Common.Int.{ℤ, pos, negsuc}
use vehicle_detection_system.Common.Double.{Double, IsIeee, max, min}
use vehicle_detection_system.Clouds.Boxes.{IsBetween, Holds, used, compute_aabb-Holds}
use vehicle_detection_system.Clouds.{
  Point, AxisAlignedBox, point_at, extend_box, extend_all, empty_box, compute_aabb,
}

module _ {D : Type 0} ⦃d : Double D⦄ where
  abbrev pub IsInside : Point D → Point D → Point D → Type 0
  IsInside low high p =
      (d.le low.x p.x ≡ true)
      × (d.le p.x high.x ≡ true)
      × (d.le low.y p.y ≡ true)
      × (d.le p.y high.y ≡ true)
      × (d.le low.z p.z ≡ true)
      × (d.le p.z high.z ≡ true)

  pub record IsBounded (low high : Point D) (box : AxisAlignedBox D) : Type 0 where
    pub min_x : d.le low.x box.min_x ≡ true
    pub max_x : d.le box.max_x high.x ≡ true
    pub min_y : d.le low.y box.min_y ≡ true
    pub max_y : d.le box.max_y high.y ≡ true
    pub min_z : d.le low.z box.min_z ≡ true
    pub max_z : d.le box.max_z high.z ≡ true

  min-le : (low a b : D) → d.le low a ≡ true → d.le low b ≡ true → d.le low (min a b) ≡ true
  unfolding min
  min-le low a b h k = ground arith

  max-le : (high a b : D) → d.le a high ≡ true → d.le b high ≡ true → d.le (max a b) high ≡ true
  unfolding max
  max-le high a b h k = ground arith

  module _ (low high : Point D) where
    extend_box-IsBounded :
        (p : Point D) (box : AxisAlignedBox D)
        → IsInside low high p
        → IsBounded low high box
        → IsBounded low high (extend_box p box)
    unfolding extend_box
    extend_box-IsBounded p box (x, x', y, y', z, z') h = record {
      min_x = min-le low.x box.min_x p.x h.min_x x;
      max_x = max-le high.x box.max_x p.x h.max_x x';
      min_y = min-le low.y box.min_y p.y h.min_y y;
      max_y = max-le high.y box.max_y p.y h.max_y y';
      min_z = min-le low.z box.min_z p.z h.min_z z;
      max_z = max-le high.z box.max_z p.z h.max_z z';
    }

    point_at-IsInside :
        (cloud : List (Point D)) (i : ℤ) {p : Point D}
        → All (IsInside low high) cloud
        → point_at cloud i ≡ some p
        → IsInside low high p
    unfolding point_at
    point_at-IsInside cloud (pos i) h e = All-get_elem? (IsInside low high) cloud i h e
    point_at-IsInside cloud (negsuc i) h e = absurd (ground arith)

    extend_all-IsBounded :
        (cloud : List (Point D)) (indices : List ℤ) (box : AxisAlignedBox D)
        → All (IsInside low high) cloud
        → IsBounded low high box
        → IsBounded low high (extend_all cloud indices box)
    unfolding extend_all
    extend_all-IsBounded cloud [] box inside h = h
    extend_all-IsBounded cloud (i ∷ indices) box inside h = elim (Option-cases (point_at cloud i)) [
      | inl e ↦ rw (extend_all, e) (extend_all-IsBounded cloud indices box inside h)
      | inr (p, e) ↦
          rw (extend_all, e)
            (extend_all-IsBounded cloud indices (extend_box p box) inside
              (extend_box-IsBounded p box (point_at-IsInside cloud i inside e) h))
    ]

    -- The bounds are numbers, between the infinities.
    abbrev pub IsRegion : Type 0
    IsRegion = IsBounded low high empty_box

    pub compute_aabb-IsBounded :
        (cloud : List (Point D)) (indices : List ℤ)
        → IsRegion
        → All (IsInside low high) cloud
        → IsBounded low high (compute_aabb cloud indices)
    unfolding compute_aabb
    compute_aabb-IsBounded cloud indices region inside =
        extend_all-IsBounded cloud indices empty_box inside region

  -- On each axis: the region, the box and the point, one within the other.
  pub record IsEnclosed (low high : Point D) (box : AxisAlignedBox D) (p : Point D) : Type 0 where
    pub low_x : d.le low.x box.min_x ≡ true
    pub x : (d.le box.min_x p.x ≡ true) × (d.le p.x box.max_x ≡ true)
    pub high_x : d.le box.max_x high.x ≡ true
    pub low_y : d.le low.y box.min_y ≡ true
    pub y : (d.le box.min_y p.y ≡ true) × (d.le p.y box.max_y ≡ true)
    pub high_y : d.le box.max_y high.y ≡ true
    pub low_z : d.le low.z box.min_z ≡ true
    pub z : (d.le box.min_z p.z ≡ true) × (d.le p.z box.max_z ≡ true)
    pub high_z : d.le box.max_z high.z ≡ true

  module _ (ieee : IsIeee D) (low high : Point D) where
    between_lem :
        (a m c n : D)
        → d.le a c ≡ true
        → IsBetween ieee m c n
        → (d.le m c ≡ true) × (d.le c n ≡ true)
    between_lem a m c n h k = ground (arith, ieee.le-ordered a c)

    enclosed_lem :
        (box : AxisAlignedBox D) (p : Point D)
        → IsBounded low high box
        → IsInside low high p
        → Holds ieee box p
        → IsEnclosed low high box p
    enclosed_lem box p h (x, _, y, _, z, _) k = record {
      low_x = h.min_x;
      x = between_lem low.x box.min_x p.x box.max_x x k.x;
      high_x = h.max_x;
      low_y = h.min_y;
      y = between_lem low.y box.min_y p.y box.max_y y k.y;
      high_y = h.max_y;
      low_z = h.min_z;
      z = between_lem low.z box.min_z p.z box.max_z z k.z;
      high_z = h.max_z;
    }

    used-All :
        (cloud : List (Point D)) (indices : List ℤ) (box : AxisAlignedBox D)
        → IsBounded low high box
        → All (IsInside low high) cloud
        → All (Holds ieee box) (used ieee cloud indices)
        → All (IsEnclosed low high box) (used ieee cloud indices)
    unfolding used
    used-All cloud [] box h inside holds = tt
    used-All cloud (i ∷ indices) box h inside holds = elim (Option-cases (point_at cloud i)) [
      | inl e ↦ rw (used, e) (used-All cloud indices box h inside (rw (used, e) at holds))
      | inr (p, e) ↦
          let (k, ks) : All (Holds ieee box) (p ∷ used ieee cloud indices) =
            rw (used, e) at holds in
          rw (used, e)
            (
              enclosed_lem box p h (point_at-IsInside low high cloud i inside e) k,
              used-All cloud indices box h inside ks,
            )
    ]

    pub compute_aabb-IsEnclosed :
        (cloud : List (Point D)) (indices : List ℤ)
        → IsRegion low high
        → All (IsInside low high) cloud
        → All (IsEnclosed low high (compute_aabb cloud indices)) (used ieee cloud indices)
    compute_aabb-IsEnclosed cloud indices region inside =
        used-All cloud indices (compute_aabb cloud indices)
          (compute_aabb-IsBounded low high cloud indices region inside) inside
          (compute_aabb-Holds ieee cloud indices)
