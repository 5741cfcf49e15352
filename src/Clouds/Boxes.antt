-- ===== src/Clouds/Boxes.antt =====
-- The box of a cluster holds its points.
use vehicle_detection_system.Common.{
  List, [], ◌∷◌, All, none, some, Option-cases, inl, inr, ◌≡◌, true, none, some, List, [], ◌∷◌, All,
  arith, Option-cases, inl, inr, if◌then◌else◌,
}
use vehicle_detection_system.Common.Int.{ℤ}
use vehicle_detection_system.Common.Double.{Double, IsIeee, max, min}
use vehicle_detection_system.Clouds.{
  Point, AxisAlignedBox, point_at, extend_box, extend_all, empty_box, compute_aabb,
}

module _ {D : Type 0} ⦃d : Double D⦄ (ieee : IsIeee D) where
  -- Not NaN.
  abbrev pub IsOrdered : D → Type 0
  IsOrdered a = d.eq a a ≡ true

  min_lem :
      (m c : D)
      → IsOrdered m
      → IsOrdered (min m c)
        × (d.le (min m c) m ≡ true)
        × (if d.eq c c then d.le (min m c) c ≡ true else Unit)
  unfolding min
  min_lem m c o = ground (
    arith,
    ieee.lt-ordered c m,
    ieee.lt-eq-not-le c m,
    ieee.le_total c m,
    ieee.le_refl c,
    ieee.le_refl m,
  )

  max_lem :
      (m c : D)
      → IsOrdered m
      → IsOrdered (max m c)
        × (d.le m (max m c) ≡ true)
        × (if d.eq c c then d.le c (max m c) ≡ true else Unit)
  unfolding max
  max_lem m c o = ground (
    arith,
    ieee.lt-ordered m c,
    ieee.lt-eq-not-le m c,
    ieee.le_total m c,
    ieee.le_refl c,
    ieee.le_refl m,
  )

  -- No bound is NaN.
  pub record IsProper (box : AxisAlignedBox D) : Type 0 where
    pub min_x : IsOrdered box.min_x
    pub min_y : IsOrdered box.min_y
    pub min_z : IsOrdered box.min_z
    pub max_x : IsOrdered box.max_x
    pub max_y : IsOrdered box.max_y
    pub max_z : IsOrdered box.max_z

  -- The coordinate, if it is not NaN, is between the bounds.
  abbrev pub IsBetween : D → D → D → Type 0
  IsBetween low c high = if d.eq c c then (d.le low c ≡ true) × (d.le c high ≡ true) else Unit

  pub record Holds (box : AxisAlignedBox D) (p : Point D) : Type 0 where
    pub x : IsBetween box.min_x p.x box.max_x
    pub y : IsBetween box.min_y p.y box.max_y
    pub z : IsBetween box.min_z p.z box.max_z

  -- The outer box has all of the inner one.
  pub record IsWithin (inner outer : AxisAlignedBox D) : Type 0 where
    pub min_x : d.le outer.min_x inner.min_x ≡ true
    pub min_y : d.le outer.min_y inner.min_y ≡ true
    pub min_z : d.le outer.min_z inner.min_z ≡ true
    pub max_x : d.le inner.max_x outer.max_x ≡ true
    pub max_y : d.le inner.max_y outer.max_y ≡ true
    pub max_z : d.le inner.max_z outer.max_z ≡ true

  extend_box-IsProper :
      (p : Point D) (box : AxisAlignedBox D) → IsProper box → IsProper (extend_box p box)
  unfolding extend_box
  extend_box-IsProper p box h = record {
    min_x = (min_lem box.min_x p.x h.min_x).0;
    min_y = (min_lem box.min_y p.y h.min_y).0;
    min_z = (min_lem box.min_z p.z h.min_z).0;
    max_x = (max_lem box.max_x p.x h.max_x).0;
    max_y = (max_lem box.max_y p.y h.max_y).0;
    max_z = (max_lem box.max_z p.z h.max_z).0;
  }

  extend_box-IsWithin :
      (p : Point D) (box : AxisAlignedBox D) → IsProper box → IsWithin box (extend_box p box)
  unfolding extend_box
  extend_box-IsWithin p box h = record {
    min_x = (min_lem box.min_x p.x h.min_x).1;
    min_y = (min_lem box.min_y p.y h.min_y).1;
    min_z = (min_lem box.min_z p.z h.min_z).1;
    max_x = (max_lem box.max_x p.x h.max_x).1;
    max_y = (max_lem box.max_y p.y h.max_y).1;
    max_z = (max_lem box.max_z p.z h.max_z).1;
  }

  IsBetween_lem :
      (low c high : D)
      → (if d.eq c c then d.le low c ≡ true else Unit)
      → (if d.eq c c then d.le c high ≡ true else Unit)
      → IsBetween low c high
  IsBetween_lem low c high h k = ground arith

  extend_box-Holds :
      (p : Point D) (box : AxisAlignedBox D) → IsProper box → Holds (extend_box p box) p
  unfolding extend_box
  extend_box-Holds p box h =
      let (_, _, a) = min_lem box.min_x p.x h.min_x in
      let (_, _, b) = max_lem box.max_x p.x h.max_x in
      let (_, _, c) = min_lem box.min_y p.y h.min_y in
      let (_, _, e) = max_lem box.max_y p.y h.max_y in
      let (_, _, f) = min_lem box.min_z p.z h.min_z in
      let (_, _, g) = max_lem box.max_z p.z h.max_z in
      record {
        x = IsBetween_lem _ p.x _ a b;
        y = IsBetween_lem _ p.y _ c e;
        z = IsBetween_lem _ p.z _ f g;
      }

  IsBetween-trans :
      (low c high low' high' : D)
      → d.le low' low ≡ true
      → d.le high high' ≡ true
      → IsBetween low c high
      → IsBetween low' c high'
  IsBetween-trans low c high low' high' k l h =
      ground (arith, ieee.le_trans low' low c, ieee.le_trans c high high')

  IsWithin-Holds :
      (inner outer : AxisAlignedBox D) (p : Point D)
      → IsWithin inner outer
      → Holds inner p
      → Holds outer p
  IsWithin-Holds inner outer p w h = record {
    x = IsBetween-trans _ p.x _ _ _ w.min_x w.max_x h.x;
    y = IsBetween-trans _ p.y _ _ _ w.min_y w.max_y h.y;
    z = IsBetween-trans _ p.z _ _ _ w.min_z w.max_z h.z;
  }

  -- What the loop keeps and what it adds.
  extend_all-keeps :
      (cloud : List (Point D)) (indices : List ℤ) (box : AxisAlignedBox D) (p : Point D)
      → IsProper box
      → Holds box p
      → Holds (extend_all cloud indices box) p
  unfolding extend_all
  extend_all-keeps cloud [] box p h k = k
  extend_all-keeps cloud (idx ∷ indices) box p h k = elim (Option-cases (point_at cloud idx)) [
    | inl e ↦ rw (extend_all, e) (extend_all-keeps cloud indices box p h k)
    | inr (q, e) ↦
        rw (extend_all, e)
          (extend_all-keeps cloud indices (extend_box q box) p (extend_box-IsProper q box h)
            (IsWithin-Holds box (extend_box q box) p (extend_box-IsWithin q box h) k))
  ]

  -- The points that the indices name, those without a point left out.
  unfoldable pub used : List (Point D) → List ℤ → List (Point D)
  used cloud [] = []
  used cloud (idx ∷ indices) = elim (point_at cloud idx) [
    | none ↦ used cloud indices
    | some p ↦ p ∷ used cloud indices
  ]

  extend_all-Holds :
      (cloud : List (Point D)) (indices : List ℤ) (box : AxisAlignedBox D)
      → IsProper box
      → All (Holds (extend_all cloud indices box)) (used cloud indices)
  unfolding extend_all used
  extend_all-Holds cloud [] box h = tt
  extend_all-Holds cloud (idx ∷ indices) box h = elim (Option-cases (point_at cloud idx)) [
    | inl e ↦ rw (extend_all, used, e) (extend_all-Holds cloud indices box h)
    | inr (q, e) ↦
        let next = extend_box-IsProper q box h in
        rw (extend_all, used, e)
          (
            extend_all-keeps cloud indices (extend_box q box) q next (extend_box-Holds q box h),
            extend_all-Holds cloud indices (extend_box q box) next,
          )
  ]

  -- With the order of IEEE 754: the box of a cluster holds each point that the indices name, in each
  -- coordinate that is not NaN; indices that are negative or beyond the cloud name none.
  pub compute_aabb-Holds :
      (cloud : List (Point D)) (indices : List ℤ)
      → All (Holds (compute_aabb cloud indices)) (used cloud indices)
  unfolding compute_aabb
  compute_aabb-Holds cloud indices = extend_all-Holds cloud indices empty_box (record {
    min_x = ieee.infinity_ordered;
    min_y = ieee.infinity_ordered;
    min_z = ieee.infinity_ordered;
    max_x = ieee.minus_infinity_ordered;
    max_y = ieee.minus_infinity_ordered;
    max_z = ieee.minus_infinity_ordered;
  })
