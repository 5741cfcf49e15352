-- ===== src/Detector/Messages.antt =====
-- The messages that the node publishes, with the members that it sets; what it leaves at its default is
-- left out.
use vehicle_detection_system.Common.{ℕ, List, [], ◌∷◌, Bytes, codes, decimal}
use vehicle_detection_system.Common.Int.{ℤ}
use vehicle_detection_system.Common.Double.{Double, max}
use vehicle_detection_system.Clouds.{AxisAlignedBox, zero_double, dx, dy, dz, cx, cy, cz}
use vehicle_detection_system.Sender.Messages.{Vector3}

pub record Header : Type 0 where
  pub sec : ℤ
  pub nanosec : ℕ
  pub frame_id : Bytes

-- `content` is all of a `PointCloud2` but its header.
pub record PointCloud2 (C : Type 0) : Type 0 where
  pub header : Header
  pub content : C

pub record Quaternion (D : Type 0) : Type 0 where
  pub x : D
  pub y : D
  pub z : D
  pub w : D

pub record Pose (D : Type 0) : Type 0 where
  pub position : Vector3 D
  pub orientation : Quaternion D

pub record ObjectHypothesisWithPose (D : Type 0) : Type 0 where
  pub class_id : Bytes
  pub score : D
  pub pose : Pose D

pub record Detection3D (D : Type 0) : Type 0 where
  pub header : Header
  pub id : Bytes
  pub center : Pose D
  pub size : Vector3 D
  pub results : List (ObjectHypothesisWithPose D)

pub record Detection3DArray (D : Type 0) : Type 0 where
  pub header : Header
  pub detections : List (Detection3D D)

pub record ColorRgba (D : Type 0) : Type 0 where
  pub r : D
  pub g : D
  pub b : D
  pub a : D

-- A marker is one that deletes all, or a cube that is added.
pub data Marker (D : Type 0) : Type 0 where
  delete_all : Header → Bytes → Marker D
  cube :
      (header : Header) (ns : Bytes) (id : ℕ) (pose : Pose D) (scale : Vector3 D)
      (color : ColorRgba D)
      → Marker D

-- What goes to the four publishers.
pub data Publication (D C : Type 0) : Type 0 where
  filtered : PointCloud2 C → Publication D C
  cluster_markers : List (Marker D) → Publication D C
  detections : Detection3DArray D → Publication D C
  vehicle_markers : List (Marker D) → Publication D C

abbrev pub mvp_detection_class : Bytes
mvp_detection_class = codes "car"

module _ {D : Type 0} ⦃d : Double D⦄ where
  abbrev pub mvp_detection_confidence : D
  mvp_detection_confidence = d.literal (codes "0.8")

  -- The centre of a box, without a rotation.
  unfoldable pub center_of : AxisAlignedBox D → Pose D
  center_of box = record {
    position = record { x = cx box; y = cy box; z = cz box };
    orientation = record {
      x = zero_double;
      y = zero_double;
      z = zero_double;
      w = d.literal (codes "1.0");
    };
  }

  -- The detection of a vehicle, by its number in the frame.
  unfoldable pub make_detection : Header → ℕ → AxisAlignedBox D → Detection3D D
  unfolding center_of
  make_detection header id box = record {
    header = header;
    id = decimal id;
    center = center_of box;
    size = record { x = dx box; y = dy box; z = dz box };
    results =
        record {
          class_id = mvp_detection_class;
          score = mvp_detection_confidence;
          pose = center_of box;
        }
        ∷ [];
  }

  unfoldable pub make_box_marker : Header → Bytes → ℕ → AxisAlignedBox D → ColorRgba D → Marker D
  unfolding center_of
  make_box_marker header ns id box color =
      let least = d.literal (codes "0.05") in
      cube header ns id (center_of box)
        (record { x = max (dx box) least; y = max (dy box) least; z = max (dz box) least }) color

  abbrev pub cluster_color : ColorRgba D
  cluster_color = record {
    r = d.literal (codes "0.2f");
    g = d.literal (codes "0.6f");
    b = d.literal (codes "1.0f");
    a = d.literal (codes "0.4f");
  }

  abbrev pub vehicle_color : ColorRgba D
  vehicle_color = record {
    r = d.literal (codes "0.1f");
    g = d.literal (codes "1.0f");
    b = d.literal (codes "0.1f");
    a = d.literal (codes "0.7f");
  }
