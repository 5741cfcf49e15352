-- ===== src/Sender/MessageLaws.antt =====
-- What the items of a payload are like.
use vehicle_detection_system.Common.{◌≡◌, refl, true, List, [], ◌∷◌, All, map, arith}
use vehicle_detection_system.Common.Double.{Double, IsIeee, max, min}
use vehicle_detection_system.Json.Payload.{DetectionJsonItem}
use vehicle_detection_system.Sender.Messages.{
  Detection3D, Detection3DArray, to_json_item, to_json_payload,
}

module _ {D : Type 0} ⦃d : Double D⦄ (ieee : IsIeee D) where
  min-le-max : (a b : D) → d.eq a a ≡ true → d.eq b b ≡ true → d.le (min a b) (max a b) ≡ true
  unfolding min max
  min-le-max a b o k = ground (
    arith,
    ieee.lt-eq-not-le a b,
    ieee.lt-eq-not-le b a,
    ieee.le_total a b,
    ieee.le_refl a,
    ieee.le_refl b,
  )

  -- Neither extent of the footprint is NaN.
  abbrev pub IsSized : Detection3D D → Type 0
  IsSized det = (d.eq det.size.x det.size.x ≡ true) × (d.eq det.size.y det.size.y ≡ true)

  -- One item for each detection, in order, of the same name, and no wider than it is long.
  abbrev pub Describes : List (Detection3D D) → List (DetectionJsonItem D) → Type 0
  Describes [] [] = Unit
  Describes (det ∷ dets) (item ∷ items) =
      (item.id ≡ det.id) × (d.le item.width item.length ≡ true) × Describes dets items
  Describes _ _ = ⊥

  items-Describes :
      (dets : List (Detection3D D)) → All IsSized dets → Describes dets (map to_json_item dets)
  unfolding to_json_item
  items-Describes [] h = tt
  items-Describes (det ∷ dets) ((x, y), hs) =
      (refl, min-le-max det.size.x det.size.y x y, items-Describes dets hs)

  -- With the order of IEEE 754, and if no extent in x or y of a detection is NaN: the payload has one
  -- item for each detection of the message, in their order, with its id, and no item is wider than it
  -- is long.
  pub to_json_payload-Describes :
      (msg : Detection3DArray D)
      → All IsSized msg.detections
      → Describes msg.detections (to_json_payload msg).detections
  unfolding to_json_payload
  to_json_payload-Describes msg h = items-Describes msg.detections h
