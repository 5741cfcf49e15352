-- ===== src/Writer/Lines.antt =====
-- What a reader of the lines of the file gets back.
use vehicle_detection_system.Common.{
  true, List, [], ◌∷◌, ◌++◌, Bytes, if◌then◌else◌, ap, ◌≡◌, refl, inl, inr, arith, Bool-cases, ◌==◌,
  map, All, append-nil, append_assoc, ≟_refl, ◌∙◌,
}
use vehicle_detection_system.Common.Double.{Double}
use vehicle_detection_system.Json.Payload.{DetectionJsonPayload}
use vehicle_detection_system.Json.EscapeLaws.{IsPlain}
use vehicle_detection_system.Json.Serialize.{serialize_detections}
use vehicle_detection_system.Json.LineLaws.{PrintsPlain, serialize_detections-IsPlain}
use vehicle_detection_system.Writer.{Writer, Files, extend, delivered, line_of, append, is_open}
use vehicle_detection_system.Writer.Laws.{IsStable, append_lem}

-- The lines of a text that end in a newline, without it, and what follows the last newline. `line` is
-- the begun line.
unfoldable pub split_lines : Bytes → Bytes → List Bytes × Bytes
split_lines line [] = ([], line)
split_lines line (c ∷ text) =
    let longer = split_lines (line ++ c ∷ []) text in
    let next = split_lines [] text in if c == 10 then (line ∷ next.0, next.1) else longer

abbrev pub lines : Bytes → List Bytes × Bytes
lines text = split_lines [] text

-- A text of whole lines, and one more line.
split_lines-plain :
    (line text : Bytes)
    → All IsPlain text
    → split_lines line (text ++ (10 ∷ [])) ≡ ((line ++ text) ∷ [], [])
unfolding split_lines
split_lines-plain line [] h = rw (append-nil line) refl
split_lines-plain line (c ∷ text) (h, hs) =
    rw (split_lines-plain (line ++ c ∷ []) text hs, append_assoc line (c ∷ []) text) (ground arith)

split_lines-append :
    (line text more : Bytes)
    → let (ls, begun) = split_lines line text in
      let (rest, end) = split_lines begun more in
      split_lines line (text ++ more) ≡ (ls ++ rest, end)
unfolding split_lines
split_lines-append line [] more = refl
split_lines-append line (c ∷ text) more = elim (Bool-cases (c == 10)) [
  | inl e ↦ rw e (ground (arith, split_lines-append [] text more))
  | inr e ↦ rw e (split_lines-append (line ++ c ∷ []) text more)
]

module _ {D : Type 0} ⦃d : Double D⦄ where
  pub append-delivered :
      (payload : DetectionJsonPayload D) (w : Writer) (files : Files)
      → IsStable w
      → is_open w ≡ true
      → append delivered payload w files ≡ (true, w, extend w.path (line_of payload) files)
  append-delivered payload w files stable ready =
      let (_, answer, same, _) = append_lem delivered payload w files stable in ground arith

  pub lines-extend :
      PrintsPlain D
      → (payload : DetectionJsonPayload D) (path : Bytes) (files : Files) (before : List Bytes)
      → lines (files path) ≡ (before, [])
      → lines (extend path (line_of payload) files path)
        ≡ (before ++ (serialize_detections payload ∷ []), [])
  lines-extend plain payload path files before e =
      rw
        (
          ≟_refl path,
          split_lines-append [] (files path) (line_of payload),
          e,
          split_lines-plain [] (serialize_detections payload)
              (serialize_detections-IsPlain plain payload),
        )
        refl

  -- The appends of a list of payloads, each line of which is delivered.
  unfoldable pub append_all : List (DetectionJsonPayload D) → Writer → Files → Writer × Files
  append_all [] w files = (w, files)
  append_all (payload ∷ payloads) w files =
      let (_, w', files') = append delivered payload w files in append_all payloads w' files'

  -- Provided that "%.6f" prints no control character: if the file of an open writer consists of whole
  -- lines, then after the payloads are appended and delivered it consists of those lines and then,
  -- in order, of one line for each payload, which is its JSON text; no payload is split into two
  -- lines or joined with another.
  pub lines-append_all :
      PrintsPlain D
      → (payloads : List (DetectionJsonPayload D)) (w : Writer) (files : Files)
        (before : List Bytes)
      → IsStable w
      → is_open w ≡ true
      → lines (files w.path) ≡ (before, [])
      → lines ((append_all payloads w files).1 w.path)
        ≡ (before ++ map serialize_detections payloads, [])
  unfolding append_all
  lines-append_all plain [] w files before stable ready e = e ∙ rw (append-nil before) refl
  lines-append_all plain (payload ∷ payloads) w files before stable ready e =
      let longer = extend w.path (line_of payload) files in
      rw (append_all, append-delivered payload w files stable ready)
        (lines-append_all plain payloads w longer (before ++ (serialize_detections payload ∷ []))
            stable ready (lines-extend plain payload w.path files before e)
          ∙ ap (λ ls. (ls, []))
              (append_assoc before (serialize_detections payload ∷ [])
                (map serialize_detections payloads)))
