-- ===== src/Writer/Laws.antt =====
-- The states of the writer, and what each of its operations does on every branch.
use vehicle_detection_system.Common.{
  Bool, true, false, not, ◌&&◌, Option, none, some, [], Bytes, is_empty, if◌then◌else◌, ◌≡◌, refl,
  arith,
}
use mathlib.Core.Option.{some-injective}
use vehicle_detection_system.Common.Double.{Double}
use vehicle_detection_system.Json.Payload.{DetectionJsonPayload}
use vehicle_detection_system.Writer.{
  DetectionResultWriterConfig, DetectionResultFormat, Writer, new_writer, Files, extend, configure,
  Delivery, delivered, write_failed, flush_failed, write_line, line_of, append, is_open,
}

-- A disabled writer holds no file; an enabled one has the file of its path open and no error noted.
abbrev pub IsStable : Writer → Type 0
IsStable w =
    if w.enabled
    then ((w.out ≡ some w.path) × (is_empty w.path ≡ false) × (w.last_error ≡ []))
    else (w.out ≡ none)

new_writer-IsStable : IsStable new_writer
new_writer-IsStable = refl

-- Whatever the writer did before, `configure` leaves it stable; it succeeds exactly if saving is off,
-- or the path is not empty and the file opens; the writer is open exactly if it succeeds with saving
-- on, and then has the path and the format of the configuration; its last error is the reason of the
-- result.
pub configure_lem :
    (opens : Bool) (config : DetectionResultWriterConfig)
    → let (r, w) = configure opens config in
      IsStable w
      × (r.ok ≡ (if config.enabled then not (is_empty config.path) && opens else true))
      × (is_open w ≡ (config.enabled && r.ok))
      × (w.last_error ≡ r.reason)
      × (if is_open w then (w.path ≡ config.path) × (w.format ≡ config.format) else Unit)
unfolding configure is_open
configure_lem opens config = ground arith

-- The answer of an append to an open writer.
abbrev pub arrives : Delivery → Bool
arrives delivered = true
arrives (write_failed n) = false
arrives (flush_failed n) = false

module _ {D : Type 0} ⦃d : Double D⦄ where
  -- The four parts of what an append does.
  abbrev pub Appends : Delivery → DetectionJsonPayload D → Writer → Files → Type 0
  Appends fate payload w files =
      let (written, w', files') = append fate payload w files in
      IsStable w'
      × (written ≡ (is_open w && arrives fate))
      × (if written
          then (w' ≡ w) × (files' ≡ extend w.path (line_of payload) files)
          else (is_open w' ≡ false))
      × (if is_open w then (is_empty w'.last_error ≡ written) else (w' ≡ w) × (files' ≡ files))

  append-fields :
      (fate : Delivery) (payload : DetectionJsonPayload D) (enabled : Bool)
      (format : DetectionResultFormat) (path : Bytes) (out : Option Bytes) (e : Bytes)
      (files : Files)
      → let w : Writer = record {
        enabled = enabled;
        format = format;
        path = path;
        out = out;
        last_error = e;
      } in
        IsStable w → Appends fate payload w files
  unfolding append is_open write_line
  append-fields fate payload false format path none e files stable = ground arith
  append-fields fate payload false format path (some file) e files stable = absurd (ground arith)
  append-fields fate payload true format path none e files stable = absurd (ground arith)
  append-fields delivered payload true format path (some file) e files (same, full, fine) =
      rw (some-injective file path same) (ground arith)
  append-fields (write_failed n) payload true format path (some file) e files (same, full, fine) =
      ground arith
  append-fields (flush_failed n) payload true format path (some file) e files (same, full, fine) =
      ground arith

  -- An append to a stable writer leaves it stable. It answers true exactly if the writer is open and
  -- the line is delivered; then the file of the path is longer by the line, all others are as
  -- before, and so is the writer. Otherwise the writer is not open afterwards. A writer that was
  -- open has an error to report exactly if the answer is false; if it was not open, nothing has
  -- changed.
  pub append_lem :
      (fate : Delivery) (payload : DetectionJsonPayload D) (w : Writer) (files : Files)
      → IsStable w
      → Appends fate payload w files
  append_lem fate payload w files stable =
      append-fields fate payload w.enabled w.format w.path w.out w.last_error files stable
