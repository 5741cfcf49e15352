-- ===== src/Sender/Saved.antt =====
-- What the node saves: over any run, one line for each message, whatever the send mode.
use vehicle_detection_system.Common.{
  ◌≡◌, refl, sym, ap, ◌∙◌, subst, Bool, true, List, [], ◌∷◌, ◌++◌, Bytes, map, All, arith,
  append_assoc, append-nil, if_ind,
}
use vehicle_detection_system.Sender.Soundness.{start-IsSound}
use vehicle_detection_system.Common.Results.{ok}
use vehicle_detection_system.Common.Double.{Double}
use vehicle_detection_system.Json.LineLaws.{PrintsPlain}
use vehicle_detection_system.Json.Serialize.{serialize_detections}
use vehicle_detection_system.Writer.{Writer, Files, delivered, append, is_open, extend, line_of}
use vehicle_detection_system.Writer.Laws.{IsStable}
use vehicle_detection_system.Writer.Lines.{lines, append-delivered, lines-extend}
use vehicle_detection_system.Sender.Settings.{Declared}
use vehicle_detection_system.Sender.Messages.{Detection3DArray, to_json_payload}
use vehicle_detection_system.Sender.Node.{
  start, Node, Event, parameters, detections, worker_turn, destroyed, step, run, save, shut_down,
}
use vehicle_detection_system.Sender.Quiet.{
  IsQuiet, messages, HasSameFile, update-HasSameFile, turn-HasSameFile, detections-HasSameFile,
}

-- Saving is on, and the open file holds whole lines.
record IsSaving {D : Type 0} (path : Bytes) (ls : List Bytes) (n : Node D) : Type 0 where
  on : n.snapshot.save_results ≡ true
  stable : IsStable n.writer
  ready : is_open n.writer ≡ true
  path_eq : n.writer.path ≡ path
  whole : lines (n.files path) ≡ (ls, [])

module _ {D : Type 0} where
  HasSameFile-IsSaving :
      (path : Bytes) (ls : List Bytes) (n m : Node D)
      → HasSameFile n m
      → IsSaving path ls n
      → IsSaving path ls m
  HasSameFile-IsSaving path ls n m (writer, files, saves) h = record {
    on = saves ∙ h.on;
    stable = subst IsStable (sym writer) h.stable;
    ready = ap is_open writer ∙ h.ready;
    path_eq = ap (λ (w : Writer). w.path) writer ∙ h.path_eq;
    whole = ap (λ (f : Files). lines (f path)) files ∙ h.whole;
  }

module _ {D : Type 0} ⦃d : Double D⦄ where
  -- The text of a message.
  abbrev pub text_of : Detection3DArray D → Bytes
  text_of msg = serialize_detections (to_json_payload msg)

  save-IsSaving :
      PrintsPlain D
      → (path : Bytes) (ls : List Bytes) (msg : Detection3DArray D) (n : Node D)
      → IsSaving path ls n
      → IsSaving path (ls ++ (text_of msg ∷ [])) (save delivered msg n)
  unfolding save
  save-IsSaving plain path ls msg n h =
      let payload = to_json_payload msg in
      let done = append delivered payload n.writer n.files in
      let written = append-delivered payload n.writer n.files h.stable h.ready in
      let writer : done.1 ≡ n.writer = ap (λ (r : Bool × Writer × Files). r.1) written in
      let files : done.2 ≡ extend n.writer.path (line_of payload) n.files =
        ap (λ (r : Bool × Writer × Files). r.2) written in
      if_ind (IsSaving path (ls ++ (text_of msg ∷ []))) n.snapshot.save_results
        (record n { writer = done.1; files = done.2 }) n
        (λ e. record {
          on = h.on;
          stable = subst IsStable (sym writer) h.stable;
          ready = ap is_open writer ∙ h.ready;
          path_eq = ap (λ (w : Writer). w.path) writer ∙ h.path_eq;
          whole =
              ap (λ (f : Files). lines (f path)) files
              ∙ ap (λ p. lines (extend p (line_of payload) n.files path)) h.path_eq
              ∙ lines-extend plain payload path n.files ls h.whole;
        })
        (λ e. absurd (ground (arith, h.on)))

  lines_after : List Bytes → Event D → List Bytes
  lines_after ls (detections fate msg) = ls ++ (text_of msg ∷ [])
  lines_after ls (parameters opens params) = ls
  lines_after ls worker_turn = ls
  lines_after ls destroyed = ls

  step-IsSaving :
      PrintsPlain D
      → (path : Bytes) (ls : List Bytes) (e : Event D) (n : Node D) → IsQuiet e
      → IsSaving path ls n
      → IsSaving path (lines_after ls e) (step e n)
  unfolding step lines_after shut_down
  step-IsSaving plain path ls (parameters opens params) n q h =
      HasSameFile-IsSaving path ls n _ (update-HasSameFile opens params n q) h
  step-IsSaving plain path ls (detections fate msg) n q h =
      HasSameFile-IsSaving path (ls ++ (text_of msg ∷ [])) (save fate msg n) _
        (detections-HasSameFile fate msg n)
        (subst (λ f. IsSaving path (ls ++ (text_of msg ∷ [])) (save f msg n)) (sym q)
          (save-IsSaving plain path ls msg n h))
  step-IsSaving plain path ls worker_turn n q h =
      HasSameFile-IsSaving path ls n _ (turn-HasSameFile n) h
  step-IsSaving plain path ls destroyed n q h =
      HasSameFile-IsSaving path ls n _ (refl, refl, refl) h

  texts_lem :
      (ls : List Bytes) (e : Event D) (events : List (Event D))
      → lines_after ls e ++ map text_of (messages events)
        ≡ ls ++ map text_of (messages (e ∷ events))
  unfolding lines_after messages
  texts_lem ls (detections fate msg) events = append_assoc ls (text_of msg ∷ []) _
  texts_lem ls (parameters opens params) events = refl
  texts_lem ls worker_turn events = refl
  texts_lem ls destroyed events = refl

  run-IsSaving :
      PrintsPlain D
      → (path : Bytes) (ls : List Bytes) (events : List (Event D)) (n : Node D) → All IsQuiet events
      → IsSaving path ls n
      → IsSaving path (ls ++ map text_of (messages events)) (run events n)
  unfolding run messages
  run-IsSaving plain path ls [] n q h = rw (append-nil ls) h
  run-IsSaving plain path ls (e ∷ events) n (q, qs) h =
      subst (λ r. IsSaving path r (run events (step e n))) (texts_lem ls e events)
        (run-IsSaving plain path (lines_after ls e) events (step e n) qs
          (step-IsSaving plain path ls e n q h))

  -- "%.6f" prints no control character. The node has started with saving on and its file open, which holds
  -- whole lines, and each line written reaches the file. Whatever messages come, however the mode, the
  -- endpoint and the like are updated, whatever the worker does and after a shutdown too: the file holds
  -- those lines and then one line for each message that came, in order, which is its JSON text.
  pub run_saves :
      PrintsPlain D
      → (opens : Bool) (p : Declared) (files : Files) (before : List Bytes)
        (events : List (Event D)) {n : Node D}
      → start opens p files ≡ ok n
      → n.snapshot.save_results ≡ true
      → is_open n.writer ≡ true
      → lines (n.files n.writer.path) ≡ (before, [])
      → All IsQuiet events
      → lines ((run events n).files n.writer.path) ≡ (before ++ map text_of (messages events), [])
  run_saves plain opens p files before events {n} started on ready whole quiet =
      (run-IsSaving plain n.writer.path before events n quiet (record {
        on = on;
        stable = (start-IsSound opens p files n started).stable;
        ready = ready;
        path_eq = refl;
        whole = whole;
      })).whole
