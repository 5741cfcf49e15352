-- ===== src/Sender/Posted.antt =====
-- What has reached the server when the worker has posted a body: from the messages that came to the node,
-- over the queue, to what the server reads.
use vehicle_detection_system.Common.Search.{Lacks}
use vehicle_detection_system.Http.UrlClean.{parsed-HasNoReturn}
use mathlib.Core.Option.{some-injective}
use vehicle_detection_system.Common.{map, zero, ◌++◌, ◌∷◌}
use vehicle_detection_system.Http.Url.{parsed}
use vehicle_detection_system.Sender.Addressed.{IsAddressed}
use vehicle_detection_system.Sender.Thread.{Outcome, System, IsReachable, begins, moves}
use vehicle_detection_system.Sender.Trace.{in_hand, first_of, events_of, reachable-IsExplained}
use vehicle_detection_system.Sender.Outcomes.{IsPosted, reachable-IsPosted}
use vehicle_detection_system.Common.{
  ℕ, suc, ◌^◌, ◌<◌, ◌≡◌, refl, sym, ap, ◌∙◌, subst, Bool, true, some, List, [], Bytes, All,
  All-get_elem?, get_elem?, arith, append-nil, inl, inr,
}
use vehicle_detection_system.Common.Int.{pos_part}
use vehicle_detection_system.Common.Double.{Double}
use vehicle_detection_system.Common.Results.{Then, Result-cases}
use vehicle_detection_system.Json.Tree.{read_value}
use vehicle_detection_system.Json.TreeLaws.{size}
use vehicle_detection_system.Json.PayloadText.{payload_tree, IsPrintable}
use vehicle_detection_system.Json.PayloadTree.{PrintsFixed, read_value-serialize_detections}
use vehicle_detection_system.Http.Url.{HttpUrl}
use vehicle_detection_system.Http.Post.{HttpPostResult, Script, http_post_json, request}
use vehicle_detection_system.Http.PostEnds.{http_post_json-wire}
use vehicle_detection_system.Http.Reader.{
  Asked, read_request, HasNoReturn, read_request-request, first_line, host_of,
}
use vehicle_detection_system.Writer.{Files}
use vehicle_detection_system.Sender.Settings.{
  Snapshot, Declared, build_snapshot_from_parameters, enforce_initial_parameters,
}
use vehicle_detection_system.Sender.Messages.{Detection3DArray, to_json_payload}
use vehicle_detection_system.Sender.Node.{
  Node, start, post_body, posted, ensure_http_worker_started, apply_writer_config,
}
use vehicle_detection_system.Sender.Attempts.{post_body-LastReturns}
use vehicle_detection_system.Sender.Texts.{Brings, IsTextOf, taken-All}

start-empty :
    (D : Type 0) (opens : Bool) (p : Declared) (files : Files)
    → Then (λ (n : Node D). n.queue ≡ []) (start {D = D} opens p files)
unfolding start ensure_http_worker_started apply_writer_config
start-empty D opens p files =
    let s = build_snapshot_from_parameters p in
    elim (Result-cases (enforce_initial_parameters s)) [
      | inl (u, e) ↦ rw (start, e) (ground arith)
      | inr (message, e) ↦ rw (start, e) tt
    ]

module _ {D : Type 0} ⦃d : Double D⦄ where
  first_of-empty : {sys : System D} (r : IsReachable sys) → (first_of r).queue ≡ []
  unfolding first_of
  first_of-empty (begins opens p files {n} e) =
      subst (Then (λ (m : Node D). m.queue ≡ [])) e (start-empty D opens p files)
  first_of-empty (moves r m) = first_of-empty r

All-map_at :
    (P : Bytes → Type 0) (outcomes : List Outcome) (rest : List Bytes) (i : ℕ) {o : Outcome}
    → All P (map (λ (x : Outcome). x.body) outcomes ++ rest)
    → get_elem? outcomes i ≡ some o
    → P o.body
All-map_at P [] rest i h e = absurd (ground arith)
All-map_at P (x ∷ outcomes) rest zero (h, hs) e =
    subst (λ (o : Outcome). P o.body) (some-injective _ _ e) h
All-map_at P (x ∷ outcomes) rest (suc i) (h, hs) e = All-map_at P outcomes rest i hs e

-- A body that was posted was not skipped.
posted-valid :
    (scripts : ℕ → Script) (s : Snapshot) (body : Bytes) {out : HttpPostResult × ℕ}
    → post_body scripts s body ≡ posted out
    → IsAddressed s
    → parsed s.http_endpoint_url ≡ some s.http_url
unfolding post_body
posted-valid scripts s body e addressed = ground arith

-- A stamp of `builtin_interfaces/Time`: 32-bit seconds, less than 10^9 nanoseconds.
abbrev pub IsStamped : {D : Type 0} → Detection3DArray D → Type 0
IsStamped msg = (pos_part msg.sec < 2 ^ 31) × (msg.nanosec < 1000000000)

-- A message with such a stamp, whose numbers "%.6f" prints with less than 32 bytes.
abbrev pub IsSendable : {D : Type 0} ⦃d : Double D⦄ → Detection3DArray D → Type 0
IsSendable msg = IsStamped msg × IsPrintable (to_json_payload msg)

module _ {D : Type 0} ⦃d : Double D⦄ (tokens : PrintsFixed D) (Q : Detection3DArray D → Type 0)
    (sendable : (msg : Detection3DArray D) → Q msg → IsSendable msg) where
  -- What the server reads of the request on the wire, and a reader of JSON of its body.
  pub record IsReceived (url : HttpUrl) (wire : Bytes) (msg : Detection3DArray D) : Type 0 where
    pub asked : Asked
    pub request_read : read_request 8 wire ≡ some (asked, [])
    pub first_line_lem : asked.request_line ≡ first_line url
    pub host_lem : asked.host ≡ host_of url
    pub kind : Q msg
    pub payload_read :
        let tree = payload_tree (to_json_payload msg) in
        read_value (size tree) asked.body ≡ some (tree, [])

  -- The outcome is that of the attempts for the body, of which the last gave the result; what that one has
  -- put on the wire is received as a message.
  pub record IsDelivered (o : Outcome) (r : HttpPostResult) (k : ℕ) : Type 0 where
    pub address : parsed o.snapshot.http_endpoint_url ≡ some o.snapshot.http_url
    pub attempts : post_body o.scripts o.snapshot o.body ≡ posted (r, k)
    pub last : ℕ
    pub last_lem : k ≡ suc last
    pub returns : (http_post_json (o.scripts last) o.snapshot.http_url o.body).result ≡ some r
    pub message : Detection3DArray D
    pub received :
        IsReceived o.snapshot.http_url
          (http_post_json (o.scripts last) o.snapshot.http_url o.body).wire
          message

  read_lem :
      (url : HttpUrl) (body wire : Bytes)
      → HasNoReturn url
      → wire ≡ request url body
      → IsTextOf Q body
      → (msg : Detection3DArray D) × IsReceived url wire msg
  unfolding to_json_payload
  read_lem url body wire clean sent (msg, q, e) =
      let ((seconds, nanoseconds), fits) = sendable msg q in
      (
        msg,
        record {
          asked = record { request_line = first_line url; host = host_of url; body = body };
          request_read =
              ap (read_request 8) (sent ∙ sym (append-nil (request url body)))
              ∙ read_request-request url body 8 [] (omega arith) clean;
          first_line_lem = refl;
          host_lem = refl;
          kind = q;
          payload_read =
              ap (read_value (size (payload_tree (to_json_payload msg)))) e
              ∙ read_value-serialize_detections tokens (to_json_payload msg) _ seconds nanoseconds
                  fits (omega arith);
        },
      )

  -- A node that has started gets messages of one kind, with stamps as ROS has them and numbers that "%.6f"
  -- prints as C says, with less than 32 bytes, among any other events, and its worker interleaves with
  -- these in any way. If the worker is done with a body and has ended with the success `r` after `k`
  -- attempts, and the endpoint has no carriage return: the address was that of the endpoint;
  -- of the attempts for this body, as the system answered them, the last is number `k - 1` and gave `r`;
  -- and it has put on the wire a request that a server reads to its end, for that path and host, whose
  -- body a reader of JSON reads to its end as the payload of one of these messages.
  pub outcome-IsReceived :
      {sys : System D} (reached : IsReachable sys) (i : ℕ) {o : Outcome} {r : HttpPostResult}
      {k : ℕ}
      → All (Brings Q) (events_of reached)
      → get_elem? sys.outcomes i ≡ some o
      → o.posting ≡ posted (r, k)
      → r.ok ≡ true
      → Lacks 13 o.snapshot.http_endpoint_url
      → IsDelivered o r k
  outcome-IsReceived {sys} reached i {o} bring found post good clean =
      let first = first_of reached in
      let explained = reachable-IsExplained reached in
      let texts =
        taken-All Q (events_of reached) first bring
          (subst (All (IsTextOf Q)) (sym (first_of-empty reached)) tt) in
      let text =
        All-map_at (IsTextOf Q) sys.outcomes (in_hand sys.phase) i
          (subst (All (IsTextOf Q)) (sym explained.bodies_lem) texts) found in
      let settled = All-get_elem? IsPosted sys.outcomes i (reachable-IsPosted reached) found in
      let url = o.snapshot.http_url in
      let attempts = sym settled.result ∙ post in
      let address = posted-valid o.scripts o.snapshot o.body attempts settled.addressed in
      let (j, last, returns) = post_body-LastReturns o.scripts o.snapshot o.body attempts good in
      let sent = http_post_json-wire (o.scripts j) url o.body returns good in
      let (msg, read) =
        read_lem url o.body _ (parsed-HasNoReturn o.snapshot.http_endpoint_url address clean) sent
          text in
      record {
        address = address;
        attempts = attempts;
        last = j;
        last_lem = last;
        returns = returns;
        message = msg;
        received = read;
      }
