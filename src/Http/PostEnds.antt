-- ===== src/Http/PostEnds.antt =====
-- The ends of a call of `http_post_json`: what is returned, sent and closed on each.
use vehicle_detection_system.Common.{
  ℕ, ◌≡◌, refl, sym, ap, ◌∙◌, ◌⊎◌, inl, inr, true, some, List, [], ◌∷◌, ◌++◌, Bytes, codes,
  is_empty, if◌then◌else◌, arith, subst, append_assoc,
}
use vehicle_detection_system.Common.{append-nil}
use mathlib.Core.Option.{some-injective}
use vehicle_detection_system.Http.Url.{HttpUrl}
use vehicle_detection_system.Http.Connect.{AddressScript}
use vehicle_detection_system.Http.Transfer.{Progress, finished, waiting, failed, send_all}
use vehicle_detection_system.Http.TransferLaws.{send_all-Accounts}
use vehicle_detection_system.Http.Post.{
  HttpPostResult, Script, PostRun, connect_any, request, failure, after_send, close_at_return,
  http_post_json,
}
use vehicle_detection_system.Http.Descriptors.{
  AllClosed, connect_any-LeavesOpen, AllClosed-append, pair, nothing,
}
use vehicle_detection_system.Http.PostLaws.{
  IsConsistent, failure-IsConsistent, after_send-IsConsistent, send_all-message,
}

after_send-finished :
    (s : Script) (p : Progress) {r : HttpPostResult}
    → after_send s p ≡ some r
    → r.ok ≡ true
    → p ≡ finished
unfolding after_send
after_send-finished s waiting e ok = absurd (ground arith)
after_send-finished s (failed m) e ok = absurd (ground arith)
after_send-finished s finished e ok = refl

-- The three ends of a call: no address, no connection, a connection.
module _ (s : Script) (url : HttpUrl) (body : Bytes) where
  abbrev Returns : HttpPostResult → Type 0
  Returns r = (http_post_json s url body).result ≡ some r

  abbrev progress : Progress × Bytes
  progress = send_all s.sends (request url body) []

  post-unresolved :
      (e : Bytes)
      → s.getaddrinfo ≡ inl e
      → http_post_json s url body
        ≡ record { result = some (failure (codes "getaddrinfo(): " ++ e)); events = []; wire = [] }
  unfolding http_post_json
  post-unresolved e h = rw (h, http_post_json)

  module _ (addresses : List AddressScript) (found : s.getaddrinfo ≡ inr addresses) where
    post-unconnected :
        (e : Bytes)
        → (connect_any addresses []).outcome ≡ inr e
        → http_post_json s url body ≡ record {
          result = some (failure (if is_empty e then codes "connect failed" else e));
          events = (connect_any addresses []).events;
          wire = [];
        }
    unfolding http_post_json
    post-unconnected e h = rw (found, h, http_post_json)

    post-connected :
        (sock : ℕ)
        → (connect_any addresses []).outcome ≡ inl sock
        → let result = after_send s progress.0 in
          http_post_json s url body ≡ record {
            result = result;
            events = (connect_any addresses []).events ++ close_at_return sock result;
            wire = progress.1;
          }
    unfolding http_post_json
    post-connected sock h = rw (found, h, http_post_json)

  data End : Type 0 where
    unresolved : (e : Bytes) → s.getaddrinfo ≡ inl e → End
    unconnected :
        (addresses : List AddressScript) (e : Bytes)
        → s.getaddrinfo ≡ inr addresses
        → (connect_any addresses []).outcome ≡ inr e
        → End
    connected :
        (addresses : List AddressScript) (sock : ℕ)
        → s.getaddrinfo ≡ inr addresses
        → (connect_any addresses []).outcome ≡ inl sock
        → End

  end : End
  end = go s.getaddrinfo refl
    where
      pick :
          (addresses : List AddressScript)
          → s.getaddrinfo ≡ inr addresses
          → (o : ℕ ⊎ Bytes) → (connect_any addresses []).outcome ≡ o
          → End
      pick addresses found (inl sock) h = connected addresses sock found h
      pick addresses found (inr e) h = unconnected addresses e found h

      go : (g : Bytes ⊎ List AddressScript) → s.getaddrinfo ≡ g → End
      go (inl e) h = unresolved e h
      go (inr addresses) h = pick addresses h (connect_any addresses []).outcome refl

  module _ {r : HttpPostResult} (returns : Returns r) where
    unresolved-eq : (e : Bytes) → s.getaddrinfo ≡ inl e → failure (codes "getaddrinfo(): " ++ e) ≡ r
    unresolved-eq e h =
        some-injective _ _ (ap (λ (x : PostRun). x.result) (sym (post-unresolved e h)) ∙ returns)

    unconnected-eq :
        (addresses : List AddressScript) (e : Bytes)
        → s.getaddrinfo ≡ inr addresses
        → (connect_any addresses []).outcome ≡ inr e
        → failure (if is_empty e then codes "connect failed" else e) ≡ r
    unconnected-eq addresses e found h =
        some-injective _ _
          (ap (λ (x : PostRun). x.result) (sym (post-unconnected addresses found e h)) ∙ returns)

    connected-eq :
        (addresses : List AddressScript) (sock : ℕ)
        → s.getaddrinfo ≡ inr addresses
        → (connect_any addresses []).outcome ≡ inl sock
        → after_send s progress.0 ≡ some r
    connected-eq addresses sock found h =
        ap (λ (x : PostRun). x.result) (sym (post-connected addresses found sock h)) ∙ returns

    IsConsistent-end : End → IsConsistent r
    IsConsistent-end (unresolved e h) =
        subst IsConsistent (unresolved-eq e h) (failure-IsConsistent _ refl)
    IsConsistent-end (unconnected addresses [] found h) =
        subst IsConsistent (unconnected-eq addresses [] found h) (failure-IsConsistent _ refl)
    IsConsistent-end (unconnected addresses (x ∷ e) found h) =
        subst IsConsistent (unconnected-eq addresses (x ∷ e) found h) (failure-IsConsistent _ refl)
    IsConsistent-end (connected addresses sock found h) =
        after_send-IsConsistent s progress.0 (connected-eq addresses sock found h)
          (send_all-message s.sends _ [])

    closed_end : End → AllClosed (http_post_json s url body).events
    closed_end (unresolved e h) = rw (post-unresolved e h) nothing
    closed_end (unconnected addresses e found h) =
        rw (post-unconnected addresses found e h) (rw h at (connect_any-LeavesOpen addresses []))
    closed_end (connected addresses sock found h) =
        let (front, c, eq) = rw h at (connect_any-LeavesOpen addresses []) in
        rw
          (
            post-connected addresses found sock h,
            connected-eq addresses sock found h,
            eq,
            append_assoc,
          )
          (AllClosed-append c (pair nothing))

    wire_end : End → r.ok ≡ true → (http_post_json s url body).wire ≡ request url body
    wire_end (unresolved e h) ok = ground (arith, unresolved-eq e h)
    wire_end (unconnected addresses e found h) ok =
        ground (arith, unconnected-eq addresses e found h)
    wire_end (connected addresses sock found h) ok =
        let all = send_all-Accounts s.sends (request url body) in
        let over = after_send-finished s progress.0 (connected-eq addresses sock found h) ok in
        rw (post-connected addresses found sock h)
          (sym (append-nil _) ∙ ap (λ r. progress.1 ++ r) (sym (all.complete.0 over)) ∙ all.parts)

    -- Every call that returns tells of success exactly by a code from 200 to 299, and exactly then has
    -- no message.
    pub http_post_json-IsConsistent : IsConsistent r
    http_post_json-IsConsistent = IsConsistent-end end

    -- Every call that returns has closed each descriptor that it opened, whatever failed on the way.
    pub http_post_json-AllClosed : AllClosed (http_post_json s url body).events
    http_post_json-AllClosed = closed_end end

    -- A call that returns success has sent the whole request.
    pub http_post_json-wire : r.ok ≡ true → (http_post_json s url body).wire ≡ request url body
    http_post_json-wire = wire_end end
