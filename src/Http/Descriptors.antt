-- ===== src/Http/Descriptors.antt =====
-- No descriptor leaks from the connection attempts of http_client.cpp.
use vehicle_detection_system.Common.{
  ℕ, ◌≡◌, refl, sym, ◌⊎◌, inl, inr, List, [], ◌∷◌, ◌++◌, Bytes, arith, append_assoc,
}
use vehicle_detection_system.Http.Connect.{
  AddressScript, FdEvent, opened, closed, after_socket, connect_with_timeout,
}
use vehicle_detection_system.Http.Post.{connect_any}

-- Every descriptor that was opened has been closed, one after the other.
pub data AllClosed : List FdEvent → Type 0 where
  nothing : AllClosed []
  pair : {fd : ℕ} {es : List FdEvent} → AllClosed es → AllClosed (opened fd ∷ closed fd ∷ es)

-- How a connection attempt leaves the descriptors: all closed on an error, and on success the one
-- that it returns still open behind others that are closed.
abbrev pub LeavesOpen : ℕ ⊎ Bytes → List FdEvent → Type 0
LeavesOpen (inr e) es = AllClosed es
LeavesOpen (inl sock) es =
    (front : List FdEvent) × AllClosed front × (es ≡ front ++ opened sock ∷ [])

after_socket-inr :
    (a : AddressScript) (sock : ℕ) (e : Bytes)
    → (after_socket a sock).outcome ≡ inr e
    → (after_socket a sock).events ≡ opened sock ∷ closed sock ∷ []
unfolding after_socket
after_socket-inr a sock e h = ground arith

after_socket-inl :
    (a : AddressScript) (sock s : ℕ)
    → (after_socket a sock).outcome ≡ inl s
    → (s ≡ sock) × ((after_socket a sock).events ≡ opened sock ∷ [])
unfolding after_socket
after_socket-inl a sock s h = ground arith

LeavesOpen-after_socket :
    (a : AddressScript) (sock : ℕ) (o : ℕ ⊎ Bytes)
    → (after_socket a sock).outcome ≡ o
    → LeavesOpen o (after_socket a sock).events
LeavesOpen-after_socket a sock (inr e) h = rw (after_socket-inr a sock e h) (pair nothing)
LeavesOpen-after_socket a sock (inl s) h =
    let (same, es) = after_socket-inl a sock s h in rw (es, same) ([], nothing, refl)

connect_with_timeout-LeavesOpen :
    (a : AddressScript) → let c = connect_with_timeout a in LeavesOpen c.outcome c.events
unfolding connect_with_timeout
connect_with_timeout-LeavesOpen a = go a.socket refl
  where
    go :
        (o : ℕ ⊎ Bytes)
        → a.socket ≡ o
        → let c = connect_with_timeout a in LeavesOpen c.outcome c.events
    go (inr e) h = rw h nothing
    go (inl sock) h = rw h (LeavesOpen-after_socket a sock _ refl)

pub AllClosed-append : {es fs : List FdEvent} → AllClosed es → AllClosed fs → AllClosed (es ++ fs)
AllClosed-append nothing c = c
AllClosed-append (pair d) c = pair (AllClosed-append d c)

LeavesOpen-append :
    (o : ℕ ⊎ Bytes) {es : List FdEvent} (fs : List FdEvent)
    → AllClosed es
    → LeavesOpen o fs
    → LeavesOpen o (es ++ fs)
LeavesOpen-append (inr e) fs c h = AllClosed-append c h
LeavesOpen-append (inl sock) {es} fs c (front, d, eq) =
    (es ++ front, AllClosed-append c d, rw eq (sym (append_assoc es front _)))

connect_any-inl :
    (a : AddressScript) (addresses : List AddressScript) (last : Bytes) {sock : ℕ}
    → (connect_with_timeout a).outcome ≡ inl sock
    → connect_any (a ∷ addresses) last ≡ connect_with_timeout a
unfolding connect_any
connect_any-inl a addresses last h = rw (h, connect_any)

connect_any-inr :
    (a : AddressScript) (addresses : List AddressScript) (last : Bytes) {e : Bytes}
    → (connect_with_timeout a).outcome ≡ inr e
    → let rest = connect_any addresses e in
      connect_any (a ∷ addresses) last
      ≡ record rest { events = (connect_with_timeout a).events ++ rest.events }
unfolding connect_any
connect_any-inr a addresses last h = rw (h, connect_any)

pub connect_any-LeavesOpen :
    (addresses : List AddressScript) (last : Bytes)
    → let c = connect_any addresses last in LeavesOpen c.outcome c.events
connect_any-LeavesOpen [] last = unfold connect_any in nothing
connect_any-LeavesOpen (a ∷ addresses) last =
    go (connect_with_timeout a).outcome refl (connect_any-LeavesOpen addresses)
  where
    go :
        (o : ℕ ⊎ Bytes)
        → (connect_with_timeout a).outcome ≡ o
        → ((e : Bytes) → let c = connect_any addresses e in LeavesOpen c.outcome c.events)
        → let c = connect_any (a ∷ addresses) last in LeavesOpen c.outcome c.events
    go (inr e) h rest =
        rw (connect_any-inr a addresses last h)
          (LeavesOpen-append _ _ (rw h at (connect_with_timeout-LeavesOpen a)) (rest e))
    go (inl sock) h rest =
        rw (connect_any-inl a addresses last h) (connect_with_timeout-LeavesOpen a)
