-- ===== src/Playlist/Wildcard/Correct.antt =====
-- `wildcard_match` against the relation `Matches`.
use vehicle_detection_system.Common.{
  ℕ, zero, suc, ◌+◌, ◌*◌, ◌≤◌, length, ◌≡◌, refl, ◌≢◌, ◌↔◌, inl, inr, Bool, true, false, ◌||◌,
  Option, none, some, [], ◌∷◌, Bytes, ◌==◌, arith, Bool-cases, All, false≢true, sym, subst, ◌∙◌, ap,
}
use vehicle_detection_system.Playlist.Wildcard.Loop.{
  Star, only_stars, retry, loop, run, wildcard_match,
}
use vehicle_detection_system.Playlist.Wildcard.Spec.{
  Matches, done, skip, more, any, same, star, one_inv, one_accepts, star_takes, star-star, drop_one,
  star_at_end, only_stars_iff,
}
use vehicle_detection_system.Playlist.Wildcard.Total.{run-eq-some}

-- `G` is the question that was asked.
module _ (G : Type 0) where
  -- Soundness: whatever the loop goes on to match, the question has the answer yes.
  abbrev Backed : Star → Type 0
  Backed none = Unit {0}
  Backed (some (sp, st)) = Matches (star ∷ sp) st → G

  Matches-one :
      {x c : ℕ} {p t : Bytes} → (x == b'?' || x == c) ≡ true → Matches p t → Matches (x ∷ p) (c ∷ t)
  Matches-one {x} h d = elim (Bool-cases (x == b'*')) [
    | inl e ↦ more (ground arith) (skip (ground arith) d)
    | inr e ↦ elim (Bool-cases (x == b'?')) [
      | inl q ↦ any (ground arith) d
      | inr q ↦ same (ground arith) (ground arith) d
    ]
  ]

  retry_sound :
      (star' : Star) (next : Bytes → Bytes → Star → Option Bool)
      → ((p t : Bytes) (s : Star) → (Matches p t → G) → Backed s → next p t s ≡ some true → G)
      → Backed star'
      → retry star' next ≡ some true
      → G
  unfolding retry
  retry_sound none next ih b h = absurd (ground arith)
  retry_sound (some (sp, [])) next ih b h = ih sp [] (some (sp, [])) (λ d. b (skip refl d)) b h
  retry_sound (some (sp, x ∷ st)) next ih b h =
      ih sp st (some (sp, st)) (λ d. b (more refl (skip refl d))) (λ d. b (more refl d)) h

  loop_sound :
      (f : ℕ) (p t : Bytes) (s : Star) → (Matches p t → G) → Backed s → loop f p t s ≡ some true → G
  unfolding loop
  loop_sound zero p t s now b h = absurd (ground arith)
  loop_sound (suc f) p [] s now b h = now ((only_stars_iff p).0 (ground arith))
  loop_sound (suc f) [] (c ∷ t) s now b h = retry_sound s (loop f) (loop_sound f) b h
  loop_sound (suc f) (x ∷ p) (c ∷ t) s now b h = elim (Bool-cases (x == b'?' || x == c)) [
    | inl e ↦ loop_sound f p t s (λ d. now (Matches-one e d)) b (rw e at h)
    | inr e ↦ elim (Bool-cases (x == b'*')) [
      | inl e' ↦
          let x-star : x ≡ star = ground arith in
          loop_sound f p (c ∷ t) (some (p, c ∷ t)) (λ d. now (skip x-star d))
            (λ d. now (subst (λ y. Matches (y ∷ p) (c ∷ t)) (sym x-star) d)) (rw (e, e') at h)
      | inr e' ↦ retry_sound s (loop f) (loop_sound f) b (rw (e, e') at h)
    ]
  ]

-- For every pattern and text: if `wildcard_match` answers true, the text matches the pattern.
pub wildcard_match_sound : (p t : Bytes) → wildcard_match p t ≡ true → Matches p t
unfolding run
wildcard_match_sound p t h =
    loop_sound (Matches p t) _ p t none (λ d. d) tt (run-eq-some p t ∙ ap some h)

abbrev pub StarFree : Bytes → Type 0
StarFree = All λ c. c ≢ star

module _ (G : Type 0) where
  -- What the saved star still promises if the text has no star of its own.
  abbrev Promised : Bytes → Bytes → Star → Type 0
  Promised p t none = G → Matches p t
  Promised p t (some (sp, st)) =
      (G → Matches (star ∷ sp) st) × (Matches sp st → Matches p t) × StarFree st

  Promised-one :
      (x c : ℕ) (p t : Bytes) (s : Star) → x ≢ star → Promised (x ∷ p) (c ∷ t) s → Promised p t s
  Promised-one x c p t none n h = λ g. one_inv n (h g)
  Promised-one x c p t (some (sp, st)) n (ask, down, free) = (ask, λ d. one_inv n (down d), free)

  retry_complete :
      (p : Bytes) (c : ℕ) (t : Bytes) (s : Star) (next : Bytes → Bytes → Star → Option Bool)
      → ((p' t' : Bytes) (s' : Star)
          → (G → Matches (star ∷ p') t')
          → Promised p' t' s'
          → StarFree t'
          → next p' t' s' ≡ some false
          → ¬ G)
      → Promised p (c ∷ t) s
      → ¬ Matches p (c ∷ t)
      → retry s next ≡ some false
      → ¬ G
  unfolding retry
  retry_complete p c t none next ih h n e = λ g. n (h g)
  retry_complete p c t (some (sp, [])) next ih (ask, down, free) n e =
      λ g. n (down (star_at_end refl (ask g)))
  retry_complete p c t (some (sp, x ∷ st)) next ih (ask, down, free) n e =
      let onward : G → Matches (star ∷ sp) st = λ g. star_takes (ask g) refl (λ d. n (down d)) in
      ih sp st (some (sp, st)) onward (onward, λ d. d, free.1) free.1 e

  loop_complete :
      (f : ℕ) (p t : Bytes) (s : Star)
      → (G → Matches (star ∷ p) t)
      → Promised p t s
      → StarFree t
      → loop f p t s ≡ some false
      → ¬ G
  unfolding loop
  loop_complete zero p t s later h free e = absurd (ground arith)
  loop_complete (suc f) p [] s later h free e = λ g.
      let all_stars : only_stars p ≡ true = (only_stars_iff p).1 (star_at_end refl (later g)) in
      ground arith
  loop_complete (suc f) [] (c ∷ t) s later h free e =
      retry_complete [] c t s (loop f) (loop_complete f) h (λ d. elim d [ ]) e
  loop_complete (suc f) (x ∷ p) (c ∷ t) s later h free e = elim (Bool-cases (x == b'*')) [
    | inl y ↦
        let x-star : x ≡ star = ground arith in
        let ask : G → Matches (star ∷ p) (c ∷ t) =
          λ g. subst (λ z. Matches (z ∷ p) (c ∷ t)) x-star (star-star refl x-star (later g)) in
        loop_complete f p (c ∷ t) (some (p, c ∷ t)) ask (ask, λ d. d, free) free
          (ground (arith, free.0))
    | inr y ↦
        let x-one : x ≢ star = ground arith in
        elim (Bool-cases (x == b'?' || x == c)) [
          | inl o ↦
              loop_complete f p t s (λ g. drop_one t refl x-one (later g))
                (Promised-one x c p t s x-one h) free.1 (rw o at e)
          | inr o ↦
              retry_complete (x ∷ p) c t s (loop f) (loop_complete f) h
                (λ d. false≢true (sym o ∙ one_accepts x-one d)) (rw (o, y) at e)
        ]
  ]

-- If the text holds no `*` of its own, `wildcard_match` answers true exactly when the text matches
-- the pattern, in which `*` stands for any bytes, `?` for one byte and each other byte for itself.
pub wildcard_match_iff : (p t : Bytes) → StarFree t → (wildcard_match p t ≡ true) ↔ Matches p t
unfolding run
wildcard_match_iff p t free = (
  wildcard_match_sound p t,
  λ d. elim (Bool-cases (wildcard_match p t)) [
    | inl e ↦ e
    | inr e ↦ absurd (
        loop_complete (Matches p t) _ p t none (λ g. skip refl g) (λ g. g) free
          (run-eq-some p t ∙ ap some e) d)
  ],
)

loop_star_text : (f c : ℕ) (t : Bytes) → 2 ≤ f → loop f (star ∷ []) (star ∷ c ∷ t) none ≡ some false
unfolding loop retry
loop_star_text zero c t h = absurd (omega arith)
loop_star_text (suc zero) c t h = absurd (omega arith)
loop_star_text (suc (suc f)) c t h = refl

star-Matches : (t : Bytes) → Matches (star ∷ []) t
star-Matches [] = skip refl done
star-Matches (c ∷ t) = more refl (star-Matches t)

-- A text that begins with `*` and goes on matches the pattern `*`, and `wildcard_match` refuses it.
pub wildcard_match-star_text :
    (c : ℕ) (t : Bytes)
    → (wildcard_match (star ∷ []) (star ∷ c ∷ t) ≡ false) × Matches (star ∷ []) (star ∷ c ∷ t)
unfolding wildcard_match
wildcard_match-star_text c t = (
  rw (loop_star_text ((length (star ∷ c ∷ t) + 1) * 2) c t (omega arith), wildcard_match),
  star-Matches (star ∷ c ∷ t),
)
