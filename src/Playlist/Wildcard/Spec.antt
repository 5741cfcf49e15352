-- ===== src/Playlist/Wildcard/Spec.antt =====
-- What the header promises of a pattern: `*` stands for any bytes, `?` for one, others for themselves.
use vehicle_detection_system.Common.{
  ℕ, ◌≡◌, refl, ◌≢◌, ◌↔◌, true, ◌||◌, [], ◌∷◌, Bytes, ◌==◌, arith,
}
use vehicle_detection_system.Playlist.Wildcard.Loop.{only_stars}

pub data Matches : Bytes → Bytes → Type 0 where
  done : Matches [] []
  skip : {x : ℕ} {p t : Bytes} → x ≡ b'*' → Matches p t → Matches (x ∷ p) t
  more : {x c : ℕ} {p t : Bytes} → x ≡ b'*' → Matches (x ∷ p) t → Matches (x ∷ p) (c ∷ t)
  any : {x c : ℕ} {p t : Bytes} → x ≡ b'?' → Matches p t → Matches (x ∷ p) (c ∷ t)
  same : {x c : ℕ} {p t : Bytes} → x ≢ b'*' → x ≡ c → Matches p t → Matches (x ∷ p) (c ∷ t)

abbrev pub star : ℕ
star = b'*'

module _ {p : Bytes} where
  -- A byte of the pattern that is no star takes one byte of the text.
  pub one_inv : {x c : ℕ} {t : Bytes} → x ≢ star → Matches (x ∷ p) (c ∷ t) → Matches p t
  one_inv n (skip e d) = absurd (n e)
  one_inv n (more e d) = absurd (n e)
  one_inv n (any e d) = d
  one_inv n (same m e d) = d

  pub one_accepts :
      {x c : ℕ} {t : Bytes} → x ≢ star → Matches (x ∷ p) (c ∷ t) → (x == b'?' || x == c) ≡ true
  one_accepts n (skip e d) = absurd (n e)
  one_accepts n (more e d) = absurd (n e)
  one_accepts n (any e d) = ground arith
  one_accepts n (same m e d) = ground arith

  pub star_at_end : {x : ℕ} → x ≡ star → Matches (x ∷ p) [] → Matches p []
  star_at_end e (skip e' d) = d

pub not-Matches_end : {y : ℕ} {p : Bytes} → y ≢ star → ¬ Matches (y ∷ p) []
not-Matches_end n (skip e d) = n e

module _ {p : Bytes} where
  pub star_takes :
      {x c : ℕ} {t : Bytes}
      → Matches (x ∷ p) (c ∷ t)
      → x ≡ star
      → ¬ Matches p (c ∷ t)
      → Matches (x ∷ p) t
  star_takes (skip e d) s n = absurd (n d)
  star_takes (more e d) s n = d
  star_takes (any e d) s n = absurd (ground arith)
  star_takes (same m e d) s n = absurd (m s)

  pub star-star :
      {x y : ℕ} {t : Bytes} → x ≡ star → y ≡ star → Matches (x ∷ y ∷ p) t → Matches (y ∷ p) t
  star-star e e' (skip s d) = d
  star-star e e' (more s d) = more e' (star-star e e' d)
  star-star e e' (any s d) = absurd (ground arith)
  star-star e e' (same m s d) = absurd (m e)

  -- Behind a star a byte may be matched at its first fit: what follows it begins no later.
  pub drop_one :
      {x y c : ℕ} (t : Bytes)
      → x ≡ star
      → y ≢ star
      → Matches (x ∷ y ∷ p) (c ∷ t)
      → Matches (x ∷ p) t
  drop_one t e n (skip s d) = skip e (one_inv n d)
  drop_one t e n (any s d) = absurd (ground arith)
  drop_one t e n (same m s d) = absurd (m e)
  drop_one [] e n (more s d) = absurd (not-Matches_end n (star_at_end e d))
  drop_one (c ∷ t) e n (more s d) = more e (drop_one t e n d)

only_stars→Matches : (p : Bytes) → only_stars p ≡ true → Matches p []
unfolding only_stars
only_stars→Matches [] h = done
only_stars→Matches (x ∷ p) h = skip (ground arith) (only_stars→Matches p (ground arith))

Matches→only_stars : {p : Bytes} → Matches p [] → only_stars p ≡ true
unfolding only_stars
Matches→only_stars done = refl
Matches→only_stars (skip e d) = ground (arith, Matches→only_stars d)

-- With the text used up, what is left of the pattern has to be stars.
pub only_stars_iff : (p : Bytes) → (only_stars p ≡ true) ↔ Matches p []
only_stars_iff p = (only_stars→Matches p, Matches→only_stars)
