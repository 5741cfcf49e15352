-- ===== src/Playlist/Wildcard/Total.antt =====
-- The fuel of `wildcard_match` is enough, whatever the pattern and the text are.
use vehicle_detection_system.Common.{
  ℕ, zero, suc, ◌+◌, ◌*◌, ◌≤◌, ◌<◌, ◌≡◌, ◌≢◌, inl, inr, none, some, [], ◌∷◌, Bytes, length, arith,
  Option-cases,
}
use vehicle_detection_system.Playlist.Wildcard.Loop.{Star, retry, loop, run, wildcard_match}

-- `m` bounds the text that is left, `k` the length of any pattern in play.
abbrev Saved : ℕ → ℕ → Bytes → Star → Type 0
Saved m k t none = Unit {0}
Saved m k t (some (sp, st)) = (length t ≤ length st) × (length st ≤ m) × (length sp < k)

record IsBounded (f m k : ℕ) (p t : Bytes) (star : Star) : Type 0 where
  text_bound : length t ≤ m
  pattern_bound : length p < k
  saved : Saved m k t star
  fuel : m * k + length p < f

Saved-tail : (m k c : ℕ) (t : Bytes) (star : Star) → Saved m k (c ∷ t) star → Saved m k t star
Saved-tail m k c t none h = tt
Saved-tail m k c t (some (sp, st)) h = omega arith

-- One step back to the star lowers `m`, which pays for the whole pattern.
retry-ne-none :
    (k f m : ℕ) (p : Bytes) {c : ℕ} (t : Bytes) (star : Star)
    → ((m' : ℕ) (p' t' : Bytes) (s : Star) → IsBounded f m' k p' t' s → loop f p' t' s ≢ none)
    → IsBounded (suc f) m k p (c ∷ t) star
    → retry star (loop f) ≢ none
unfolding retry
retry-ne-none k f m p t none ih b = ground arith
retry-ne-none k f m p t (some (sp, [])) ih b = absurd (omega arith)
retry-ne-none k f zero p t (some (sp, x ∷ st)) ih b = absurd (omega arith)
retry-ne-none k f (suc m) p t (some (sp, x ∷ st)) ih b = ih m sp st (some (sp, st)) (record {
  text_bound = omega arith;
  pattern_bound = omega arith;
  saved = omega arith;
  fuel = grind arith;
})

loop-ne-none :
    (k f m : ℕ) (p t : Bytes) (star : Star) → IsBounded f m k p t star → loop f p t star ≢ none
unfolding loop
loop-ne-none k zero m p t star b = absurd (omega arith)
loop-ne-none k (suc f) m p [] star b = ground arith
loop-ne-none k (suc f) m [] (c ∷ t) star b = retry-ne-none k f m [] t star (loop-ne-none k f) b
loop-ne-none k (suc f) m (x ∷ p) (c ∷ t) star b =
    let onward : loop f p t star ≢ none = loop-ne-none k f m p t star (record {
      text_bound = omega arith;
      pattern_bound = omega arith;
      saved = Saved-tail m k c t star b.saved;
      fuel = omega arith;
    }) in
    let opened : loop f p (c ∷ t) (some (p, c ∷ t)) ≢ none =
      loop-ne-none k f m p (c ∷ t) (some (p, c ∷ t)) (record {
        text_bound = omega arith;
        pattern_bound = omega arith;
        saved = omega arith;
        fuel = omega arith;
      }) in
    let again : retry star (loop f) ≢ none =
      retry-ne-none k f m (x ∷ p) t star (loop-ne-none k f) b in
    ground arith

-- For every pattern and text the loop ends with an answer within (text length + 1) * (pattern length +
-- 1) iterations: the fuel that the model gives it is enough.
pub run-ne-none : (p t : Bytes) → run p t ≢ none
unfolding run
run-ne-none p t = loop-ne-none (length p + 1) _ (length t) p t none (record {
  text_bound = omega arith;
  pattern_bound = omega arith;
  saved = tt;
  fuel = grind arith;
})

pub run-eq-some : (p t : Bytes) → run p t ≡ some (wildcard_match p t)
unfolding wildcard_match
run-eq-some p t = elim (Option-cases (run p t)) [
  | inl e ↦ absurd (run-ne-none p t e)
  | inr (b, e) ↦ rw (e, wildcard_match)
]
