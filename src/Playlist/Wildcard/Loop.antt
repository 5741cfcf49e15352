-- ===== src/Playlist/Wildcard/Loop.antt =====
-- The two-pointer loop of `wildcard_match`, on fuel.
use vehicle_detection_system.Common.{
  ℕ, zero, suc, ◌+◌, ◌*◌, Bool, true, false, ◌||◌, Option, none, some, [], ◌∷◌, Bytes, length, ◌==◌,
  if◌then◌else◌,
}

-- `star_p` and `star_t`
abbrev pub Star : Type 0
Star = Option (Bytes × Bytes)

-- The last two branches of the loop: back to the star, which takes one more byte, or defeat.
unfoldable pub retry : Star → (Bytes → Bytes → Star → Option Bool) → Option Bool
retry none next = some false
retry (some (sp, [])) next = next sp [] (some (sp, []))
retry (some (sp, _ ∷ st)) next = next sp st (some (sp, st))

-- The loop over what is left of the pattern, and the test `p == pattern.size()` behind it.
unfoldable pub only_stars : Bytes → Bool
only_stars [] = true
only_stars (x ∷ p) = if x == b'*' then only_stars p else false

unfoldable pub loop : ℕ → Bytes → Bytes → Star → Option Bool
loop zero p t star = none
loop (suc f) p [] star = some (only_stars p)
loop (suc f) (x ∷ p) (c ∷ t) star =
    let onward = loop f p t star in
    let opened = loop f p (c ∷ t) (some (p, c ∷ t)) in
    let again = retry star (loop f) in
    if x == b'?' || x == c then onward else if x == b'*' then opened else again
loop (suc f) [] (c ∷ t) star = retry star (loop f)

-- `none` would mean that the fuel ran out.
unfoldable pub run : Bytes → Bytes → Option Bool
unfolding loop retry only_stars
run p t = loop ((length t + 1) * (length p + 1)) p t none

unfoldable pub wildcard_match : Bytes → Bytes → Bool
unfolding run
wildcard_match p t = elim (run p t) [ some b ↦ b | none ↦ false ]
