-- ===== src/Http/UrlParts.antt =====
-- A text taken apart into what the grammar of URLs knows.
use native.Mathlib.Numerals.{add-one, add-two, sub-one}
use vehicle_detection_system.Common.{
  ltb, length-append, ℕ, suc, ◌+◌, ◌≡◌, refl, sym, ◌∙◌, ap, subst, Bool, true, false, Option, none,
  some, [], ◌∷◌, ◌++◌, Bytes, length, after_prefix, ◌==◌, arith, append_assoc, append-nil,
  Bool-cases, Option-cases, inl, inr,
}
use vehicle_detection_system.Common.Search.{
  take-length-append, get_elem?-next, find, rfind, Lacks, find-append,
}
use vehicle_detection_system.Http.Url.{
  colon, open_bracket, close_bracket, is_at, split_bracketed, split_authority,
}
use vehicle_detection_system.Http.UrlLaws.{Host, name, address, render_host, render_port}
use vehicle_detection_system.Http.UrlGrammar.{HasParts}

-- The other way: a text taken apart.
pub find-Lacks : (c : ℕ) (s : Bytes) → find c s ≡ none → Lacks c s
unfolding find
find-Lacks c [] e = tt
find-Lacks c (x ∷ s) e = elim (Option-cases (find c s)) [
  | inl n ↦ (ground arith, find-Lacks c s n)
  | inr (i, f) ↦ absurd (ground arith)
]

pub find-split :
    (c : ℕ) (s : Bytes) {i : ℕ}
    → find c s ≡ some i
    → (a : Bytes) × (t : Bytes) × (s ≡ a ++ c ∷ t) × Lacks c a
unfolding find
find-split c [] e = absurd (ground arith)
find-split c (x ∷ s) {i} e = elim (Bool-cases (x == c)) [
  | inl h ↦ ([], s, ground arith, tt)
  | inr h ↦ elim (Option-cases (find c s)) [
    | inl n ↦ absurd (ground arith)
    | inr (j, f) ↦
        let (a, t, eq, lacks) = find-split c s f in
        (x ∷ a, t, ap (λ r. x ∷ r) eq, (ground arith, lacks))
  ]
]

rfind-Lacks : (c : ℕ) (s : Bytes) → rfind c s ≡ none → Lacks c s
unfolding rfind
rfind-Lacks c [] e = tt
rfind-Lacks c (x ∷ s) e = elim (Option-cases (rfind c s)) [
  | inl n ↦ (ground arith, rfind-Lacks c s n)
  | inr (i, f) ↦ absurd (ground arith)
]

rfind-split :
    (c : ℕ) (s : Bytes) {i : ℕ}
    → rfind c s ≡ some i
    → (a : Bytes) × (t : Bytes) × (s ≡ a ++ c ∷ t) × Lacks c t
unfolding rfind
rfind-split c [] e = absurd (ground arith)
rfind-split c (x ∷ s) {i} e = elim (Option-cases (rfind c s)) [
  | inl n ↦ elim (Bool-cases (x == c)) [
    | inl h ↦ ([], s, ground arith, rfind-Lacks c s n)
    | inr h ↦ absurd (ground arith)
  ]
  | inr (j, f) ↦ let (a, t, eq, lacks) = rfind-split c s f in (x ∷ a, t, ap (λ r. x ∷ r) eq, lacks)
]

pub after_prefix-eq : (p s : Bytes) {r : Bytes} → after_prefix p s ≡ some r → s ≡ p ++ r
after_prefix-eq [] s e = ground arith
after_prefix-eq (x ∷ p) [] e = absurd (ground arith)
after_prefix-eq (x ∷ p) (c ∷ s) {r} e = elim (Bool-cases (x == c)) [
  | inl h ↦
      let found : after_prefix p s ≡ some r = ground arith in
      ground (arith, after_prefix-eq p s found)
  | inr h ↦ absurd (ground arith)
]

-- An authority by its parts, or one that is refused.
pub data Authority (a : Bytes) : Type 0 where
  made_of :
      (h : Host) (p : Option Bytes)
      → a ≡ render_host h ++ render_port p
      → HasParts h p
      → Authority a
  refused : split_authority a ≡ none → Authority a

refused_lem :
    (h : Bytes) (c : ℕ) (rest : Bytes)
    → Lacks close_bracket h
    → (c == colon) ≡ false
    → split_bracketed (open_bracket ∷ (h ++ close_bracket ∷ c ∷ rest)) ≡ none
unfolding split_bracketed find
refused_lem h c rest l e =
    let tail = c ∷ rest in
    let long : ltb (suc (length h) + 1) (suc (length (h ++ close_bracket ∷ tail))) ≡ true =
      ground (arith, length-append h (close_bracket ∷ tail)) in
    let behind : is_at (open_bracket ∷ (h ++ close_bracket ∷ tail)) (suc (suc (length h))) colon
        ≡ false =
      ap (λ (o : Option ℕ). elim o as (λ _. Bool) [ none ↦ false | some x ↦ x == colon ])
        (get_elem?-next h close_bracket c rest)
      ∙ e in
    rw (find-append close_bracket h tail l, split_bracketed, long, sub-one, take-length-append)
      (rw (add-one, add-two) (rw behind refl))

-- What stands behind the closing bracket.
bracketed :
    (h rest : Bytes)
    → Lacks close_bracket h
    → Authority (open_bracket ∷ (h ++ close_bracket ∷ rest))
unfolding split_authority
bracketed h [] l = made_of (address h) none (ap (λ r. open_bracket ∷ r) (sym (append-nil _))) l
bracketed h (c ∷ rest) l = elim (Bool-cases (c == colon)) [
  | inl e ↦
      let same : c ≡ colon = ground arith in
      rw same (
        made_of (address h) (some rest)
          (ap (λ r. open_bracket ∷ r) (sym (append_assoc h (close_bracket ∷ []) (colon ∷ rest)))) l)
  | inr e ↦ refused (refused_lem h c rest l e)
]

at_bracket : (b : Bytes) → Authority (open_bracket ∷ b)
unfolding split_authority split_bracketed find
at_bracket b = elim (Option-cases (find close_bracket b)) [
  | inl n ↦ refused (rw (n, split_bracketed) refl)
  | inr (i, f) ↦ let (h, rest, eq, l) = find-split close_bracket b f in rw eq (bracketed h rest l)
]

first_lem :
    (h rest : Bytes) → is_at (h ++ rest) 0 open_bracket ≡ false → is_at h 0 open_bracket ≡ false
first_lem [] rest e = refl
first_lem (x ∷ h) rest e = e

at_name : (a : Bytes) → is_at a 0 open_bracket ≡ false → Authority a
at_name a e = elim (Option-cases (rfind colon a)) [
  | inl n ↦ made_of (name a) none (sym (append-nil a)) (e, rfind-Lacks colon a n)
  | inr (i, f) ↦
      let (h, p, eq, l) = rfind-split colon a f in
      made_of (name h) (some p) eq
        (first_lem h (colon ∷ p) (subst (λ r. is_at r 0 open_bracket ≡ false) eq e), l)
]

pub authority : (a : Bytes) → Authority a
authority [] = at_name [] refl
authority (x ∷ a) = elim (Bool-cases (x == open_bracket)) [
  | inl e ↦ let same : x ≡ open_bracket = ground arith in rw same (at_bracket a)
  | inr e ↦ at_name (x ∷ a) e
]
