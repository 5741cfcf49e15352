-- ===== src/Common/Search.antt =====
-- `find` and `rfind` of `std::string`, with what they say of a text that is put together.
use Prim.Native.Nat.{ℕ, suc}
use mathlib.Core.Path.{◌≡◌, refl, ap}
use mathlib.Core.Logic.{◌≢◌, inl, inr}
use mathlib.Core.List.{List, [], ◌∷◌, ◌++◌}
use mathlib.Core.Option.{Option, none, some}
use native.Mathlib.Omega.{arith}
use vehicle_detection_system.Common.Tests.{◌==◌, if◌then◌else◌, Bool-cases, Option-cases}
use vehicle_detection_system.Common.Lists.{All, length, take, drop, get_elem?}
use vehicle_detection_system.Common.Text.{Bytes}

abbrev pub shift : Option ℕ → Option ℕ
shift none = none
shift (some i) = some (suc i)

-- The first position of a byte; `none` is `npos`.
unfoldable pub find : ℕ → Bytes → Option ℕ
find c [] = none
find c (x ∷ s) = if x == c then some 0 else shift (find c s)

-- The last position of a byte.
unfoldable pub rfind : ℕ → Bytes → Option ℕ
rfind c [] = none
rfind c (x ∷ s) = elim (rfind c s) [
  | some i ↦ some (suc i)
  | none ↦ if x == c then some 0 else none
]

-- The first position where "\r\n" stands.
unfoldable pub find_crlf : Bytes → Option ℕ
find_crlf [] = none
find_crlf (x ∷ []) = none
find_crlf (x ∷ y ∷ s) =
    if x == 13
    then (if y == 10 then some 0 else shift (find_crlf (y ∷ s)))
    else shift (find_crlf (y ∷ s))

abbrev pub Lacks : ℕ → Bytes → Type 0
Lacks c = All λ x. x ≢ c

pub find-none : (c : ℕ) (s : Bytes) → Lacks c s → find c s ≡ none
unfolding find
find-none c [] h = refl
find-none c (x ∷ s) (h, hs) = ground (arith, find-none c s hs)

pub find-append : (c : ℕ) (s t : Bytes) → Lacks c s → find c (s ++ c ∷ t) ≡ some (length s)
unfolding find
find-append c [] t h = ground arith
find-append c (x ∷ s) t (h, hs) = ground (arith, find-append c s t hs)

pub rfind-none : (c : ℕ) (s : Bytes) → Lacks c s → rfind c s ≡ none
unfolding rfind
rfind-none c [] h = refl
rfind-none c (x ∷ s) (h, hs) = ground (arith, rfind-none c s hs)

pub rfind-append : (c : ℕ) (s t : Bytes) → Lacks c t → rfind c (s ++ c ∷ t) ≡ some (length s)
unfolding rfind
rfind-append c [] t h = ground (arith, rfind-none c t h)
rfind-append c (x ∷ s) t h = ground (arith, rfind-append c s t h)

-- A line without a carriage return ends where it should.
pub find_crlf-append :
    (line rest : Bytes) → Lacks 13 line → find_crlf (line ++ 13 ∷ 10 ∷ rest) ≡ some (length line)
unfolding find_crlf
find_crlf-append [] rest h = refl
find_crlf-append (x ∷ []) rest (h, hs) = ground (arith, find_crlf-append [] rest tt)
find_crlf-append (x ∷ y ∷ line) rest (h, hs) = ground (arith, find_crlf-append (y ∷ line) rest hs)

-- The byte at the position found.
pub find-drop : (c : ℕ) (s : Bytes) {i : ℕ} → find c s ≡ some i → (t : Bytes) × (drop i s ≡ c ∷ t)
unfolding find
find-drop c [] e = absurd (ground arith)
find-drop c (x ∷ s) {i} e = elim (Bool-cases (x == c)) [
  | inl h ↦ (s, ground arith)
  | inr h ↦ elim (Option-cases (find c s)) [
    | inl n ↦ absurd (ground arith)
    | inr (j, f) ↦
        let (t, eq) = find-drop c s f in let i-suc : i ≡ suc j = ground arith in (t, rw i-suc eq)
  ]
]

module _ {A : Type 0} where
  pub take-length-append : (xs ys : List A) → take (length xs) (xs ++ ys) ≡ xs
  take-length-append [] ys = refl
  take-length-append (x ∷ xs) ys = ap (λ r. x ∷ r) (take-length-append xs ys)

  pub drop-length-append : (xs ys : List A) → drop (length xs) (xs ++ ys) ≡ ys
  drop-length-append [] ys = refl
  drop-length-append (x ∷ xs) ys = drop-length-append xs ys

  pub drop-suc-length :
      (xs : List A) (y : A) (ys : List A) → drop (suc (length xs)) (xs ++ y ∷ ys) ≡ ys
  drop-suc-length [] y ys = refl
  drop-suc-length (x ∷ xs) y ys = drop-suc-length xs y ys

  pub drop_two_more :
      (xs : List A) (y z : A) (ys : List A) → drop (suc (suc (length xs))) (xs ++ y ∷ z ∷ ys) ≡ ys
  drop_two_more [] y z ys = refl
  drop_two_more (x ∷ xs) y z ys = drop_two_more xs y z ys

  pub get_elem?-next :
      (xs : List A) (y z : A) (ys : List A)
      → get_elem? (xs ++ y ∷ z ∷ ys) (suc (length xs)) ≡ some z
  get_elem?-next [] y z ys = refl
  get_elem?-next (x ∷ xs) y z ys = get_elem?-next xs y z ys
