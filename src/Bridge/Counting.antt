-- ===== src/Bridge/Counting.antt =====
-- How the loops of `handle_post_parameters` pass the names of an update on.
use vehicle_detection_system.Common.{
  ◌≡◌, refl, ap, ℕ, suc, ◌+◌, true, false, Option, none, some, List, [], ◌∷◌, ◌++◌, map, Bytes, ◌≟◌,
  ◌==◌, is_empty, length, length-append, get_elem?, if◌then◌else◌, if_ind, inl, inr, arith, codes,
}
use vehicle_detection_system.Common.Results.{Result-cases}
use vehicle_detection_system.Common.Double.{Double}
use vehicle_detection_system.ParameterJson.Value.{Json, Nlohmann}
use vehicle_detection_system.ParameterJson.Convert.{json_to_parameter_value}
use vehicle_detection_system.Bridge.Client.{ParameterDescriptor, SetParametersResult}
use vehicle_detection_system.Bridge.Update.{Progress, reject, record_results, prepare_one, prepare}

abbrev pub names_of : {A : Type 0} → List (Bytes × A) → List Bytes
names_of pairs = map (λ (key, a). key) pairs

-- How often a name stands in a list.
unfoldable pub occurrences : Bytes → List Bytes → ℕ
occurrences x [] = 0
occurrences x (y ∷ ys) = (if x ≟ y then 1 else 0) + occurrences x ys

occurrences-append :
    (x : Bytes) (xs ys : List Bytes)
    → occurrences x (xs ++ ys) ≡ occurrences x xs + occurrences x ys
unfolding occurrences
occurrences-append x [] ys = omega arith
occurrences-append x (y ∷ xs) ys = omega (arith, occurrences-append x xs ys)

pub none_lem :
    {A : Type 0} (x : Bytes) (xs : List A) (names : List Bytes)
    → is_empty xs ≡ true
    → length xs ≡ length names
    → occurrences x names ≡ 0
unfolding occurrences
none_lem x [] [] h e = refl
none_lem x [] (n ∷ names) h e = absurd (omega arith)
none_lem x (y ∷ xs) names h e = absurd (ground arith)

names_of-append :
    {A : Type 0} (ps qs : List (Bytes × A)) → names_of (ps ++ qs) ≡ names_of ps ++ names_of qs
names_of-append [] qs = refl
names_of-append (p ∷ ps) qs = ap (λ r. p.0 ∷ r) (names_of-append ps qs)

one_more : {A : Type 0} (xs : List A) (y : A) → is_empty (xs ++ y ∷ []) ≡ false
one_more [] y = refl
one_more (x ∷ xs) y = refl

module _ {D : Type 0} where
  -- The names that have an answer, and those that are still to be set.
  abbrev pub answers : Bytes → Progress D → ℕ
  answers x p = occurrences x p.updated + occurrences x (names_of p.rejected)

  abbrev pub held : Bytes → Progress D → ℕ
  held x p = answers x p + occurrences x p.to_set_names

  -- The flag says whether a name is rejected, and the two lists of what is to be set are of one length.
  abbrev pub IsTidy : Progress D → Type 0
  IsTidy p = (is_empty p.rejected ≡ p.overall_ok) × (length p.to_set ≡ length p.to_set_names)

  reject_lem :
      (x name reason : Bytes) (p : Progress D)
      → answers x (reject name reason p) ≡ answers x p + occurrences x (name ∷ [])
  unfolding reject
  reject_lem x name reason p =
      rw (names_of-append p.rejected ((name, reason) ∷ []))
        (omega (arith, occurrences-append x (names_of p.rejected) (name ∷ [])))

  -- A step that accounts for one more name.
  abbrev Takes : Bytes → Bytes → Progress D → Progress D → Type 0
  Takes x name p next = (held x next ≡ held x p + occurrences x (name ∷ [])) × IsTidy next

  reject-Takes :
      (x name reason : Bytes) (p : Progress D) → IsTidy p → Takes x name p (reject name reason p)
  unfolding reject
  reject-Takes x name reason p (_, same) =
      (omega (arith, reject_lem x name reason p), (one_more p.rejected (name, reason), same))

module _ {D : Type 0} ⦃d : Double D⦄ (nlohmann : Nlohmann D) where
  prepare_one-Takes :
      (x : Bytes) (o : Option ParameterDescriptor) (name : Bytes) (raw : Json D) (p : Progress D)
      → IsTidy p
      → Takes x name p (prepare_one nlohmann o name raw p)
  unfolding prepare_one
  prepare_one-Takes x none name raw p h = reject-Takes x name _ p h
  prepare_one-Takes x (some descriptor) name raw p h =
      if_ind (Takes x name p) (descriptor.type == 0) _ _ (λ e. reject-Takes x name _ p h)
        (λ e. elim (Result-cases (json_to_parameter_value nlohmann raw descriptor.type)) [
          | inl (value, c) ↦ rw c (
            omega (arith, occurrences-append x p.to_set_names (name ∷ [])),
            (
              h.0,
              omega (
                arith,
                h.1,
                length-append p.to_set (record { name = name; value = value } ∷ []),
                length-append p.to_set_names (name ∷ []),
              ),
            ),
          )
          | inr (reason, c) ↦ rw c (reject-Takes x name reason p h)
        ])

  pub prepare_lem :
      (x : Bytes) (descriptors : List ParameterDescriptor) (i : ℕ) (items : List (Bytes × Json D))
      (p : Progress D)
      → IsTidy p
      → let next = prepare nlohmann descriptors i items p in
        (held x next ≡ held x p + occurrences x (names_of items)) × IsTidy next
  unfolding prepare occurrences
  prepare_lem x ds i [] p h = (omega arith, h)
  prepare_lem x ds i ((name, raw) ∷ items) p h =
      let (one, tidy) = prepare_one-Takes x (get_elem? ds i) name raw p h in
      let (rest, last) = prepare_lem x ds (suc i) items _ tidy in (omega (arith, one, rest), last)

module _ {D : Type 0} where
  -- A step that answers one more name.
  abbrev Answers : Bytes → Bytes → Progress D → Progress D → Type 0
  Answers x name p next =
      (answers x next ≡ answers x p + occurrences x (name ∷ []))
      × (is_empty next.rejected ≡ next.overall_ok)

  reject-Answers :
      (x name reason : Bytes) (p : Progress D) → Answers x name p (reject name reason p)
  unfolding reject
  reject-Answers x name reason p = (reject_lem x name reason p, one_more p.rejected (name, reason))

  update-Answers :
      (x name : Bytes) (p : Progress D)
      → is_empty p.rejected ≡ p.overall_ok
      → Answers x name p (record p { updated = p.updated ++ name ∷ [] })
  update-Answers x name p h = (omega (arith, occurrences-append x p.updated (name ∷ [])), h)

  pub record_results_lem :
      (x : Bytes) (results : List SetParametersResult) (names : List Bytes) (p : Progress D)
      → length results ≡ length names
      → is_empty p.rejected ≡ p.overall_ok
      → let next = record_results results names p in
        (answers x next ≡ answers x p + occurrences x names)
        × (is_empty next.rejected ≡ next.overall_ok)
  unfolding record_results occurrences
  record_results_lem x [] [] p e h = (omega arith, h)
  record_results_lem x [] (name ∷ names) p e h = absurd (omega arith)
  record_results_lem x (r ∷ results) [] p e h = absurd (omega arith)
  record_results_lem x (r ∷ results) (name ∷ names) p e h =
      let reason = if is_empty r.reason then codes "rejected by node" else r.reason in
      let next =
        if r.successful
        then record p { updated = p.updated ++ name ∷ [] }
        else reject name reason p in
      let (one, fits) : Answers x name p next =
        if_ind (Answers x name p) r.successful _ _ (λ good. update-Answers x name p h)
          (λ bad. reject-Answers x name reason p) in
      let (rest, last) = record_results_lem x results names next (omega (arith, e)) fits in
      (omega (arith, one, rest), last)
