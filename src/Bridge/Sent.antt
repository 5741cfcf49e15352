-- ===== src/Bridge/Sent.antt =====
-- What `handle_post_parameters` asks a node to set.
use vehicle_detection_system.Common.{
  ◌≡◌, refl, ℕ, zero, suc, ◌==◌, some, List, [], ◌∷◌, Bytes, get_elem?, drop, All, All-append,
  if_ind, subst, Option-cases, inl, inr, arith,
}
use vehicle_detection_system.Common.Results.{ok, Result-cases, Then}
use vehicle_detection_system.Common.Double.{Double}
use vehicle_detection_system.ParameterJson.Value.{Json, Nlohmann, Parameter, type_number}
use vehicle_detection_system.ParameterJson.Convert.{json_to_parameter_value}
use vehicle_detection_system.ParameterJson.Typed.{
  CastsWithin, IsStored, IsInRange, IsOf, json_to_parameter_value-IsOf,
}
use vehicle_detection_system.Bridge.Client.{ParameterDescriptor}
use vehicle_detection_system.Bridge.Update.{Progress, no_progress, reject, prepare_one, prepare}

drop_lem :
    {A : Type 0} (xs : List A) (i : ℕ) (y : A) (ys : List A)
    → drop i xs ≡ y ∷ ys
    → (get_elem? xs i ≡ some y) × (drop (suc i) xs ≡ ys)
drop_lem [] zero y ys e = absurd (ground arith)
drop_lem [] (suc i) y ys e = absurd (ground arith)
drop_lem (x ∷ xs) zero y ys e = (ground arith, ground arith)
drop_lem (x ∷ xs) (suc i) y ys e = drop_lem xs i y ys e

module _ {D : Type 0} ⦃d : Double D⦄ (casts : CastsWithin D) (nlohmann : Nlohmann D)
    (descriptors : List ParameterDescriptor) (items : List (Bytes × Json D)) where
  -- A parameter that comes from an item of the request and the descriptor at its place: its value is the
  -- item's, converted, of the type that the descriptor declares, and in range.
  pub record IsDeclared (p : Parameter D) : Type 0 where
    pub place : ℕ
    pub raw : Json D
    pub descriptor : ParameterDescriptor
    pub asked : get_elem? items place ≡ some (p.name, raw)
    pub described : get_elem? descriptors place ≡ some descriptor
    pub converted : json_to_parameter_value nlohmann raw descriptor.type ≡ ok p.value
    pub typed : type_number p.value ≡ descriptor.type
    pub in_range : IsInRange p.value

  prepare_one-IsDeclared :
      (i : ℕ) (name : Bytes) (raw : Json D) (p : Progress D)
      → get_elem? items i ≡ some (name, raw)
      → IsStored raw
      → All IsDeclared p.to_set
      → All IsDeclared (prepare_one nlohmann (get_elem? descriptors i) name raw p).to_set
  unfolding prepare_one reject
  prepare_one-IsDeclared i name raw p asked stored h =
      elim (Option-cases (get_elem? descriptors i)) [
        | inl e ↦ rw e h
        | inr (descriptor, e) ↦ rw e (
            if_ind (λ (next : Progress D). All IsDeclared next.to_set) (descriptor.type == 0) _ _
              (λ c. h)
              (λ c. elim (Result-cases (json_to_parameter_value nlohmann raw descriptor.type)) [
                | inr (message, f) ↦ rw f h
                | inl (value, f) ↦
                    let (typed, in_range) : IsOf descriptor.type value =
                      subst (Then (IsOf descriptor.type)) f
                        (json_to_parameter_value-IsOf casts nlohmann raw descriptor.type stored) in
                    rw f (
                      All-append IsDeclared p.to_set _ h (
                        record {
                          place = i;
                          raw = raw;
                          descriptor = descriptor;
                          asked = asked;
                          described = e;
                          converted = f;
                          typed = typed;
                          in_range = in_range;
                        },
                        tt,
                      ))
              ]))
      ]

  prepare-IsDeclared :
      (i : ℕ) (rest : List (Bytes × Json D)) (p : Progress D)
      → drop i items ≡ rest
      → All (λ (name, raw). IsStored raw) rest
      → All IsDeclared p.to_set
      → All IsDeclared (prepare nlohmann descriptors i rest p).to_set
  unfolding prepare
  prepare-IsDeclared i [] p e s h = h
  prepare-IsDeclared i ((name, raw) ∷ rest) p e (s, ss) h =
      let (asked, next) = drop_lem items i (name, raw) rest e in
      prepare-IsDeclared (suc i) rest _ next ss (prepare_one-IsDeclared i name raw p asked s h)

  -- With the casts of doubles within 64 bits, and a request whose integers are of 64 bits: each parameter
  -- that a node is asked to set stands in the request, at a place where the node has described it; its
  -- value is what the request says, converted to the type that the descriptor declares, of that type, and
  -- with its integers in range.
  pub sent-IsDeclared :
      All (λ (name, raw). IsStored raw) items
      → All IsDeclared (prepare nlohmann descriptors 0 items no_progress).to_set
  sent-IsDeclared stored = prepare-IsDeclared 0 items no_progress refl stored tt
