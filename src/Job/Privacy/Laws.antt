-- ===== src/Job/Privacy/Laws.antt =====
-- What the inspection of job data accepts.
use silo_core.Base.{Bool, true, false, ◌≡◌, refl, ◌↔◌, ◌⊎◌, inl, inr, arith, if◌then◌else◌}
use silo_core.Json.{Json, Items, Fields, array, object, nil, cons, end, field}
use silo_core.Errors.{Result, ok, err, invalid_input}
use silo_core.Job.Privacy.{
  is_secret_key, is_private_content_key, inspect_job_data, inspect_items, inspect_fields,
  assert_job_data_is_sanitized, unsanitized, ◌then_check◌,
}

-- No field at any depth has a name of either kind.
unfoldable mutual
  pub IsSanitized : Json → Type 0
  IsSanitized (array items) = AllSanitized items
  IsSanitized (object fields) = FieldsSanitized fields
  IsSanitized _ = Unit

  pub AllSanitized : Items → Type 0
  AllSanitized nil = Unit
  AllSanitized (cons item items) = IsSanitized item × AllSanitized items

  pub FieldsSanitized : Fields → Type 0
  FieldsSanitized end = Unit
  FieldsSanitized (field key nested fields) =
      (is_secret_key key ≡ false)
      × (is_private_content_key key ≡ false)
      × IsSanitized nested
      × FieldsSanitized fields

both_checked : (a b : Result (Unit {0})) → (a then_check b) ≡ ok tt → (a ≡ ok tt) × (b ≡ ok tt)
both_checked (ok tt) b h = (refl, h)
both_checked (err e) b h = cc

key_checked :
    (s c : Bool) (r : Result (Unit {0}))
    → (if s then unsanitized else if c then unsanitized else r) ≡ ok tt
    → (s ≡ false) × (c ≡ false) × (r ≡ ok tt)
key_checked s c r h = ground arith

abbrev Thrown : Result (Unit {0}) → Type 0
Thrown r = (r ≡ ok tt) ⊎ (r ≡ unsanitized)

then_check-Thrown : (a b : Result (Unit {0})) → Thrown a → Thrown b → Thrown (a then_check b)
then_check-Thrown a b (inl e) hb = rw e hb
then_check-Thrown a b (inr e) hb = rw e (inr refl)

keyed :
    (s c : Bool) (r : Result (Unit {0}))
    → Thrown r
    → Thrown (if s then unsanitized else if c then unsanitized else r)
keyed true c r h = inr refl
keyed false true r h = inr refl
keyed false false r h = h

mutual
  unfolding inspect_job_data

  inspect_total : (v : Json) → Thrown (inspect_job_data v)
  inspect_total (array items) = inspect_items_total items
  inspect_total (object fields) = inspect_fields_total fields
  inspect_total _ = inl refl

  inspect_items_total : (v : Items) → Thrown (inspect_items v)
  inspect_items_total nil = inl refl
  inspect_items_total (cons v vs) = then_check-Thrown _ _ (inspect_total v) (inspect_items_total vs)

  inspect_fields_total : (v : Fields) → Thrown (inspect_fields v)
  inspect_fields_total end = inl refl
  inspect_fields_total (field k v vs) =
      then_check-Thrown _ _ (keyed (is_secret_key k) (is_private_content_key k) _ (inspect_total v))
        (inspect_fields_total vs)

mutual
  unfolding inspect_job_data IsSanitized

  inspect_sound : (v : Json) → inspect_job_data v ≡ ok tt → IsSanitized v
  inspect_sound (array items) h = inspect_items_sound items h
  inspect_sound (object fields) h = inspect_fields_sound fields h
  inspect_sound _ h = tt

  inspect_items_sound : (v : Items) → inspect_items v ≡ ok tt → AllSanitized v
  inspect_items_sound nil h = tt
  inspect_items_sound (cons v vs) h =
      let (first, rest) = both_checked _ _ h in (inspect_sound v first, inspect_items_sound vs rest)

  inspect_fields_sound : (v : Fields) → inspect_fields v ≡ ok tt → FieldsSanitized v
  inspect_fields_sound end h = tt
  inspect_fields_sound (field k v vs) h =
      let (first, rest) = both_checked _ _ h in
      let (no_secret, no_content, inner) = key_checked _ _ _ first in
      (no_secret, no_content, inspect_sound v inner, inspect_fields_sound vs rest)

mutual
  unfolding inspect_job_data IsSanitized

  inspect_complete : (v : Json) → IsSanitized v → inspect_job_data v ≡ ok tt
  inspect_complete (array items) h = inspect_items_complete items h
  inspect_complete (object fields) h = inspect_fields_complete fields h
  inspect_complete _ h = refl

  inspect_items_complete : (v : Items) → AllSanitized v → inspect_items v ≡ ok tt
  inspect_items_complete nil h = refl
  inspect_items_complete (cons v vs) (first, rest) =
      rw (inspect_complete v first) (inspect_items_complete vs rest)

  inspect_fields_complete : (v : Fields) → FieldsSanitized v → inspect_fields v ≡ ok tt
  inspect_fields_complete end h = refl
  inspect_fields_complete (field k v vs) (no_secret, no_content, inner, rest) =
      rw (no_secret, no_content, inspect_complete v inner) (inspect_fields_complete vs rest)

-- The inspection passes exactly the values with no field, at any depth of arrays and objects, whose
-- name is that of a secret or of private content.
pub assert_job_data_is_sanitized_iff :
    (v : Json) → (assert_job_data_is_sanitized v ≡ ok tt) ↔ IsSanitized v
unfolding assert_job_data_is_sanitized
assert_job_data_is_sanitized_iff v = (inspect_sound v, inspect_complete v)

-- Either the value passes, or the inspection throws its one error.
pub sanitized_or_thrown :
    (v : Json)
    → (assert_job_data_is_sanitized v ≡ ok tt)
      ⊎ (assert_job_data_is_sanitized v ≡ err (invalid_input "JOB_DATA_UNSANITIZED"))
unfolding assert_job_data_is_sanitized
sanitized_or_thrown v = inspect_total v
