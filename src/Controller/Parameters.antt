-- ===== src/Controller/Parameters.antt =====
-- The loop of `createVolume` over the parameters of the storage class. Go walks a map in any order,
-- and no key twice.
use baiducloud_cce_csi_drive.Base.{
  String, Option, none, some, List, [], ◌∷◌, ◌≡◌, ◌∙◌, refl, inl, inr, Bool-cases, Result-cases,
  arith, ◌==◌, eq_iff, lookup, Result, ok, err, if◌then◌else◌,
}
use baiducloud_cce_csi_drive.Base.Int.{ℤ, pos}
use baiducloud_cce_csi_drive.Util.Number.{parse_int}

abbrev pub storage_type_key : String
storage_type_key = "storageType"

abbrev pub payment_timing_key : String
payment_timing_key = "paymentTiming"

abbrev pub reservation_length_key : String
reservation_length_key = "reservationLength"

abbrev pub reservation_time_unit_key : String
reservation_time_unit_key = "reservationTimeUnit"

pub record Parameters : Type 0 where
  pub storage_type : String
  pub payment_timing : String
  pub reservation_length : ℤ
  pub reservation_time_unit : String

pub data ParameterError : Type 0 where
  invalid_reservation_length : ParameterError

abbrev pub no_parameters : Parameters
no_parameters = record {
  storage_type = "";
  payment_timing = "";
  reservation_length = pos 0;
  reservation_time_unit = "";
}

-- compatibility storage type: ssd => cloud_hp1
abbrev compatible : String → String
compatible value = if value == "ssd" then "cloud_hp1" else value

-- `reservationLength` after the case of its key.
unfoldable pub read_length : ℤ → String → Result ParameterError ℤ
read_length old value =
    if value == ""
    then ok old
    else elim (parse_int value) [ some n ↦ ok n | none ↦ err invalid_reservation_length ]

-- One round of the loop.
set_parameter : String → String → Parameters → Result ParameterError Parameters
set_parameter key value p =
    if key == storage_type_key
    then ok (record p { storage_type = compatible value })
    else if key == payment_timing_key
    then ok (record p { payment_timing = value })
    else if key == reservation_length_key
    then elim (read_length p.reservation_length value) [
      | ok n ↦ ok (record p { reservation_length = n })
      | err e ↦ err e
    ]
    else if key == reservation_time_unit_key
    then ok (record p { reservation_time_unit = value })
    else ok p

unfoldable pub parse_parameters :
    List (String × String) → Parameters → Result ParameterError Parameters
unfolding set_parameter
parse_parameters [] p = ok p
parse_parameters ((key, value) ∷ rest) p = elim (set_parameter key value p) [
  | ok q ↦ parse_parameters rest q
  | err e ↦ err e
]

-- No key stands twice.
abbrev pub DistinctKeys {ℓ} : {V : Type ℓ} → List (String × V) → Type ℓ
DistinctKeys [] = Unit
DistinctKeys ((k, v) ∷ rest) = (lookup k rest ≡ none) × DistinctKeys rest

abbrev or_old {ℓ} : {A : Type ℓ} → Option A → A → A
or_old (some a) b = a
or_old none b = b

-- What the parameters say, key by key.
unfoldable pub by_key : List (String × String) → Parameters → Result ParameterError Parameters
by_key ps p =
    elim (read_length p.reservation_length (or_old (lookup reservation_length_key ps) "")) [
      | ok n ↦ ok (record {
        storage_type = elim (lookup storage_type_key ps) [
          | some v ↦ compatible v
          | none ↦ p.storage_type
        ];
        payment_timing = or_old (lookup payment_timing_key ps) p.payment_timing;
        reservation_length = n;
        reservation_time_unit =
            or_old (lookup reservation_time_unit_key ps) p.reservation_time_unit;
      })
      | err e ↦ err e
    ]

read_length-empty : (n : ℤ) → read_length n "" ≡ ok n
unfolding read_length
read_length-empty n = refl

module _ (v : String) (ps : List (String × String)) (p : Parameters) where
  -- One round at each of the four keys, when the rest of the parameters does not have it.
  storage_type_round :
      lookup storage_type_key ps ≡ none
      → parse_parameters ps (record p { storage_type = compatible v })
        ≡ by_key ps (record p { storage_type = compatible v })
      → parse_parameters ((storage_type_key, v) ∷ ps) p ≡ by_key ((storage_type_key, v) ∷ ps) p
  unfolding parse_parameters by_key lookup
  storage_type_round fresh ih = ih ∙ ground (arith, fresh)

  payment_timing_round :
      lookup payment_timing_key ps ≡ none
      → parse_parameters ps (record p { payment_timing = v })
        ≡ by_key ps (record p { payment_timing = v })
      → parse_parameters ((payment_timing_key, v) ∷ ps) p ≡ by_key ((payment_timing_key, v) ∷ ps) p
  unfolding parse_parameters by_key lookup
  payment_timing_round fresh ih = ih ∙ ground (arith, fresh)

  reservation_time_unit_round :
      lookup reservation_time_unit_key ps ≡ none
      → parse_parameters ps (record p { reservation_time_unit = v })
        ≡ by_key ps (record p { reservation_time_unit = v })
      → parse_parameters ((reservation_time_unit_key, v) ∷ ps) p
        ≡ by_key ((reservation_time_unit_key, v) ∷ ps) p
  unfolding parse_parameters by_key lookup
  reservation_time_unit_round fresh ih = ih ∙ ground (arith, fresh)

  reservation_length_round :
      lookup reservation_length_key ps ≡ none
      → ((n : ℤ)
          → parse_parameters ps (record p { reservation_length = n })
            ≡ by_key ps (record p { reservation_length = n }))
      → parse_parameters ((reservation_length_key, v) ∷ ps) p
        ≡ by_key ((reservation_length_key, v) ∷ ps) p
  unfolding parse_parameters by_key lookup
  reservation_length_round fresh ih = elim (Result-cases (read_length p.reservation_length v)) [
    | inl (n, e) ↦ ground (arith, e, ih n, fresh, read_length-empty n)
    | inr (x, e) ↦ ground (arith, e)
  ]

-- Where no key stands twice, the loop gives what the parameters say key by key, so that the order
-- in which Go walks the map does not matter: the length is refused if it is not empty and no
-- integer of 64 bits, `ssd` is stored as `cloud_hp1`, and unknown keys are ignored.
pub parse_parameters-by_key :
    (ps : List (String × String)) (p : Parameters)
    → DistinctKeys ps
    → parse_parameters ps p ≡ by_key ps p
unfolding parse_parameters by_key lookup
parse_parameters-by_key [] p d = unfold read_length in refl
parse_parameters-by_key ((k, v) ∷ ps) p (fresh, d) = elim (Bool-cases (k == storage_type_key)) [
  | inl a ↦
      let e : k ≡ storage_type_key = (eq_iff k storage_type_key).0 a in
      rw e (storage_type_round v ps p (rw e at fresh) (parse_parameters-by_key ps _ d))
  | inr a ↦ elim (Bool-cases (k == payment_timing_key)) [
    | inl b ↦
        let e : k ≡ payment_timing_key = (eq_iff k payment_timing_key).0 b in
        rw e (payment_timing_round v ps p (rw e at fresh) (parse_parameters-by_key ps _ d))
    | inr b ↦ elim (Bool-cases (k == reservation_length_key)) [
      | inl c ↦
          let e : k ≡ reservation_length_key = (eq_iff k reservation_length_key).0 c in
          rw e
            (reservation_length_round v ps p (rw e at fresh) (λ n. parse_parameters-by_key ps _ d))
      | inr c ↦ elim (Bool-cases (k == reservation_time_unit_key)) [
        | inl u ↦
            let e : k ≡ reservation_time_unit_key = (eq_iff k reservation_time_unit_key).0 u in
            rw e
              (reservation_time_unit_round v ps p (rw e at fresh) (parse_parameters-by_key ps _ d))
        | inr u ↦ ground (arith, a, b, c, u, parse_parameters-by_key ps p d)
      ]
    ]
  ]
]
