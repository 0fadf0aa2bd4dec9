-- ===== src/Rollout/Sound/Coverage.antt =====
-- The prefixes that a record names, and the evidence published for them.
use network_change_delivery.Base.{
  String, true, false, ◌≡◌, refl, sym, ap, ◌∙◌, some, List, [], ◌∷◌, ◌++◌, map, length, take,
  take-append_left, length-append, length-map, map-append, list_eq, list_beq_iff, string_eq,
  option_eq, ◌==◌, Bool-cases, inl, inr, ◌+◌, arith, ◌≢◌, is_empty, suc, append-nil, bool_beq,
}
use network_change_delivery.Rollout.Audit.{
  child_record_id, chronology_record_id, RecordReference, RecordIds,
}
use network_change_delivery.Rollout.Parent.{
  RolloutAudit, reference_ids, last, all_but_last, get_elem?, incomplete_last_allowed,
  coverage_valid, expected_children, expected_chronology,
}

module _ (ys xs rest : List String) (split : ys ≡ xs ++ rest) where
  pub prefix_test : (xs == take (length xs) ys) ≡ true
  prefix_test =
      (list_beq_iff xs (take (length xs) ys)).1
        (sym (ap (take (length xs)) split ∙ take-append_left xs rest))

pub ne_of_length : (xs ys : List String) → length xs ≢ length ys → (xs == ys) ≡ false
ne_of_length xs ys n = elim (Bool-cases (xs == ys)) [
  | inl same ↦ absurd (n (ap length ((list_beq_iff xs ys).0 same)))
  | inr other ↦ other
]

pub length-reference_ids : (rs : List RecordReference) → length (reference_ids rs) ≡ length rs
length-reference_ids [] = refl
length-reference_ids (r ∷ rs) = ap suc (length-reference_ids rs)

pub last_append : (xs : List String) (d : String) → last (xs ++ d ∷ []) ≡ some d
last_append [] d = refl
last_append (x ∷ []) d = refl
last_append (x ∷ y ∷ xs) d = last_append (y ∷ xs) d

pub all_but_last_append : (xs : List String) (d : String) → all_but_last (xs ++ d ∷ []) ≡ xs
all_but_last_append [] d = refl
all_but_last_append (x ∷ []) d = refl
all_but_last_append (x ∷ y ∷ xs) d = ap (λ t. x ∷ t) (all_but_last_append (y ∷ xs) d)

pub get_elem?_append :
    (xs ys : List String) (d : String) → get_elem? (xs ++ d ∷ ys) (length xs) ≡ some d
get_elem?_append [] ys d = refl
get_elem?_append (x ∷ xs) ys d = get_elem?_append xs ys d

pub is_empty_append : (xs : List String) (d : String) → is_empty (xs ++ d ∷ []) ≡ false
is_empty_append [] d = refl
is_empty_append (x ∷ xs) d = refl

module _ (ids : RecordIds) (r : RolloutAudit) where
  abbrev child_of : List String → List String
  child_of = map (child_record_id ids r.record_id)

  abbrev chronology_of : List String → List String
  chronology_of ds = map (chronology_record_id ids) (child_of ds)

  -- The child and the chronology records of these members are published.
  module _ (published bracketed rest rest' : List String) (split : r.attempted ≡ published ++ rest)
      (split' : r.attempted ≡ bracketed ++ rest')
      (child_ids : reference_ids r.child_records ≡ child_of published)
      (chronology_ids : reference_ids r.chronology_records ≡ chronology_of bracketed) where
    child_prefix :
        (reference_ids r.child_records
          == take (length (reference_ids r.child_records)) (expected_children ids r))
        ≡ true
    child_prefix = prefix_test _ (reference_ids r.child_records) (child_of rest) (
        ap child_of split
        ∙ map-append (child_record_id ids r.record_id) published rest
        ∙ ap (λ t. t ++ child_of rest) (sym child_ids))

    chronology_prefix :
        (reference_ids r.chronology_records
          == take (length (reference_ids r.chronology_records)) (expected_chronology ids r))
        ≡ true
    chronology_prefix = prefix_test _ (reference_ids r.chronology_records) (chronology_of rest') (
        ap chronology_of split'
        ∙ ap (map (chronology_record_id ids))
            (map-append (child_record_id ids r.record_id) bracketed rest')
        ∙ map-append (chronology_record_id ids) (child_of bracketed) (child_of rest')
        ∙ ap (λ t. t ++ chronology_of rest') (sym chronology_ids))

    length-children : length (reference_ids r.child_records) ≡ length published
    length-children = ap length child_ids ∙ length-map _ published

    length-chronologies : length (reference_ids r.chronology_records) ≡ length bracketed
    length-chronologies =
        ap length chronology_ids ∙ length-map _ (child_of bracketed) ∙ length-map _ bracketed

  -- Everything attempted is covered.
  pub coverage_complete :
      reference_ids r.child_records ≡ child_of r.attempted
      → reference_ids r.chronology_records ≡ chronology_of r.attempted
      → r.child_evidence_complete ≡ true
      → coverage_valid ids r ≡ true
  unfolding coverage_valid bool_beq
  coverage_complete c h e = ground (
    arith,
    child_prefix r.attempted r.attempted [] [] (sym (append-nil _)) (sym (append-nil _)) c h,
    chronology_prefix r.attempted r.attempted [] [] (sym (append-nil _)) (sym (append-nil _)) c h,
    length-children r.attempted r.attempted [] [] (sym (append-nil _)) (sym (append-nil _)) c h,
    length-chronologies r.attempted r.attempted [] [] (sym (append-nil _)) (sym (append-nil _)) c h,
    (list_beq_iff (reference_ids r.child_records) (expected_children ids r)).1 c,
    (list_beq_iff (reference_ids r.chronology_records) (expected_chronology ids r)).1 h,
  )

  -- Only the last attempt may lack its records, and only after a failure.
  module _ (done : List String) (d : String) (attempted : r.attempted ≡ done ++ d ∷ [])
      (allowed : incomplete_last_allowed r ≡ true) (incomplete : r.child_evidence_complete ≡ false)
      (chronology_ids : reference_ids r.chronology_records ≡ chronology_of done) where
    length-attempted : length r.attempted ≡ length done + 1
    length-attempted = ap length attempted ∙ length-append done (d ∷ [])

    chronology_short : (reference_ids r.chronology_records == expected_chronology ids r) ≡ false
    chronology_short = ne_of_length _ _ (λ e. absurd (
        omega (
          arith,
          e,
          length-attempted,
          length-map (child_record_id ids r.record_id) r.attempted,
          length-map (chronology_record_id ids) (child_of r.attempted),
          ap length chronology_ids,
          length-map (child_record_id ids r.record_id) done,
          length-map (chronology_record_id ids) (child_of done),
        )))

    pub coverage_partial :
        reference_ids r.child_records ≡ child_of (done ++ d ∷ []) → coverage_valid ids r ≡ true
    unfolding coverage_valid bool_beq
    coverage_partial c = ground (
      arith,
      child_prefix (done ++ d ∷ []) done [] (d ∷ []) (attempted ∙ sym (append-nil _)) attempted c
          chronology_ids,
      chronology_prefix (done ++ d ∷ []) done [] (d ∷ []) (attempted ∙ sym (append-nil _)) attempted
          c chronology_ids,
      length-children (done ++ d ∷ []) done [] (d ∷ []) (attempted ∙ sym (append-nil _)) attempted c
          chronology_ids,
      length-chronologies (done ++ d ∷ []) done [] (d ∷ []) (attempted ∙ sym (append-nil _))
          attempted c chronology_ids,
      length-attempted,
      length-append done (d ∷ []),
      chronology_short,
    )

    pub coverage_missing :
        reference_ids r.child_records ≡ child_of done → coverage_valid ids r ≡ true
    unfolding coverage_valid bool_beq
    coverage_missing c = ground (
      arith,
      child_prefix done done (d ∷ []) (d ∷ []) attempted attempted c chronology_ids,
      chronology_prefix done done (d ∷ []) (d ∷ []) attempted attempted c chronology_ids,
      length-children done done (d ∷ []) (d ∷ []) attempted attempted c chronology_ids,
      length-chronologies done done (d ∷ []) (d ∷ []) attempted attempted c chronology_ids,
      length-attempted,
      chronology_short,
    )
