-- ===== src/Finding/Predicate/Fields.antt =====
-- When the predicates on typed records fire, and when they say that the condition is disproved.
use scheck.Prelude.{
  String, Bool, true, false, not, ◌&&◌, ◌||◌, List, [], ◌∷◌, any, all, ◌≡◌, ◌≢◌, ◌↔◌, arith, ◌==◌,
  string_eq,
}
use scheck.Prelude.Strings.{trim_space, to_lower, equal_fold}
use scheck.Check.Record.{Record, Records, records, field, has_marker}
use scheck.Finding.Predicate.{
  matched, not_matched, known, FieldEquals, field_equals_loop, eval_field_equals, FieldOutside,
  field_outside_loop, field_outside_of, eval_field_outside, any_record_of, eval_any_record,
}

-- The field was not read, or not in full.
abbrev pub unread : String → Record → Bool
unread name rec = let v = trim_space (field rec name) in v == "" || has_marker v

module _ (p : FieldEquals) where
  -- The record's field was read in full, and holds the value.
  abbrev pub holds : Record → Bool
  holds rec = not (unread p.name rec) && equal_fold (trim_space (field rec p.name)) p.value

  -- The record's field was read in full, and holds one of the known values, another one.
  abbrev pub clear : Record → Bool
  clear rec =
      let v = trim_space (field rec p.name) in
      not (unread p.name rec) && not (equal_fold v p.value) && known (to_lower v) p.known_values

  abbrev strange : Record → Bool
  strange rec = not (known (to_lower (trim_space (field rec p.name))) p.known_values)

  equals-matched :
      (recs : List Record) (is_part odd : Bool)
      → ((field_equals_loop p is_part odd recs).status ≡ matched) ↔ (any holds recs ≡ true)
  unfolding field_equals_loop
  equals-matched [] true odd = ground arith
  equals-matched [] false true = ground arith
  equals-matched [] false false = ground arith
  equals-matched (rec ∷ recs) is_part odd =
      ground
        (arith, equals-matched recs is_part true, equals-matched recs is_part (odd || strange rec))

  equals-not_matched :
      (recs : List Record) (is_part odd : Bool)
      → ((field_equals_loop p is_part odd recs).status ≡ not_matched)
        ↔ ((is_part ≡ false) × (odd ≡ false) × (all clear recs ≡ true))
  unfolding field_equals_loop
  equals-not_matched [] true odd = ground arith
  equals-not_matched [] false true = ground arith
  equals-not_matched [] false false = ground arith
  equals-not_matched (rec ∷ recs) is_part odd = ground (
    arith,
    equals-not_matched recs is_part true,
    equals-not_matched recs is_part (odd || strange rec),
  )

  -- `FieldEquals` fires exactly when a record's field holds the value, also over a partial population. It
  -- says that none does exactly when the population is complete and every record's field was read in full
  -- and holds another known value.
  pub eval_field_equals_iff :
      (r : Records)
      → (((eval_field_equals p (records r)).status ≡ matched) ↔ (any holds r.items ≡ true))
        × (((eval_field_equals p (records r)).status ≡ not_matched)
            ↔ ((r.is_partial ≡ false) × (all clear r.items ≡ true)))
  unfolding eval_field_equals
  eval_field_equals_iff r = (
    equals-matched r.items r.is_partial false,
    ground (arith, equals-not_matched r.items r.is_partial false),
  )

-- `AnyRecord` fires exactly when there is a record, and says that there is none only of a complete
-- population.
eval_any_record_iff :
    (recs : List Record) (is_part : Bool)
    → (((eval_any_record (records (record { items = recs; is_partial = is_part }))).status
          ≡ matched)
        ↔ (recs ≢ []))
      × (((eval_any_record (records (record { items = recs; is_partial = is_part }))).status
            ≡ not_matched)
          ↔ ((is_part ≡ false) × (recs ≡ [])))
unfolding eval_any_record any_record_of
eval_any_record_iff [] true = ground arith
eval_any_record_iff [] false = ground arith
eval_any_record_iff (rec ∷ recs) is_part = ground arith

module _ (p : FieldOutside) where
  -- The record's field was read in full, has a readable shape, and is allowed.
  abbrev pub allowed_value : Record → Bool
  allowed_value rec =
      let v = trim_space (field rec p.name) in
      not (unread p.name rec || not (p.recognize v)) && known v p.allowed

  outside-not_matched :
      (first : String) (recs : List Record)
      → ((field_outside_loop p first recs).status ≡ not_matched) ↔ (all allowed_value recs ≡ true)
  unfolding field_outside_loop
  outside-not_matched first [] = ground arith
  outside-not_matched first (rec ∷ recs) = ground (arith, outside-not_matched first recs)

  -- `FieldOutside` says that no record is outside the allowed set exactly when there is a record and every
  -- one it was given was read in full and is allowed. Whether the population is partial plays no part: a
  -- partial one that holds allowed records alone passes like a complete one.
  eval_field_outside_iff :
      (rec : Record) (recs : List Record) (is_part : Bool)
      → ((eval_field_outside p
            (records (record { items = rec ∷ recs; is_partial = is_part }))).status
          ≡ not_matched)
        ↔ (all allowed_value (rec ∷ recs) ≡ true)
  unfolding eval_field_outside field_outside_of
  eval_field_outside_iff rec recs is_part = outside-not_matched _ (rec ∷ recs)
