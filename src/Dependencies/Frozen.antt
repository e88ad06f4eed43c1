-- ===== src/Dependencies/Frozen.antt =====
-- What an accepted export contains.
use budget_analyzer_api_test.Base.{
  ◌≡◌, refl, sym, ◌∙◌, ap, ◌↔◌, Bool, true, false, ◌&&◌, not, List, [], ◌∷◌, ◌++◌, arith, contains,
  keep, if◌then◌else◌, Option, none, some, String, all-contains, null-keep-not, all_of_contains,
  all, null, string_eq, nat_eq, null-append, bool_eq, option_eq,
}
use budget_analyzer_api_test.Base.Prefix.{has_part}
use budget_analyzer_api_test.Dependencies.Pins.{
  LockedRequirement, locked_requirement_eq, pinned_export,
}
use budget_analyzer_api_test.Dependencies.{
  ExportIssue, no_requirements, not_exact, no_hash, missing_locked, unexpected_exported, flushed,
  scanned, block_issues, exported_requirements, set_issues, validate_hashed_export,
}

-- A requirement of the export with an exact version and a SHA-256 hash.
abbrev pub is_hashed_pin : String → Bool
is_hashed_pin block = elim (pinned_export block) [
  | none ↦ false
  | some pin ↦ has_part "--hash=sha256:" block
]

null-block_issues : (blocks : List String) → null (block_issues blocks) ≡ all is_hashed_pin blocks
null-block_issues [] = refl
null-block_issues (block ∷ blocks) =
    step (null-block_issues blocks) (pinned_export block) (has_part "--hash=sha256:" block)
  where
    step :
        null (block_issues blocks) ≡ all is_hashed_pin blocks
        → (o : Option LockedRequirement) (hashed : Bool)
        → (let issues : List ExportIssue = elim o [
          | none ↦ not_exact block ∷ block_issues blocks
          | some pin ↦
              if hashed then block_issues blocks else no_hash pin.name ∷ block_issues blocks
        ] in
            null issues)
          ≡ (let fits : Bool = elim o [ none ↦ false | some pin ↦ hashed ] in
              fits && all is_hashed_pin blocks)
    step rest none hashed = refl
    step rest (some pin) true = rest
    step rest (some pin) false = refl

same_sets :
    (locked exported : List LockedRequirement)
    → all (λ r. contains exported r) locked ≡ true
    → all (λ r. contains locked r) exported ≡ true
    → (r : LockedRequirement) → contains exported r ≡ contains locked r
same_sets locked exported h k r = ground (
  arith,
  all-contains (λ r. contains exported r) locked r h,
  all-contains (λ r. contains locked r) exported r k,
)

null-set_issues :
    (locked exported : List LockedRequirement)
    → null (set_issues locked exported)
      ≡ (all (λ r. contains exported r) locked && all (λ r. contains locked r) exported)
null-set_issues locked exported =
    split (keep (λ r. not (contains exported r)) locked)
      (keep (λ r. not (contains locked r)) exported)
    ∙ ap (λ b. b && null (keep (λ r. not (contains locked r)) exported))
        (null-keep-not (λ r. contains exported r) locked)
    ∙ ap (λ b. all (λ r. contains exported r) locked && b)
        (null-keep-not (λ r. contains locked r) exported)
  where
    split :
        (missing unexpected : List LockedRequirement)
        → null (
            (if null missing then [] else missing_locked missing ∷ [])
            ++ (if null unexpected then [] else unexpected_exported unexpected ∷ []))
          ≡ (null missing && null unexpected)
    split [] [] = refl
    split [] (u ∷ us) = refl
    split (m ∷ ms) us = refl

-- The export's requirements are those of the lock, each with an exact version and a hash.
pub record IsFrozen (export : String) (locked : List LockedRequirement) : Type 0 where
  pub continued : null (scanned export).issues ≡ true
  pub stated : null (flushed (scanned export)) ≡ false
  pub hashed : all is_hashed_pin (flushed (scanned export)) ≡ true
  pub same :
      (r : LockedRequirement)
      → contains (exported_requirements (flushed (scanned export))) r ≡ contains locked r

null_issues : (xs : List ExportIssue) → null xs ≡ true → xs ≡ []
null_issues [] h = refl
null_issues (x ∷ xs) h = cc

pub validate_hashed_export_iff :
    (export : String) (locked : List LockedRequirement)
    → (validate_hashed_export export locked ≡ []) ↔ IsFrozen export locked
unfolding validate_hashed_export
validate_hashed_export_iff export locked = (there, back)
  where
    blocks : List String
    blocks = flushed (scanned export)

    found : List ExportIssue
    found = (scanned export).issues ++ block_issues blocks

    exported : List LockedRequirement
    exported = exported_requirements blocks

    parts : null found ≡ (null (scanned export).issues && all is_hashed_pin blocks)
    parts =
        null-append (scanned export).issues (block_issues blocks)
        ∙ ap (λ b. null (scanned export).issues && b) (null-block_issues blocks)

    there : validate_hashed_export export locked ≡ [] → IsFrozen export locked
    there h =
        let nothing : null (validate_hashed_export export locked) ≡ true = ap null h in
        branch (null blocks) (null found) refl refl nothing
      where
        branch :
            (p q : Bool)
            → null blocks ≡ p
            → null found ≡ q
            → null (
                if p
                then no_requirements ∷ []
                else if not q
                then found
                else set_issues locked exported)
              ≡ true
            → IsFrozen export locked
        branch true q hp hq h = cc
        branch false false hp hq h = absurd (ground (arith, hq, h))
        branch false true hp hq h =
            let both = sym (null-set_issues locked exported) ∙ h in
            record {
              continued = ground (arith, parts);
              stated = hp;
              hashed = ground (arith, parts);
              same = same_sets locked exported (ground arith) (ground arith);
            }

    back : IsFrozen export locked → validate_hashed_export export locked ≡ []
    back f =
        let clean : null found ≡ true = parts ∙ ground (arith, f.continued, f.hashed) in
        let one : all (λ r. contains exported r) locked ≡ true =
          all_of_contains (λ r. contains exported r) locked (λ r m. f.same r ∙ m) in
        let two : all (λ r. contains locked r) exported ≡ true =
          all_of_contains (λ r. contains locked r) exported (λ r m. sym (f.same r) ∙ m) in
        rw (f.stated, clean)
          (null_issues (set_issues locked exported)
            (null-set_issues locked exported ∙ rw (one, two) refl))
