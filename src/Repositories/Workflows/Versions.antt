-- ===== src/Repositories/Workflows/Versions.antt =====
-- `createDraftWorkflowVersion`: a new draft is the latest version and the only draft.
use exec_loom.Base.{
  ℕ, suc, ◌≤◌, ◌<◌, Bool, true, false, Option, none, some, List, [], ◌∷◌, ◌≡◌, refl, sym, ◌∙◌, inl,
  inr, arith, leb, ==_iff, ==_refl, and_true, Bool-cases, Option-cases, All, All-map, subst,
}
use exec_loom.Database.Table.{
  select, select_one, exists_row, update, has_key, Row, All-update, All-rows, Row-missed,
  Row-update, select_one-Row, exists_row-false,
}
use exec_loom.Errors.{ok}
use exec_loom.Repositories.Workflows.{
  WorkflowRecord, VersionRecord, Tables, CreateVersionInput, is_draft, is_owned, is_version_of,
  is_draft_of, later_of, latest, has_number, new_version, insert_version, retired, next_number,
  touched, create_draft, create_draft_workflow_version,
}

later_above :
    (v : VersionRecord) (o : Option VersionRecord)
    → (v.version_no < next_number (some (later_of v o)))
      × (next_number o ≤ next_number (some (later_of v o)))
later_above v none = (omega arith, omega arith)
later_above v (some u) = elim (Bool-cases (leb u.version_no v.version_no)) [
  | inl e ↦ rw e (omega arith, ground arith)
  | inr e ↦ rw e (ground arith, omega arith)
]

-- The versions that `p` picks have numbers below `n`.
abbrev pub NumbersBelow : (VersionRecord → Bool) → ℕ → List VersionRecord → Type 0
NumbersBelow p n versions = All (λ (u : VersionRecord). p u ≡ true → u.version_no < n) versions

below_more :
    (p : VersionRecord → Bool) (m n : ℕ) (versions : List VersionRecord)
    → m ≤ n
    → NumbersBelow p m versions
    → NumbersBelow p n versions
below_more p m n [] le h = tt
below_more p m n (v ∷ versions) le h = (λ e. omega (arith, h.0 e), below_more p m n versions le h.1)

latest_step :
    (p : VersionRecord → Bool) (v : VersionRecord) (versions : List VersionRecord)
    → (p v ≡ true → v.version_no < next_number (latest (select p (v ∷ versions))))
      × (next_number (latest (select p versions)) ≤ next_number (latest (select p (v ∷ versions))))
unfolding latest
latest_step p v versions = elim (Bool-cases (p v)) [
  | inl e ↦
      let (first, others) = later_above v (latest (select p versions)) in rw e (λ h. first, others)
  | inr e ↦ rw e (λ h. cc, omega arith)
]

-- The number behind the latest one is above all numbers of the rows that were searched.
latest_above :
    (p : VersionRecord → Bool) (versions : List VersionRecord)
    → NumbersBelow p (next_number (latest (select p versions))) versions
latest_above p [] = tt
latest_above p (v ∷ versions) =
    let (first, others) = latest_step p v versions in
    (first, below_more p _ _ versions others (latest_above p versions))

pub latest-Row :
    (p : VersionRecord → Bool) (versions : List VersionRecord) {d : VersionRecord}
    → latest (select p versions) ≡ some d
    → (p d ≡ true) × Row d versions
unfolding latest
latest-Row p [] h = cc
latest-Row p (v ∷ versions) {d} h = elim (Bool-cases (p v)) [
  | inr e ↦ let r = latest-Row p versions {d = d} (rw e at h) in (r.0, inr r.1)
  | inl e ↦ elim (Option-cases (latest (select p versions))) [
    | inl n ↦ let eq : d ≡ v = ground arith in (rw eq e, inl eq)
    | inr (u, s) ↦
        let r = latest-Row p versions s in
        elim (Bool-cases (leb u.version_no v.version_no)) [
          | inl l ↦ let eq : d ≡ v = ground arith in (rw eq e, inl eq)
          | inr l ↦
              let eq : d ≡ u = ground arith in
              (rw eq r.0, inr (subst (λ z. Row z versions) (sym eq) r.1))
        ]
  ]
]

pub first_found :
    {A : Type 0} (q : A → Bool) (xs : List A) {a : A}
    → Row a xs
    → q a ≡ true
    → (b : A) × (select_one q xs ≡ some b) × (q b ≡ true)
first_found q [] m e = absurd m
first_found q (x ∷ xs) (inl same) e = let hit : q x ≡ true = rw same at e in (x, rw hit refl, hit)
first_found q (x ∷ xs) (inr m) e = elim (Bool-cases (q x)) [
  | inl hit ↦ (x, rw hit refl, hit)
  | inr miss ↦ let (b, s, h) = first_found q xs m e in (b, rw (miss, s) refl, h)
]

-- What is known of a new draft `v` of `w`, and of the tables that it leaves, with the row `w'` of the
-- workflow.
pub record IsNewDraft (input : CreateVersionInput) (t : Tables) (w w' : WorkflowRecord)
    (v : VersionRecord) (after : Tables) : Type 0 where
  pub stored : Row v after.versions
  pub workflow_stored : Row w' after.workflows
  pub same_workflow : w'.id ≡ w.id
  pub of_workflow : v.workflow_id ≡ w.id
  pub drafted : is_draft v ≡ true
  pub definition : v.definition_json ≡ input.definition_json
  pub input_schema : v.input_schema_json ≡ input.input_schema_json
  pub others_kept :
      All (λ (u : VersionRecord). is_draft_of w.id u ≡ false → Row u after.versions) t.versions
  pub above : NumbersBelow (is_version_of w.id) v.version_no t.versions
  pub only_draft : All (λ (u : VersionRecord). is_draft_of w.id u ≡ true → u ≡ v) after.versions

not_has_number :
    (workflow_id : ℕ) (v u : VersionRecord)
    → v.workflow_id ≡ workflow_id
    → (is_version_of workflow_id u ≡ true → u.version_no < v.version_no)
    → has_number v u ≡ false
not_has_number workflow_id v u same below = elim (Bool-cases (has_number v u)) [
  | inr e ↦ e
  | inl e ↦
      let (by_workflow, by_number) = and_true _ _ e in
      let of_it = (==_iff u.workflow_id workflow_id).1 ((==_iff _ _).0 by_workflow ∙ same) in
      absurd (omega (arith, below of_it, (==_iff u.version_no v.version_no).0 by_number))
]

number_free :
    (now workflow_id : ℕ) (v : VersionRecord) (versions : List VersionRecord)
    → v.workflow_id ≡ workflow_id
    → NumbersBelow (is_version_of workflow_id) v.version_no versions
    → exists_row (has_number v) (update (is_draft_of workflow_id) (retired now) versions) ≡ false
number_free now workflow_id v versions same below = exists_row-false (has_number v) _ (
    All-update _ _ (is_draft_of workflow_id) (retired now) versions
      (λ u m e h. not_has_number workflow_id v u same h)
      (λ u m e h. not_has_number workflow_id v u same h) below)

no_drafts :
    (now workflow_id : ℕ) (versions : List VersionRecord)
    → All
        (λ (u : VersionRecord). is_draft_of workflow_id u ≡ false)
        (update (is_draft_of workflow_id) (retired now) versions)
no_drafts now workflow_id [] = tt
no_drafts now workflow_id (v ∷ versions) = (
  elim (Bool-cases (is_draft_of workflow_id v)) [ inl e ↦ rw e (ground arith) | inr e ↦ rw e e ],
  no_drafts now workflow_id versions,
)

abbrev draft_of : ℕ → CreateVersionInput → WorkflowRecord → Tables → VersionRecord
draft_of now input w t =
    new_version now w.id (next_number (latest (select (is_version_of w.id) t.versions)))
      input.input_schema_json input.definition_json t.next_id

abbrev drafted_tables : ℕ → ℕ → VersionRecord → Tables → Tables
drafted_tables now workflow_id v t = record t {
  workflows = update (has_key WorkflowRecord.id workflow_id) (touched now) t.workflows;
  versions = v ∷ update (is_draft_of workflow_id) (retired now) t.versions;
  next_id = suc t.next_id;
}

create_draft_returns :
    (now : ℕ) (input : CreateVersionInput) (t : Tables) (w x : WorkflowRecord)
    → select_one (is_owned input.workflow_id input.owner_id) t.workflows ≡ some w
    → exists_row
        (has_number (draft_of now input w t))
        (update (is_draft_of w.id) (retired now) t.versions)
      ≡ false
    → select_one (has_key WorkflowRecord.id w.id) t.workflows ≡ some x
    → create_draft_workflow_version now input t
      ≡ ok (
        some (touched now x, draft_of now input w t),
        drafted_tables now w.id (draft_of now input w t) t,
      )
unfolding create_draft_workflow_version create_draft insert_version
create_draft_returns now input t w x h free found =
    rw (create_draft_workflow_version, h, create_draft, insert_version, free, found) refl

-- A new draft of a workflow of the owner's can always be made, whatever versions there are: its number
-- is above the numbers of all versions of the workflow, so that the unique index never refuses it. The
-- tables then hold it, with the definition and the schema that were given, and the workflow's row; it is
-- the workflow's only draft, and every version that was no draft of the workflow is kept as it is.
pub create_draft-IsNewDraft :
    (now : ℕ) (input : CreateVersionInput) (t : Tables) (w : WorkflowRecord)
    → select_one (is_owned input.workflow_id input.owner_id) t.workflows ≡ some w
    → (w' : WorkflowRecord) × (v : VersionRecord) × (after : Tables)
      × (create_draft_workflow_version now input t ≡ ok (some (w', v), after))
      × IsNewDraft input t w w' v after
create_draft-IsNewDraft now input t w h =
    let v = draft_of now input w t in
    let is_it = has_key WorkflowRecord.id w.id in
    let below = latest_above (is_version_of w.id) t.versions in
    let (x, found, same) =
      first_found is_it t.workflows (select_one-Row _ t.workflows h) (==_refl w.id) in
    (
      touched now x,
      v,
      drafted_tables now w.id v t,
      create_draft_returns now input t w x h (number_free now w.id v t.versions refl below) found,
      record {
        stored = inl refl;
        workflow_stored =
            Row-update is_it (touched now) t.workflows (select_one-Row is_it t.workflows found)
              same;
        same_workflow = (==_iff x.id w.id).0 same;
        of_workflow = refl;
        drafted = refl;
        definition = refl;
        input_schema = refl;
        others_kept =
            All-rows _ t.versions
              λ u m miss. inr (Row-missed (is_draft_of w.id) (retired now) t.versions m miss);
        above = below;
        only_draft = (λ e. refl, All-map _ _ _ (λ u e e'. cc) (no_drafts now w.id t.versions));
      },
    )
