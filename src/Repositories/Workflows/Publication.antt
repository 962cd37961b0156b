-- ===== src/Repositories/Workflows/Publication.antt =====
-- `publishLatestDraftVersion`: publication leaves one published version of the workflow.
use exec_loom.Base.{
  ℕ, Bool, true, false, ◌&&◌, Option, none, some, List, ◌≡◌, refl, sym, ap, ◌∙◌, inl, inr, ◌==◌,
  ==_iff, ==_refl, Bool-cases, All, All-map, and_true, ◌&&◌, arith,
}
use exec_loom.Database.Table.{
  select, select_one, update, has_key, Row, All-update, select_one-Row, IsKeyed, IsKeyed-Row,
  IsKeyed-update, Row-missed, Row-update,
}
use exec_loom.Errors.{ok}
use exec_loom.Repositories.Workflows.{
  WorkflowRecord, VersionRecord, Tables, version_published, is_published, is_owned, is_version_of,
  is_draft, is_draft_of, latest, retired, retire_active, published_at, activated, publish_draft,
  publish_latest_draft_version,
}
use exec_loom.Repositories.Workflows.Versions.{latest-Row, first_found}

-- The versions of `w` that are published are its active one.
abbrev pub OnlyActive : WorkflowRecord → List VersionRecord → Type 0
OnlyActive w versions =
    All
      (λ (u : VersionRecord).
        is_version_of w.id u ≡ true → is_published u ≡ true → w.active_version_id ≡ some u.id)
      versions

not_active : {o : Option ℕ} {id : ℕ} {b : Bool} → o ≡ none → (b ≡ true → o ≡ some id) → b ≡ false
not_active {b} e only = elim (Bool-cases b) [ inl p ↦ cc (only p, e) | inr p ↦ p ]

not_other :
    {o : Option ℕ} {id key : ℕ} {b : Bool}
    → (key == id && b) ≡ false
    → o ≡ some id
    → (b ≡ true → o ≡ some key)
    → b ≡ false
not_other {o} {id} {key} {b} miss e only = elim (Bool-cases b) [
  | inr p ↦ p
  | inl p ↦ let same : key ≡ id = cc (only p, e) in absurd (cc (rw (same, ==_refl id, p) at miss))
]

none_published :
    (now : ℕ) (w : WorkflowRecord) (active : Option ℕ) (versions : List VersionRecord)
    → w.active_version_id ≡ active
    → OnlyActive w versions
    → All
        (λ (u : VersionRecord). is_version_of w.id u ≡ true → is_published u ≡ false)
        (retire_active now active versions)
none_published now w none versions e h =
    All-map _ _ versions (λ (u : VersionRecord) only of_it. not_active e (only of_it)) h
none_published now w (some id) versions e h =
    All-update _ _ _ (retired now) versions (λ u m hit only of_it. refl)
      (λ u m miss only of_it. not_other miss e (only of_it)) h

-- A draft is not the version that is retired, and stays the row with its id.
draft_kept :
    (now : ℕ) (active : Option ℕ) (versions : List VersionRecord) (d : VersionRecord)
    → IsKeyed VersionRecord.id versions
    → Row d versions
    → is_published d ≡ false
    → select_one (has_key VersionRecord.id d.id) (retire_active now active versions) ≡ some d
draft_kept now none versions d keyed row unpublished =
    IsKeyed-Row VersionRecord.id versions keyed row
draft_kept now (some id) versions d keyed row unpublished =
    let p : VersionRecord → Bool = λ v. has_key VersionRecord.id id v && is_published v in
    IsKeyed-Row VersionRecord.id (update p (retired now) versions)
      (IsKeyed-update VersionRecord.id p (retired now) versions (λ v. refl) keyed)
      (Row-missed p (retired now) versions row (rw unpublished (ground arith)))

abbrev published_tables : ℕ → WorkflowRecord → VersionRecord → VersionRecord → Tables → Tables
published_tables now w d v t = record t {
  workflows = update (has_key WorkflowRecord.id w.id) (activated now v.id) t.workflows;
  versions =
      update (has_key VersionRecord.id d.id) (published_at now)
        (retire_active now w.active_version_id t.versions);
}

publish_returns :
    (now workflow_id owner_id : ℕ) (t : Tables) (w x : WorkflowRecord) (d r : VersionRecord)
    → select_one (is_owned workflow_id owner_id) t.workflows ≡ some w
    → latest (select (is_draft_of w.id) t.versions) ≡ some d
    → select_one (has_key VersionRecord.id d.id) (retire_active now w.active_version_id t.versions)
      ≡ some r
    → select_one (has_key WorkflowRecord.id w.id) t.workflows ≡ some x
    → publish_latest_draft_version now workflow_id owner_id t
      ≡ ok (
        version_published (activated now r.id x) (published_at now r),
        published_tables now w d (published_at now r) t,
      )
unfolding publish_latest_draft_version publish_draft
publish_returns now workflow_id owner_id t w x d r h latest_d found_version found_workflow =
    rw (publish_latest_draft_version, h, latest_d, publish_draft, found_version, found_workflow)
      refl

one_published :
    (now : ℕ) (w x : WorkflowRecord) (d r : VersionRecord) (versions : List VersionRecord)
    → r.id ≡ d.id
    → x.id ≡ w.id
    → All (λ (u : VersionRecord). is_version_of w.id u ≡ true → is_published u ≡ false) versions
    → OnlyActive
        (activated now r.id x)
        (update (has_key VersionRecord.id d.id) (published_at now) versions)
one_published now w x d r versions of_d of_w h =
    All-update _ _ _ (published_at now) versions
      (λ u m hit none_yet of_it is_it. ap some (of_d ∙ sym ((==_iff u.id d.id).0 hit)))
      (λ u m miss none_yet of_it is_it. cc (none_yet (rw of_w at of_it), is_it)) h

draft_unpublished :
    (workflow_id : ℕ) (d : VersionRecord)
    → is_draft_of workflow_id d ≡ true
    → is_published d ≡ false
draft_unpublished workflow_id d h =
    let drafted = (and_true (is_version_of workflow_id d) (is_draft d) h).1 in ground arith

-- What is known of the tables after the draft `d` of `w` was published as `v`, with the row `w'` of the
-- workflow.
pub record IsPublished (w : WorkflowRecord) (d : VersionRecord) (w' : WorkflowRecord)
    (v : VersionRecord) (after : Tables) : Type 0 where
  pub stored : Row v after.versions
  pub workflow_stored : Row w' after.workflows
  pub same_version : v.id ≡ d.id
  pub same_number : v.version_no ≡ d.version_no
  pub same_definition : v.definition_json ≡ d.definition_json
  pub same_input_schema : v.input_schema_json ≡ d.input_schema_json
  pub same_workflow : w'.id ≡ w.id
  pub published : is_published v ≡ true
  pub active : w'.active_version_id ≡ some v.id
  pub only_active : OnlyActive w' after.versions

-- Where versions have distinct ids and no version of a workflow is published but its active one, a
-- workflow of the owner's that has a draft can be published. Its draft with the highest number, with its
-- number, definition and schema, is then stored as a published version, the workflow's row has it as the
-- active version, and again no other version of the workflow is published.
pub publish-IsPublished :
    (now workflow_id owner_id : ℕ) (t : Tables) (w : WorkflowRecord) (d : VersionRecord)
    → IsKeyed VersionRecord.id t.versions
    → select_one (is_owned workflow_id owner_id) t.workflows ≡ some w
    → latest (select (is_draft_of w.id) t.versions) ≡ some d
    → OnlyActive w t.versions
    → (w' : WorkflowRecord) × (v : VersionRecord) × (after : Tables) × (publish_latest_draft_version
          now workflow_id owner_id t
        ≡ ok (version_published w' v, after))
      × IsPublished w d w' v after
publish-IsPublished now workflow_id owner_id t w d keyed h latest_d only =
    let versions = retire_active now w.active_version_id t.versions in
    let is_draft_id = has_key VersionRecord.id d.id in
    let is_it = has_key WorkflowRecord.id w.id in
    let (drafted, row) = latest-Row _ t.versions latest_d in
    let found_version =
      draft_kept now w.active_version_id t.versions d keyed row
        (draft_unpublished w.id d drafted) in
    let (x, found_workflow, of_w) =
      first_found is_it t.workflows (select_one-Row _ t.workflows h) (==_refl w.id) in
    (
      activated now d.id x,
      published_at now d,
      published_tables now w d (published_at now d) t,
      publish_returns now workflow_id owner_id t w x d d h latest_d found_version found_workflow,
      record {
        stored =
            Row-update is_draft_id (published_at now) versions
              (select_one-Row is_draft_id versions found_version) (==_refl d.id);
        workflow_stored =
            Row-update is_it (activated now d.id) t.workflows
              (select_one-Row is_it t.workflows found_workflow) of_w;
        same_version = refl;
        same_number = refl;
        same_definition = refl;
        same_input_schema = refl;
        same_workflow = (==_iff x.id w.id).0 of_w;
        published = refl;
        active = refl;
        only_active =
            one_published now w x d d versions refl ((==_iff x.id w.id).0 of_w)
              (none_published now w w.active_version_id t.versions refl only);
      },
    )
