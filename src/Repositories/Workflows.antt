-- ===== src/Repositories/Workflows.antt =====
-- packages/db/src/repositories/workflows.ts: workflows and their versions, with all columns. The two
-- tables stand by themselves; an operation returns the tables that it leaves, and one that throws is
-- rolled back.
pub mod Versions
pub mod Publication
use exec_loom.Base.{
  ℕ, suc, ◌+◌, String, Bool, true, false, ◌&&◌, Option, none, some, List, [], ◌∷◌, map, leb, ◌==◌,
  if◌then◌else◌,
}
use exec_loom.Database.Schema.{WorkflowVersionStatus}
use exec_loom.Database.Table.{select, select_one, exists_row, update, returning, has_key}
use exec_loom.Errors.{
  Error, Result, ok, thrown, ◌>>=◌, unique_violation, failed_to_update_workflow,
  failed_to_publish_version, failed_to_update_active_version,
}
use exec_loom.Json.Value.{Json}

pub data WorkflowStatus : Type 0 where
  draft published archived : WorkflowStatus

pub record WorkflowRecord : Type 0 where
  pub id : ℕ
  pub owner_id : ℕ
  pub name : String
  pub description : Option String
  pub status : WorkflowStatus
  pub active_version_id : Option ℕ
  pub created_at : ℕ
  pub updated_at : ℕ
  pub archived_at : Option ℕ

pub record VersionRecord : Type 0 where
  pub id : ℕ
  pub workflow_id : ℕ
  pub version_no : ℕ
  pub status : WorkflowVersionStatus
  pub input_schema_json : Json
  pub definition_json : Json
  pub created_at : ℕ
  pub published_at : Option ℕ
  pub retired_at : Option ℕ

pub record Tables : Type 0 where
  pub workflows : List WorkflowRecord
  pub versions : List VersionRecord
  pub next_id : ℕ

-- `CreateWorkflowRecordInput`
pub record CreateWorkflowInput : Type 0 where
  pub owner_id : ℕ
  pub name : String
  pub description : Option String
  pub input_schema_json : Json
  pub definition_json : Json

-- `CreateWorkflowVersionRecordInput`
pub record CreateVersionInput : Type 0 where
  pub workflow_id : ℕ
  pub owner_id : ℕ
  pub input_schema_json : Json
  pub definition_json : Json

abbrev pub is_draft : VersionRecord → Bool
is_draft v = elim v.status [ WorkflowVersionStatus.draft ↦ true | _ ↦ false ]

abbrev pub is_published : VersionRecord → Bool
is_published v = elim v.status [ WorkflowVersionStatus.published ↦ true | _ ↦ false ]

abbrev pub is_owned : ℕ → ℕ → WorkflowRecord → Bool
is_owned workflow_id owner_id w =
    has_key WorkflowRecord.id workflow_id w && (w.owner_id == owner_id)

abbrev pub is_version_of : ℕ → VersionRecord → Bool
is_version_of workflow_id v = v.workflow_id == workflow_id

abbrev pub is_draft_of : ℕ → VersionRecord → Bool
is_draft_of workflow_id v = is_version_of workflow_id v && is_draft v

-- `order by version_no desc`, and its `limit 1`.
abbrev pub later_of : VersionRecord → Option VersionRecord → VersionRecord
later_of v none = v
later_of v (some u) = if leb u.version_no v.version_no then v else u

unfoldable pub latest : List VersionRecord → Option VersionRecord
latest [] = none
latest (v ∷ versions) = some (later_of v (latest versions))

abbrev insert_latest : VersionRecord → List VersionRecord → List VersionRecord
insert_latest v [] = v ∷ []
insert_latest v (u ∷ versions) =
    if leb u.version_no v.version_no then v ∷ u ∷ versions else u ∷ insert_latest v versions

unfoldable pub order_latest : List VersionRecord → List VersionRecord
order_latest [] = []
order_latest (v ∷ versions) = insert_latest v (order_latest versions)

abbrev or_throw : {A : Type 0} → Error → Option A → Result A
or_throw e none = thrown e
or_throw e (some a) = ok a

abbrev pub has_number : VersionRecord → VersionRecord → Bool
has_number v u = (u.workflow_id == v.workflow_id) && (u.version_no == v.version_no)

abbrev pub new_version : ℕ → ℕ → ℕ → Json → Json → ℕ → VersionRecord
new_version now workflow_id version_no input_schema_json definition_json id = record {
  id = id;
  workflow_id = workflow_id;
  version_no = version_no;
  status = WorkflowVersionStatus.draft;
  input_schema_json = input_schema_json;
  definition_json = definition_json;
  created_at = now;
  published_at = none;
  retired_at = none;
}

-- An insert, which the unique index on the workflow and the number of a version may refuse.
unfoldable pub insert_version : VersionRecord → Tables → Result (VersionRecord × Tables)
insert_version v t =
    if exists_row (has_number v) t.versions
    then thrown unique_violation
    else ok (v, record t { versions = v ∷ t.versions; next_id = suc t.next_id })

abbrev new_workflow : ℕ → CreateWorkflowInput → ℕ → WorkflowRecord
new_workflow now input id = record {
  id = id;
  owner_id = input.owner_id;
  name = input.name;
  description = input.description;
  status = draft;
  active_version_id = none;
  created_at = now;
  updated_at = now;
  archived_at = none;
}

unfoldable pub create_workflow_with_initial_version :
    ℕ → CreateWorkflowInput → Tables → Result (WorkflowRecord × VersionRecord × Tables)
unfolding insert_version
create_workflow_with_initial_version now input t =
    let w = new_workflow now input t.next_id in
    let v = new_version now w.id 1 input.input_schema_json input.definition_json (suc t.next_id) in
    insert_version v (record t { workflows = w ∷ t.workflows; next_id = suc t.next_id }) >>= λ r.
    ok (w, r.0, r.1)

unfoldable pub get_workflow_detail_by_owner :
    ℕ → ℕ → Tables → Option (WorkflowRecord × List VersionRecord)
unfolding order_latest
get_workflow_detail_by_owner workflow_id owner_id t =
    elim (select_one (is_owned workflow_id owner_id) t.workflows) [
      | none ↦ none
      | some w ↦ some (w, order_latest (select (is_version_of w.id) t.versions))
    ]

abbrev pub retired : ℕ → VersionRecord → VersionRecord
retired now v = record v { status = WorkflowVersionStatus.retired; retired_at = some now }

-- `(latestVersion?.versionNo ?? 0) + 1`
abbrev pub next_number : Option VersionRecord → ℕ
next_number none = 1
next_number (some v) = v.version_no + 1

abbrev pub touched : ℕ → WorkflowRecord → WorkflowRecord
touched now w = record w { updated_at = now }

-- Behind the search for the workflow.
unfoldable pub create_draft :
    ℕ
    → CreateVersionInput
    → WorkflowRecord
    → Tables
    → Result (WorkflowRecord × VersionRecord × Tables)
unfolding insert_version latest
create_draft now input w t =
    let n = next_number (latest (select (is_version_of w.id) t.versions)) in
    let is_it = has_key WorkflowRecord.id w.id in
    insert_version (new_version now w.id n input.input_schema_json input.definition_json t.next_id)
      (record t { versions = update (is_draft_of w.id) (retired now) t.versions })
    >>= λ r.
        or_throw failed_to_update_workflow (returning is_it (touched now) r.1.workflows) >>= λ w'.
        ok (w', r.0, record r.1 { workflows = update is_it (touched now) r.1.workflows })

unfoldable pub create_draft_workflow_version :
    ℕ → CreateVersionInput → Tables → Result (Option (WorkflowRecord × VersionRecord) × Tables)
unfolding create_draft
create_draft_workflow_version now input t =
    elim (select_one (is_owned input.workflow_id input.owner_id) t.workflows) [
      | none ↦ ok (none, t)
      | some w ↦ create_draft now input w t >>= λ r. ok (some (r.0, r.1), r.2)
    ]

pub data PublishResult : Type 0 where
  not_found : PublishResult
  no_draft : WorkflowRecord → PublishResult
  version_published : WorkflowRecord → VersionRecord → PublishResult

-- `if (workflow.activeVersionId)`
abbrev pub retire_active : ℕ → Option ℕ → List VersionRecord → List VersionRecord
retire_active now none versions = versions
retire_active now (some id) versions =
    update (λ v. has_key VersionRecord.id id v && is_published v) (retired now) versions

abbrev pub published_at : ℕ → VersionRecord → VersionRecord
published_at now v = record v { status = WorkflowVersionStatus.published; published_at = some now }

abbrev pub activated : ℕ → ℕ → WorkflowRecord → WorkflowRecord
activated now version_id w = record w {
  status = published;
  active_version_id = some version_id;
  updated_at = now;
}

-- Behind the search for the draft `d` of the workflow `w`.
unfoldable pub publish_draft :
    ℕ → WorkflowRecord → VersionRecord → Tables → Result (PublishResult × Tables)
publish_draft now w d t =
    let versions = retire_active now w.active_version_id t.versions in
    let is_it = has_key VersionRecord.id d.id in
    let is_workflow = has_key WorkflowRecord.id w.id in
    or_throw failed_to_publish_version (returning is_it (published_at now) versions) >>= λ v.
    or_throw failed_to_update_active_version
      (returning is_workflow (activated now v.id) t.workflows)
    >>= λ w'. ok (
      version_published w' v,
      record t {
        workflows = update is_workflow (activated now v.id) t.workflows;
        versions = update is_it (published_at now) versions;
      },
    )

unfoldable pub publish_latest_draft_version : ℕ → ℕ → ℕ → Tables → Result (PublishResult × Tables)
unfolding publish_draft latest
publish_latest_draft_version now workflow_id owner_id t =
    elim (select_one (is_owned workflow_id owner_id) t.workflows) [
      | none ↦ ok (not_found, t)
      | some w ↦ elim (latest (select (is_draft_of w.id) t.versions)) [
        | none ↦ ok (no_draft w, t)
        | some d ↦ publish_draft now w d t
      ]
    ]
