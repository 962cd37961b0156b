-- ===== src/Scenarios/Publishing.antt =====
-- A workflow with a published version and a draft, at which the theorems on versions are applied.
use exec_loom.Base.{ℕ, none, some, [], ◌∷◌, ◌≡◌, refl}
use exec_loom.Database.Schema.{WorkflowVersionStatus}
use exec_loom.Errors.{ok}
use exec_loom.Json.Value.{null}
use exec_loom.Repositories.Workflows.Publication.{OnlyActive, IsPublished, publish-IsPublished}
use exec_loom.Repositories.Workflows.Versions.{IsNewDraft, create_draft-IsNewDraft}
use exec_loom.Repositories.Workflows.{
  WorkflowRecord, WorkflowStatus, VersionRecord, Tables, CreateVersionInput, version_published,
  latest, create_draft_workflow_version, publish_latest_draft_version,
}

abbrev workflow : WorkflowRecord
workflow = record {
  id = 1;
  owner_id = 7;
  name = "Greet";
  description = none;
  status = WorkflowStatus.published;
  active_version_id = some 2;
  created_at = 100;
  updated_at = 200;
  archived_at = none;
}

abbrev version : ℕ → ℕ → WorkflowVersionStatus → VersionRecord
version id version_no status = record {
  id = id;
  workflow_id = 1;
  version_no = version_no;
  status = status;
  input_schema_json = null;
  definition_json = null;
  created_at = 100;
  published_at = none;
  retired_at = none;
}

abbrev tables : Tables
tables = record {
  workflows = workflow ∷ [];
  versions =
      version 3 2 WorkflowVersionStatus.draft ∷ version 2 1 WorkflowVersionStatus.published ∷ [];
  next_id = 4;
}

abbrev input : CreateVersionInput
input = record { workflow_id = 1; owner_id = 7; input_schema_json = null; definition_json = null }

create_draft-IsNewDraft_example :
    (w' : WorkflowRecord) × (v : VersionRecord) × (after : Tables) × (create_draft_workflow_version
        300 input tables
      ≡ ok (some (w', v), after))
    × IsNewDraft input tables workflow w' v after
create_draft-IsNewDraft_example = create_draft-IsNewDraft 300 input tables workflow refl

latest_draft :
    latest (version 3 2 WorkflowVersionStatus.draft ∷ [])
    ≡ some (version 3 2 WorkflowVersionStatus.draft)
unfolding latest
latest_draft = refl

only_active : OnlyActive workflow tables.versions
only_active = (λ of_it is_it. cc, (λ of_it is_it. refl, tt))

publish-IsPublished_example :
    (w' : WorkflowRecord) × (v : VersionRecord) × (after : Tables) × (publish_latest_draft_version
        300 1 7 tables
      ≡ ok (version_published w' v, after))
    × IsPublished workflow (version 3 2 WorkflowVersionStatus.draft) w' v after
publish-IsPublished_example =
    publish-IsPublished 300 1 7 tables workflow (version 3 2 WorkflowVersionStatus.draft)
      (refl, (refl, tt)) refl latest_draft only_active
