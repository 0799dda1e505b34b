-- ===== src/I18n/English/Part5.antt =====
-- web/src/lib/i18n/en.ts, lines 495 to 618.
use ku_crud.Base.{String, [], ◌∷◌}
use ku_crud.Base.Assoc.{Assoc}

abbrev pub english_5 : Assoc String
english_5 =
    ("imp.insertAll", "Insert all {count} rows (best effort)")
    ∷ ("imp.result", "Result")
    ∷ ("imp.inserted", "{count} inserted")
    ∷ ("imp.failed", "{count} failed")
    ∷ ("imp.backGrid", "Back to Data Grid")
    ∷ ("ds.title", "Datasource Connections")
    ∷ ("ds.subtitle", "Manage database connections and credentials for dynamic CRUD generation")
    ∷ ("ds.add", "Add Datasource")
    ∷ ("ds.updated", "Datasource updated successfully")
    ∷ ("ds.created", "Datasource created successfully")
    ∷ ("ds.saveFailed", "Save failed")
    ∷ ("ds.testOk", "Database connection successful!")
    ∷ ("ds.testFailed", "Connection test failed")
    ∷ ("ds.loading", "Loading datasources...")
    ∷ ("ds.empty", "No datasources connected")
    ∷ ("ds.emptyHint", "Add a database connection to generate dynamic CRUD tables.")
    ∷ ("ds.create", "Create Datasource")
    ∷ ("ds.ssl", "SSL: {mode}")
    ∷ ("ds.testing", "Testing...")
    ∷ ("ds.test", "Test Connection")
    ∷ ("ds.editTitle", "Edit Datasource")
    ∷ ("ds.deleteTitle", "Delete Datasource")
    ∷ ("ds.deleteConfirm", "Delete datasource connection \"{name}\"?")
    ∷ ("ds.editDialog", "Edit Datasource Connection")
    ∷ ("ds.newDialog", "New Datasource Connection")
    ∷ ("ds.dialogDesc", "Provide connection details for {driver} database")
    ∷ ("ds.label", "Datasource Label")
    ∷ ("ds.labelPh", "e.g. Production DB")
    ∷ ("ds.driver", "Driver")
    ∷ ("ds.host", "Host")
    ∷ ("ds.port", "Port")
    ∷ ("ds.dbname", "Database Name")
    ∷ ("ds.username", "Username")
    ∷ ("ds.password", "Password")
    ∷ ("ds.passwordKeep", "Password (blank = keep)")
    ∷ ("ds.sslmode", "SSL Mode")
    ∷ ("ds.connect", "Connect Datasource")
    ∷ ("audit.title", "Audit Trail Logs")
    ∷ (
      "audit.subtitle",
      "Real-time track of all database mutations, row inserts, updates, and deletions",
    )
    ∷ ("audit.allTables", "All Tables")
    ∷ ("audit.allActions", "All Actions")
    ∷ ("audit.timestamp", "Timestamp")
    ∷ ("audit.table", "Target Table")
    ∷ ("audit.user", "User")
    ∷ ("audit.action", "Action")
    ∷ ("audit.rowKey", "Row Key")
    ∷ ("audit.diff", "Diff Inspector")
    ∷ ("audit.loading", "Loading audit trail logs...")
    ∷ ("audit.empty", "No audit entries found")
    ∷ ("audit.unknownTable", "unknown table")
    ∷ ("audit.viewDiff", "View Diff")
    ∷ ("audit.totalEntries", "Total {count} log entries")
    ∷ ("audit.entryLog", "Audit Entry Log #{id}")
    ∷ ("audit.oldState", "Previous State (Old Values)")
    ∷ ("audit.newState", "New State (New Values)")
    ∷ ("ob.title", "Hook Outbox")
    ∷ (
      "ob.hint",
      "After-hooks run in the background. Failed entries retry automatically with backoff; dead entries need a manual retry.",
    )
    ∷ ("ob.refresh", "Refresh")
    ∷ ("ob.retry", "Retry")
    ∷ ("ob.retryOk", "Entry queued for retry")
    ∷ ("ob.filter.all", "All statuses")
    ∷ ("ob.status.pending", "Pending")
    ∷ ("ob.status.done", "Done")
    ∷ ("ob.status.dead", "Dead")
    ∷ ("ob.col.created", "Created")
    ∷ ("ob.col.event", "Event")
    ∷ ("ob.col.hook", "Hook")
    ∷ ("ob.col.status", "Status")
    ∷ ("ob.col.attempts", "Attempts")
    ∷ ("ob.col.lastError", "Last error")
    ∷ ("ob.empty", "No entries")
    ∷ ("meta.accessRequired", "Platform Management access required.")
    ∷ ("meta.title", "Definitions Transfer")
    ∷ (
      "meta.subtitle",
      "Export every table definition, datasource (connection settings only — passwords are never exported) and sidebar group as JSON, or import such a file from another instance.",
    )
    ∷ ("meta.export", "Export")
    ∷ (
      "meta.exportDesc",
      "Downloads a ku-crud-meta JSON snapshot of this instance's metadata. No passwords are included.",
    )
    ∷ ("meta.exporting", "Exporting...")
    ∷ ("meta.download", "Download definitions JSON")
    ∷ ("meta.step1", "1. Upload File")
    ∷ ("meta.step1Desc", "Choose a ku-crud-meta JSON file to import (max 2 MB)")
    ∷ ("meta.analyzing", "Analyzing...")
    ∷ ("meta.chooseJson", "Choose JSON file")
    ∷ ("meta.step2", "2. Review & Select")
    ∷ (
      "meta.step2Desc",
      "New and conflicting items default to overwrite; identical duplicates default to skip. New datasources need a password before they can be created.",
    )
    ∷ ("meta.datasources", "Datasources ({count})")
    ∷ ("meta.tables", "Tables ({count})")
    ∷ ("meta.ref", "Ref")
    ∷ ("meta.status", "Status")
    ∷ ("meta.mode", "Mode")
    ∷ ("meta.password", "Password")
    ∷ ("meta.dependencies", "Dependencies")
    ∷ ("meta.conflicts", "conflicts: {list}")
    ∷ ("meta.passwordPh", "password")
    ∷ ("meta.existingDs", "— existing datasource —")
    ∷ ("meta.noDs", "No datasources in file")
    ∷ ("meta.noTables", "No tables in file")
    ∷ ("meta.skip", "skip")
    ∷ ("meta.overwrite", "overwrite")
    ∷ ("meta.skipForced", "skip (forced)")
    ∷ ("meta.invalidTitle", "Invalid tables cannot be imported")
    ∷ ("meta.resolved", "resolved (local or in file)")
    ∷ ("meta.unresolved", "unresolved")
    ∷ ("meta.step3", "3. Apply")
    ∷ (
      "meta.step3Desc",
      "Runs in a single transaction — either everything applies or nothing changes. Every write is audited.",
    )
    ∷ ("meta.importGroups", "Import table groups")
    ∷ ("meta.importing", "Importing...")
    ∷ ("meta.importSel", "Import selected definitions")
    ∷ ("meta.nothingToImport", "Everything is skipped — nothing to import.")
    ∷ ("meta.defsCreated", "{count} definitions created")
    ∷ ("meta.defsUpdated", "{count} definitions updated")
    ∷ ("meta.groupsCreated", "{count} groups created")
    ∷ (
      "meta.passwordsNote",
      "Datasource passwords are not imported — verify connections before use (drift check on each table is available from Tables & Schema).",
    )
    ∷ ("users.title", "Users")
    ∷ ("users.subtitle", "Manage login accounts and their role assignment")
    ∷ ("users.add", "Add User")
    ∷ ("users.username", "Username")
    ∷ ("users.role", "Role")
    ∷ ("users.status", "Status")
    ∷ ("users.loading", "Loading users...")
    ∷ []
