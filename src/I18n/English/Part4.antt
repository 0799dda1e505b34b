-- ===== src/I18n/English/Part4.antt =====
-- web/src/lib/i18n/en.ts, lines 371 to 494.
use ku_crud.Base.{String, [], ◌∷◌}
use ku_crud.Base.Assoc.{Assoc}

abbrev pub english_4 : Assoc String
english_4 =
    ("data.totalRows", "Total {total} rows")
    ∷ ("data.actions", "Actions")
    ∷ ("data.viewGrid", "Grid")
    ∷ ("data.viewKanban", "Kanban")
    ∷ ("data.viewCalendar", "Calendar")
    ∷ ("data.groupBy", "Group by…")
    ∷ ("data.saveFilter", "Save filter")
    ∷ ("data.saved", "Saved ({count})")
    ∷ ("data.noSavedFilters", "No saved filters")
    ∷ ("data.loadingSchema", "Loading table dynamic schema...")
    ∷ ("data.defNotFound", "Table definition not found")
    ∷ ("data.backToTables", "Back to Tables")
    ∷ ("data.key", "Key")
    ∷ ("data.totalRecords", "{count} total records")
    ∷ ("data.noGrouping", "No grouping")
    ∷ ("data.saveFilterPrompt", "Save current filters as:")
    ∷ ("data.deleteFilterConfirm", "Delete saved filter \"{name}\"?")
    ∷ ("data.openDefinition", "Open table definition")
    ∷ ("data.exporting", "Exporting...")
    ∷ ("data.exportTitle", "Export the current result (search & sort applied) as CSV")
    ∷ ("data.exportFailed", "Export failed: {msg}")
    ∷ ("data.importTitle", "Import rows from a CSV file")
    ∷ ("data.driftTitle", "Schema Drift Detected!")
    ∷ ("data.driftBody", "The database schema has changed since this table was mapped.")
    ∷ ("data.resync", "Re-sync Definition")
    ∷ ("data.close", "Close")
    ∷ ("data.actionDone", "Done.")
    ∷ ("data.rowReferenced", "Row referenced by: {refs}")
    ∷ ("data.otherTables", "other tables")
    ∷ ("data.deleteFailed", "delete failed")
    ∷ ("data.selectedCount", "{count} selected")
    ∷ ("data.clear", "Clear")
    ∷ ("data.deleting", "Deleting...")
    ∷ ("data.deleteRows", "Delete {count} rows")
    ∷ ("data.bulkDeleteConfirm", "Delete {count} selected rows? This cannot be undone.")
    ∷ ("data.bulkPartial", "{deleted} deleted, {failed} failed: ")
    ∷ ("data.bulkMore", " (+{count} more)")
    ∷ ("data.bulkDeleted", "{count} rows deleted.")
    ∷ ("data.bulkDeleteFailed", "bulk delete failed")
    ∷ ("data.fetching", "Fetching records...")
    ∷ ("data.groupedRows", "Grouped {count} rows by")
    ∷ ("data.groupTruncated", "— grouping truncated at 2,000 rows")
    ∷ ("data.clearGrouping", "Clear grouping")
    ∷ ("data.prev", "Prev")
    ∷ ("data.next", "Next")
    ∷ ("data.selectRow", "Select row")
    ∷ ("data.selectAll", "Select all rows on this page")
    ∷ ("data.copyRow", "Copy / Duplicate record")
    ∷ ("data.editRow", "Edit row")
    ∷ ("data.deleteRow", "Delete row")
    ∷ ("data.deleteConfirm", "Delete this record permanently?")
    ∷ ("data.saveFilterFailed", "save filter failed")
    ∷ ("form.insert", "Insert New Record")
    ∷ ("form.edit", "Edit Record")
    ∷ ("form.save", "Save Record")
    ∷ ("form.cancel", "Cancel")
    ∷ ("form.insertDesc", "Provide values for editable table fields")
    ∷ ("form.editDesc", "Editing record {keys}")
    ∷ ("form.saving", "Saving...")
    ∷ ("form.readOnly", "(Read Only)")
    ∷ ("form.selectOption", "Select option...")
    ∷ ("form.insertHelpTitle", "Insert Record Guide")
    ∷ ("form.editHelpTitle", "Edit Record Guide")
    ∷ ("form.insertHelpBody", "Provide values for new record fields.")
    ∷ (
      "form.pkPolicyInsert",
      "Primary Key Policy: PK fields accept manual values or can be left blank if your database auto-generates IDs via sequence / SERIAL defaults.",
    )
    ∷ ("form.editHelpBody", "Modify attribute values for existing record")
    ∷ (
      "form.pkPolicyEdit",
      "Primary Key Policy: Primary Key fields are displayed as Read-Only on Edit Mode to protect record identity.",
    )
    ∷ (
      "form.notNullTip",
      "Solution Tip: This column is defined as NOT NULL in the database without an auto-increment sequence default. Go to Table Definitions (Step 3) and enable the Edit switch for this column so it appears on the form, or add a DEFAULT nextval(...) / SERIAL sequence in your database.",
    )
    ∷ ("form.requiredMissing", "Required fields missing: {fields}")
    ∷ ("form.invalidJson", "Invalid JSON: {fields}")
    ∷ ("btn.delete", "Delete")
    ∷ ("btn.edit", "Edit")
    ∷ ("btn.loading", "Loading…")
    ∷ ("help.searchTitle", "Search Guide")
    ∷ (
      "help.searchBody",
      "Filters rows across all searchable columns using parameterized SQL LIKE wildcard matching.",
    )
    ∷ ("help.exportTitle", "Export CSV Guide")
    ∷ (
      "help.exportBody1",
      "Downloads all matching records (up to 100,000 rows) with active search and sort filters applied as a UTF-8 BOM CSV file.",
    )
    ∷ (
      "help.exportBody2",
      "FK and Many-to-Many relations are resolved into human-readable display titles.",
    )
    ∷ ("help.importTitle", "Import CSV Guide")
    ∷ ("help.importBody1", "Bulk upload records from a CSV file (up to 5MB / 10,000 rows).")
    ∷ (
      "help.importBody2",
      "Includes delimiter sniffing (comma/semicolon/tab), header mapping, and per-row validation preview.",
    )
    ∷ ("fk.editRelated", "Edit in related table")
    ∷ ("fk.editRelatedTitle", "Edit the related record on its table page")
    ∷ ("fk.pick", "Pick…")
    ∷ ("fk.noneSelected", "No relation selected (empty)")
    ∷ ("fk.notSet", "— not set —")
    ∷ ("fk.select", "Select {label}")
    ∷ ("fk.searchClickHint", "Search then click a row to link it")
    ∷ ("fk.search", "Search...")
    ∷ ("fk.noResults", "No records found")
    ∷ ("fk.addNew", "Add new")
    ∷ ("m2m.selectedCount", "{count} selected")
    ∷ ("m2m.remove", "Remove")
    ∷ ("m2m.noneSelected", "No relations selected")
    ∷ (
      "m2m.multiSelectHint",
      "Multi-select; picked records are linked via the junction table on save.",
    )
    ∷ ("m2m.search", "Search related records...")
    ∷ ("m2m.recordsInfo", "{total} records • page {page}")
    ∷ ("imp.title", "Import CSV — {label}")
    ∷ (
      "imp.subtitle",
      "Upload a CSV, map columns to table fields, review validation, then insert. Delimiter (comma / semicolon / tab) is detected automatically. Max 5 MB / 10,000 rows.",
    )
    ∷ ("imp.back", "Back to Data")
    ∷ ("imp.step1", "1. Upload File")
    ∷ ("imp.step1Desc", "Choose the CSV file to import")
    ∷ ("imp.parsing", "Parsing...")
    ∷ ("imp.chooseCsv", "Choose CSV file")
    ∷ ("imp.delimiter", "delimiter: \"{value}\"")
    ∷ ("imp.step2", "2. Column Mapping & Preview")
    ∷ ("imp.step2Desc", "Auto-mapped by name (editable). Unmapped or ignored columns are skipped.")
    ∷ ("imp.ignore", "— ignore —")
    ∷ ("imp.revalidating", "Re-validating...")
    ∷ ("imp.revalidate", "Re-validate with mapping")
    ∷ ("imp.validCount", "{count} valid")
    ∷ ("imp.invalidCount", "{count} invalid")
    ∷ ("imp.rowsCount", "{count} rows")
    ∷ ("imp.status", "Status")
    ∷ ("imp.previewNote", "Showing first 100 rows of {count}. Validation ran on all rows.")
    ∷ ("imp.row", "Row {number}:")
    ∷ ("imp.step3", "3. Insert")
    ∷ (
      "imp.step3Desc",
      "Inserts are batched server-side; every inserted row is audited and requires your create grant.",
    )
    ∷ ("imp.insertValid", "Insert {count} valid rows")
    ∷ []
