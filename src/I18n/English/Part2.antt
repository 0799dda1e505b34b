-- ===== src/I18n/English/Part2.antt =====
-- web/src/lib/i18n/en.ts, lines 126 to 250.
use ku_crud.Base.{String, [], ◌∷◌}
use ku_crud.Base.Assoc.{Assoc}

abbrev pub english_2 : Assoc String
english_2 =
    ("tform.colAttrs", "Attributes / Constraints")
    ∷ ("tform.primaryKey", "Primary Key")
    ∷ ("tform.step3", "Step 3: Configure Columns & Display Parameters")
    ∷ ("tform.step3Desc", "Set display label, key column(s), and column property switches")
    ∷ ("tform.selectTableFirst", "Select Table first")
    ∷ ("tform.displayLabel", "Display Label")
    ∷ ("tform.labelPh", "e.g. User Accounts")
    ∷ ("tform.labelHint", "This name appears in the sidebar menu for all users")
    ∷ ("tform.description", "Description (optional)")
    ∷ ("tform.descPh", "e.g. Daily sales orders")
    ∷ ("tform.descHint", "Shown as a hint in the menu and under the table title (max 200 chars)")
    ∷ ("tform.pageSize", "Page Size (Rows per Page)")
    ∷ ("tform.sortCol", "Default Sort Column")
    ∷ ("tform.noneKey", "None (key column)")
    ∷ ("tform.sortDir", "Default Sort Direction")
    ∷ ("tform.asc", "Ascending")
    ∷ ("tform.desc", "Descending")
    ∷ ("tform.needKey", "Select at Least One Key Column")
    ∷ ("tform.computedCol", "Computed Column")
    ∷ ("tform.sqlLabel", "SQL Query")
    ∷ ("tform.queryLabelDefault", "Query view")
    ∷ ("tf.hooks.title", "Automation Hooks")
    ∷ (
      "tf.hooks.hint",
      "Hooks are Go functions compiled into the server. Assign them to table events; before-hooks may modify or reject writes.",
    )
    ∷ (
      "tf.hooks.help",
      "Hooks are Go functions written in the hooks/ folder and compiled into the server (add a function, rebuild, and it appears in the dropdown). Here you pick which hook runs at each table event. Before-hooks run synchronously before the data is saved: they can change values or reject the write. After-hooks run in the background after the data is committed — monitor them on the Hook Outbox page.",
    )
    ∷ (
      "tf.hooks.none",
      "No hooks are compiled into this server. Add functions in hooks/ and rebuild.",
    )
    ∷ ("tf.hooks.add", "Add hook")
    ∷ ("tf.hooks.config", "Config (JSON)")
    ∷ (
      "tf.hooks.configHelp",
      "Optional JSON settings passed to this hook. Leave empty unless the hook requires it. Example: {\"decimals\": 2} makes the built-in NormalizePrice example round to 2 decimals. The hook reads these values however its author defined; invalid JSON is flagged when you leave the field.",
    )
    ∷ ("tf.hooks.configInvalid", "Config is not valid JSON")
    ∷ ("tf.hooks.remove", "Remove")
    ∷ ("tf.hooks.event.beforeCreate", "Before create")
    ∷ ("tf.hooks.event.afterCreate", "After create")
    ∷ ("tf.hooks.event.beforeUpdate", "Before update")
    ∷ ("tf.hooks.event.afterUpdate", "After update")
    ∷ ("tf.hooks.event.beforeDelete", "Before delete")
    ∷ ("tf.hooks.event.afterDelete", "After delete")
    ∷ (
      "tf.hooks.eventHelp.beforeCreate",
      "Runs before a new row is inserted (form and CSV import). May modify or reject the new values.",
    )
    ∷ (
      "tf.hooks.eventHelp.afterCreate",
      "Runs in the background after a new row is committed. For side effects such as notifications or derived writes.",
    )
    ∷ (
      "tf.hooks.eventHelp.beforeUpdate",
      "Runs before a row is updated (form, CSV import and kanban drag). May modify or reject the new values.",
    )
    ∷ ("tf.hooks.eventHelp.afterUpdate", "Runs in the background after a row update is committed.")
    ∷ (
      "tf.hooks.eventHelp.beforeDelete",
      "Runs before a row is deleted (single or bulk). Can only reject the delete, not change values.",
    )
    ∷ ("tf.hooks.eventHelp.afterDelete", "Runs in the background after a row delete is committed.")
    ∷ ("tf.actions.title", "Actions")
    ∷ (
      "tf.actions.hint",
      "Choose which built-in grid actions are visible, and add custom row-action buttons that run compiled hooks.",
    )
    ∷ (
      "tf.actions.help",
      "Toggles only hide buttons — user grants still decide what is allowed. Custom actions run their hook synchronously when clicked, show the hook's message, and are recorded in the audit trail.",
    )
    ∷ ("tf.actions.builtin", "Built-in actions")
    ∷ (
      "tf.actions.builtinHint",
      "Hidden buttons affect this table's grid only; permissions are unchanged.",
    )
    ∷ ("tf.actions.builtin.newRow", "New row")
    ∷ ("tf.actions.builtin.edit", "Edit row")
    ∷ ("tf.actions.builtin.delete", "Delete row")
    ∷ ("tf.actions.builtin.copy", "Copy row")
    ∷ ("tf.actions.builtin.import", "Import CSV")
    ∷ ("tf.actions.builtin.export", "Export CSV")
    ∷ ("tf.actions.builtin.refresh", "Refresh")
    ∷ ("tf.actions.custom", "Custom row actions")
    ∷ ("tf.actions.customHint", "No custom actions yet. Add one to run a hook from a row button.")
    ∷ ("tf.actions.add", "Add action")
    ∷ ("tf.actions.label", "Label")
    ∷ ("tf.actions.hook", "Hook")
    ∷ ("tf.actions.grant", "Required grant")
    ∷ (
      "tf.actions.grantHelp",
      "The button is only shown to users holding this grant on the table (the API enforces it too).",
    )
    ∷ ("tf.actions.grant.read", "Read")
    ∷ ("tf.actions.grant.create", "Create")
    ∷ ("tf.actions.grant.update", "Update")
    ∷ ("tf.actions.grant.delete", "Delete")
    ∷ ("tf.actions.style", "Style")
    ∷ ("tf.actions.style.neutral", "Neutral")
    ∷ ("tf.actions.style.primary", "Primary")
    ∷ ("tf.actions.style.danger", "Danger")
    ∷ ("tf.actions.confirm", "Confirmation text (optional)")
    ∷ ("tf.actions.confirmPh", "Ask before running…")
    ∷ ("tf.actions.up", "Move up")
    ∷ ("tf.actions.down", "Move down")
    ∷ ("docs.hooks.title", "Hooks (automation)")
    ∷ (
      "docs.hooks.what",
      "Hooks are Go functions compiled into the server (hooks/ directory) and assigned to table events in the definition editor. A hook runs with the HookFunc signature (ctx, *HookContext, event, row payload, config) and receives the acting user, the table definition, every datasource, the metadata store, and a logger.",
    )
    ∷ (
      "docs.hooks.events",
      "Six events: before/after × create/update/delete. Assign any number of hooks per event; each assignment carries its own JSON config and an execution order (lower runs first).",
    )
    ∷ (
      "docs.hooks.before",
      "Before-hooks run synchronously inside the write: they may modify the payload values or reject the write with an error (HTTP 400 HOOK_REJECTED).",
    )
    ∷ (
      "docs.hooks.after",
      "After-hooks run asynchronously on a background worker — for side effects only (notifications, writing derived data elsewhere); their result cannot change the completed write.",
    )
    ∷ (
      "docs.hooks.outbox",
      "After-hook calls are recorded in a durable SQLite outbox and retried with backoff (30s, 2m, 10m, 1h, 4h — then dead). Monitor pending and dead entries, and retry dead ones, on the Hook Outbox page.",
    )
    ∷ (
      "docs.hooks.devflow",
      "Dev flow: add a function in hooks/ → run make dev or make build (regenerates hooks/registry_gen.go) → the hook appears in the definition editor.",
    )
    ∷ (
      "docs.hooks.rename",
      "Renaming a function registers a new hook — assignments to the old name keep pointing at the old name.",
    )
    ∷ (
      "docs.hooks.missing",
      "A definition referencing a hook that is not in the binary rejects writes with HOOK_MISSING. Hooks fire from every write path: forms, CSV import, bulk delete, kanban drag, and m2m link changes.",
    )
    ∷ ("docs.actions.title", "Customizing table actions")
    ∷ (
      "docs.actions.hide",
      "In the definition editor you can hide any built-in grid button — new row, edit, delete, copy, import, export, refresh — per table. Hiding is presentation only: user grants still decide what anyone is allowed to do.",
    )
    ∷ (
      "docs.actions.custom",
      "Custom row actions add buttons that run a compiled Go hook when clicked (the onAction event; the hook sets a Message that is shown as a notice). The hook runs synchronously (15 s guard), the grid refreshes, and every run — success or failure — lands in the audit trail. Each action declares the grant a user needs before the button appears; query views cannot define custom actions.",
    )
    ∷ ("view.title", "View Settings (Grid / Kanban / Calendar)")
    ∷ ("view.desc", "Set the default view and how kanban & calendar use the data")
    ∷ ("view.default", "Default View")
    ∷ (
      "view.defaultHelp",
      "Select the initial view mode displayed when opening this table data page.",
    )
    ∷ ("view.grid", "Grid (data table)")
    ∷ ("view.kanban", "Kanban board")
    ∷ ("view.calendar", "Calendar")
    ∷ ("view.boardCol", "Kanban Board Column")
    ∷ ("view.noneKanban", "None (kanban hidden)")
    ∷ ("view.boardColHint", "An enum column; each value becomes a board column.")
    ∷ ("view.cardTitle", "Kanban Card Title")
    ∷ ("view.cardTitleHelp", "Select the column used as the main title text on Kanban cards.")
    ∷ ("view.startCol", "Calendar Start Column")
    ∷ (
      "view.startColHelp",
      "Select the datetime column that determines row event dates on the calendar.",
    )
    ∷ ("view.noneCalendar", "None (calendar hidden)")
    ∷ ("view.endCol", "Calendar End Column (optional)")
    ∷ ("view.endColHelp", "Select an optional datetime column for events spanning multiple days.")
    ∷ ("view.noneEnd", "None (single-day events)")
    ∷ (
      "view.hint",
      "Business users can switch views on the data page; your choice here is the default they land on.",
    )
    ∷ ("col.inspecting", "Inspecting live table columns...")
    ∷ ("col.noMappings", "No column mappings populated")
    ∷ ("col.listTitle", "Column Configuration List ({count} columns)")
    ∷ ("col.guideTitle", "Column Configuration Guide")
    ∷ (
      "col.guide1",
      "Configure display properties and behaviors for each database column mapped to Ku-CRUD.",
    )
    ∷ (
      "col.guide2",
      "Each column allows setting a Display Label, Primary Key status, UI field type, and feature switches (Editable, Required, Visible, Searchable, Sortable).",
    )
    ∷ ("col.clickSettings", "Click settings icon to configure Enum / Foreign Key relations")
    ∷ ("col.addComputed", "Add Computed Column")
    ∷ ("col.useAsKey", "Use as Primary / Composite Key")
    ∷ ("col.keyTitle", "Composite Key & Query Logic")
    ∷ ("col.keyTerm", "Primary / Composite Key")
    ∷ ("col.keyDesc", "serves as the unique record identifier.")
    ∷ ("col.keyBackendLabel", "Backend Logic:")
    ∷ (
      "col.keyBackendDesc",
      "Key column values are used in WHERE clauses for UPDATE and DELETE queries.",
    )
    ∷ (
      "col.keyGuide3",
      "Check multiple columns if the table uses a Composite Key (e.g. dept_id + emp_id).",
    )
    ∷ []
