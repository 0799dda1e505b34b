-- ===== src/I18n/English/Part6.antt =====
-- web/src/lib/i18n/en.ts, lines 619 to 743.
use ku_crud.Base.{String, [], ◌∷◌}
use ku_crud.Base.Assoc.{Assoc}

abbrev pub english_6 : Assoc String
english_6 =
    ("users.empty", "No users found")
    ∷ ("users.firstUser", "First User")
    ∷ ("users.disabled", "Disabled")
    ∷ ("users.active", "Active")
    ∷ ("users.protected", "Protected")
    ∷ ("users.editTitle", "Edit user")
    ∷ ("users.deleteTitle", "Delete user")
    ∷ ("users.deleteConfirm", "Delete user \"{name}\"?")
    ∷ ("users.editDialog", "Edit User: {name}")
    ∷ ("users.newDesc", "Create a login account and assign a role")
    ∷ ("users.editDesc", "Change password, role or disabled state (username is immutable)")
    ∷ ("users.usernamePh", "e.g. budi")
    ∷ ("users.password", "Password")
    ∷ ("users.passwordKeepHint", "(leave blank to keep)")
    ∷ ("users.passwordPh", "min 4 characters")
    ∷ ("users.rolePh", "Choose a role...")
    ∷ ("users.disabledDesc", "Blocked from logging in")
    ∷ ("users.save", "Save User")
    ∷ ("roles.title", "Roles")
    ∷ (
      "roles.subtitle",
      "Define access profiles: platform management bundle plus per-table CRUD grants",
    )
    ∷ ("roles.add", "Add Role")
    ∷ ("roles.role", "Role")
    ∷ ("roles.platformAccess", "Platform Access")
    ∷ ("roles.tableGrants", "Table Grants")
    ∷ ("roles.users", "Users")
    ∷ ("roles.loading", "Loading roles...")
    ∷ ("roles.builtin", "Builtin")
    ∷ ("roles.fullPlatform", "Full platform")
    ∷ ("roles.tableOnly", "Table CRUD only")
    ∷ ("roles.allTables", "all tables (implicit)")
    ∷ ("roles.tableCount", "{count} tables")
    ∷ ("roles.editTitle", "Edit role")
    ∷ ("roles.deleteTitle", "Delete role")
    ∷ ("roles.deleteConfirm", "Delete role \"{name}\"?")
    ∷ ("roles.editDialog", "Edit Role: {name}")
    ∷ (
      "roles.dialogDesc",
      "Platform access controls which management menus this role sees; table CRUD needs per-table grants below",
    )
    ∷ ("roles.name", "Role Name")
    ∷ ("roles.namePh", "e.g. Order Editor")
    ∷ ("roles.grant.title", "Platform access")
    ∷ ("roles.grant.datasources", "Manage datasources")
    ∷ ("roles.grant.datasourcesDesc", "Register and edit database connections")
    ∷ ("roles.grant.tables", "Manage table definitions")
    ∷ ("roles.grant.tablesDesc", "Define which tables appear and how they behave")
    ∷ ("roles.grant.audit", "View audit trail")
    ∷ ("roles.grant.auditDesc", "See who changed what, and when")
    ∷ ("roles.grant.outbox", "View hook outbox")
    ∷ ("roles.grant.outboxDesc", "Monitor background automation results")
    ∷ ("roles.colTable", "Table")
    ∷ ("roles.colRead", "Read")
    ∷ ("roles.colCreate", "Create")
    ∷ ("roles.colUpdate", "Update")
    ∷ ("roles.colDelete", "Delete")
    ∷ ("roles.noDefs", "No table definitions yet — grants can be added later")
    ∷ ("roles.save", "Save Role")
    ∷ ("filter.add", "Add Filter")
    ∷ ("filter.ok", "OK")
    ∷ ("filter.between", "between")
    ∷ ("filter.inList", "in list")
    ∷ ("filter.contains", "contains")
    ∷ ("filter.select", "Select...")
    ∷ ("kanban.noValue", "No value")
    ∷ ("kanban.addRecord", "Add record")
    ∷ ("kanban.del", "Del")
    ∷ ("kanban.truncated", "Board truncated ({count} cards)")
    ∷ ("kanban.loadMore", "Load more")
    ∷ ("kanban.updateFailed", "update failed")
    ∷ ("calendar.today", "Today")
    ∷ ("calendar.more", "+{count} more")
    ∷ ("calendar.loading", "Loading events…")
    ∷ ("errors.technicalDetail", "Technical detail")
    ∷ ("errors.HOOK_REJECTED", "An automation rule rejected this change: {msg}")
    ∷ (
      "errors.HOOK_MISSING",
      "This table uses an automation that is not available in this server. Contact your administrator.",
    )
    ∷ ("errors.ACTION_FAILED", "The action failed: {msg}")
    ∷ (
      "errors.ACTION_NOT_FOUND",
      "This action does not exist on the table anymore. Refresh the page.",
    )
    ∷ (
      "errors.DRIFT",
      "The table structure changed in the database. Ask your administrator to re-sync the definition.",
    )
    ∷ (
      "errors.CONFLICT",
      "This record is referenced by other records and cannot be changed or deleted.",
    )
    ∷ ("errors.CONN", "Could not reach the database: {msg}")
    ∷ (
      "errors.FILTER_INVALID",
      "One of the filters is not valid. Clear the filter chips and try again.",
    )
    ∷ (
      "errors.IMPORT_BAD_CSV",
      "The CSV file could not be read. Check the format (max 5 MB, 10,000 rows).",
    )
    ∷ ("errors.META_FILE_INVALID", "The definitions file is not valid.")
    ∷ ("errors.META_IMPORT_INVALID", "The definitions file could not be imported: {msg}")
    ∷ ("errors.RATE_LIMITED", "Too many attempts. Wait a few minutes and try again.")
    ∷ ("errors.GROUP_NAME_TAKEN", "A group with that name already exists.")
    ∷ ("errors.FILTER_NAME_TAKEN", "You already have a saved filter with that name.")
    ∷ ("errors.EXPORT_TOO_LARGE", "The export is too large. Narrow the filters and try again.")
    ∷ ("errors.BULK_TOO_LARGE", "Too many rows selected at once. Select fewer rows.")
    ∷ ("errors.VALIDATION", "Some values are not valid: {msg}")
    ∷ ("errors.AUTH", "Your session has expired. Please log in again.")
    ∷ ("errors.FORBIDDEN", "You do not have access to this feature.")
    ∷ ("errors.NOT_FOUND", "Not found — it may have been removed.")
    ∷ ("errors.INTERNAL", "Something went wrong. Try again, or contact your administrator.")
    ∷ ("errors.QUERY_INVALID", "The SQL query is invalid: {msg}")
    ∷ ("errors.QUERY_READONLY", "This view is read-only — it is built from a SQL query.")
    ∷ ("errors.QUERY_NO_KEY", "This view has no key columns, so single rows cannot be opened.")
    ∷ ("errors.QUERY_TIMEOUT", "The query took too long and was stopped. Try a simpler query.")
    ∷ ("nav.dashboard", "Dashboard")
    ∷ ("dash.title", "Dashboard")
    ∷ ("dash.empty", "No stat cards yet.")
    ∷ ("dash.emptyAdmin", "No stat cards yet — add one to show aggregate stats.")
    ∷ ("dash.addCard", "Add Card")
    ∷ ("card.label", "Label")
    ∷ ("card.labelPh", "e.g. Paid revenue")
    ∷ ("card.table", "Table")
    ∷ ("card.func", "Function")
    ∷ ("card.column", "Column")
    ∷ ("card.filters", "Filters (optional)")
    ∷ ("card.func.count", "Row count")
    ∷ ("card.func.sum", "Sum")
    ∷ ("card.func.avg", "Average")
    ∷ ("card.func.min", "Minimum")
    ∷ ("card.func.max", "Maximum")
    ∷ ("card.save", "Save Card")
    ∷ ("card.edit", "Edit Card")
    ∷ ("card.delete", "Delete this card?")
    ∷ ("card.moveUp", "Move up")
    ∷ ("card.moveDown", "Move down")
    ∷ ("card.loading", "…")
    ∷ ("card.noTables", "No tables available yet.")
    ∷ ("card.of", "of {table}")
    ∷ []
