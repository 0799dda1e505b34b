-- ===== src/I18n/English/Part1.antt =====
-- web/src/lib/i18n/en.ts, lines 3 to 125.
use ku_crud.Base.{String, [], ◌∷◌}
use ku_crud.Base.Assoc.{Assoc}

abbrev pub english_1 : Assoc String
english_1 =
    ("nav.tables", "Tables & Schema")
    ∷ ("nav.datasources", "Datasources")
    ∷ ("nav.transfer", "Definitions Transfer")
    ∷ ("nav.users", "Users")
    ∷ ("nav.roles", "Roles & Access")
    ∷ ("nav.audit", "Audit Trail")
    ∷ ("nav.hooksOutbox", "Hook Outbox")
    ∷ ("nav.docs", "Documentation")
    ∷ ("nav.activeTables", "Active Tables ({count})")
    ∷ ("nav.newGroup", "New group")
    ∷ ("nav.noTables", "No tables defined yet")
    ∷ ("nav.section", "Navigation")
    ∷ ("nav.loadingTables", "Loading tables...")
    ∷ ("nav.moveToGroup", "Move to group")
    ∷ ("nav.noGroup", "No group")
    ∷ ("nav.expandSidebar", "Expand sidebar")
    ∷ ("nav.collapseSidebar", "Collapse sidebar")
    ∷ ("nav.expandGroup", "Expand group")
    ∷ ("nav.collapseGroup", "Collapse group")
    ∷ ("nav.moveUp", "Move group up")
    ∷ ("nav.moveDown", "Move group down")
    ∷ ("nav.groupNamePrompt", "Group name")
    ∷ ("nav.renameGroup", "Rename group")
    ∷ ("nav.deleteGroup", "Delete group")
    ∷ ("nav.deleteGroupConfirm", "Delete group \"{name}\"? Its tables stay, just ungrouped.")
    ∷ ("nav.createGroupHint", "Create a new table group")
    ∷ ("nav.brandSubtitle", "Database Portal")
    ∷ ("nav.adminUser", "Admin User")
    ∷ ("nav.online", "Online")
    ∷ ("nav.logout", "Logout")
    ∷ ("nav.groupActionFailed", "Group action failed")
    ∷ ("app.language", "Language")
    ∷ ("app.header.tables", "Tables & Schema")
    ∷ ("app.header.tablesSub", "Configure dynamic database definitions")
    ∷ ("app.header.newTable", "New Table Definition")
    ∷ ("app.header.newTableSub", "Register and map a database table into Ku-CRUD")
    ∷ ("app.header.editTable", "Edit Table Definition")
    ∷ ("app.header.editTableSub", "Modify column mappings and display rules")
    ∷ ("app.header.datasources", "Datasources")
    ∷ ("app.header.datasourcesSub", "Manage database connection pools")
    ∷ ("app.header.audit", "Audit Trail")
    ∷ ("app.header.auditSub", "Track database mutation logs and diffs")
    ∷ ("app.header.transfer", "Definitions Transfer")
    ∷ ("app.header.transferSub", "Export and import table definitions across instances")
    ∷ ("app.header.users", "User Management")
    ∷ ("app.header.usersSub", "Manage login accounts and role assignment")
    ∷ ("app.header.roles", "Roles & Access")
    ∷ ("app.header.rolesSub", "Define platform and per-table permissions")
    ∷ ("app.header.import", "Import CSV")
    ∷ ("app.header.importSub", "Upload, map and validate rows before insert")
    ∷ ("app.header.data", "Data Explorer")
    ∷ ("app.header.dataSub", "Live table CRUD administration")
    ∷ ("app.header.docs", "Documentation")
    ∷ ("app.header.docsSub", "How to use and configure Ku-CRUD")
    ∷ ("app.header.default", "Ku-CRUD")
    ∷ ("app.header.defaultSub", "Database Administration")
    ∷ ("login.subtitle", "Sign in to manage database schemas and records")
    ∷ ("login.error", "Invalid username or password")
    ∷ ("login.username", "Username")
    ∷ ("login.usernamePh", "Enter username")
    ∷ ("login.password", "Password")
    ∷ ("login.passwordPh", "Enter password")
    ∷ ("login.signingIn", "Signing in...")
    ∷ ("login.signIn", "Sign In")
    ∷ ("login.footer", "Protected Admin Portal")
    ∷ ("login.footerEngine", "Ku-CRUD Engine")
    ∷ ("setup.welcome", "Welcome to Ku-CRUD")
    ∷ ("setup.desc", "Create the first admin user to get started.")
    ∷ ("setup.username", "Username")
    ∷ ("setup.password", "Password")
    ∷ ("setup.create", "Create user")
    ∷ ("setup.failed", "setup failed")
    ∷ ("tables.statTables", "Configured Tables")
    ∷ ("tables.statTablesSub", "Managed database schemas")
    ∷ ("tables.statDs", "Active Datasources")
    ∷ ("tables.statDsSub", "Connected database pools")
    ∷ ("tables.statStatus", "Status")
    ∷ ("tables.ready", "Ready")
    ∷ ("tables.statStatusSub", "Auto CRUD API active")
    ∷ ("tables.title", "Table Definitions")
    ∷ ("tables.subtitle", "Select or register a database table to start managing records")
    ∷ ("tables.filter", "Filter tables...")
    ∷ ("tables.add", "Add Table")
    ∷ ("tables.colLabel", "Display Label")
    ∷ ("tables.colTable", "Database Table")
    ∷ ("tables.colKey", "Key")
    ∷ ("tables.loading", "Loading table definitions...")
    ∷ ("tables.empty", "No table definitions found")
    ∷ ("tables.emptyHint", "Click \"Add Table\" to map a database table into Ku-CRUD.")
    ∷ ("tables.viewData", "View Data")
    ∷ ("tables.deleteConfirm", "Delete definition \"{name}\"? (Data table itself remains intact)")
    ∷ ("tables.sourceTable", "Physical table")
    ∷ ("tables.sourceQuery", "SQL query")
    ∷ ("tables.validateQuery", "Validate & preview columns")
    ∷ ("tables.validating", "Validating...")
    ∷ ("tables.droppedCols", "Columns needing an alias (skipped)")
    ∷ ("tform.loading", "Loading table definition...")
    ∷ ("tform.editTitle", "Edit Definition: {label}")
    ∷ ("tform.createTitle", "Create Table Definition")
    ∷ ("tform.editSub", "Modifying mapping for definition #{id}")
    ∷ (
      "tform.createSub", "Map a database table into Ku-CRUD through progressive step configuration",
    )
    ∷ ("tform.saveChanges", "Save Changes")
    ∷ ("tform.createDef", "Create Definition")
    ∷ ("tform.step1", "Step 1: Select Datasource Connection")
    ∷ ("tform.step1Desc", "Choose the active database connection pool")
    ∷ ("tform.locked", "Locked on Edit")
    ∷ ("tform.dsConn", "Datasource Connection")
    ∷ ("tform.dsPh", "Choose a database connection...")
    ∷ ("tform.noDs", "No datasources available. Please add a Datasource connection first.")
    ∷ ("tform.step2", "Step 2: Select Table from Schema")
    ∷ ("tform.step2Desc", "Pick target database table to generate CRUD mappings")
    ∷ ("tform.selectDsFirst", "Select Datasource first")
    ∷ ("tform.dbTable", "Database Table")
    ∷ ("tform.tablePh", "Choose a table...")
    ∷ ("tform.inspected", "Inspected Database Schema ({name})")
    ∷ ("tform.rawCols", "{count} Raw DB Columns Introspected")
    ∷ ("tform.inspecting", "Inspecting raw table schema and data types from database...")
    ∷ ("tform.colRawName", "Raw Column Name")
    ∷ ("tform.colDbType", "DB Data Type")
    ∷ []
