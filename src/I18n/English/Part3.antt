-- ===== src/I18n/English/Part3.antt =====
-- web/src/lib/i18n/en.ts, lines 251 to 370.
use ku_crud.Base.{String, [], ◌∷◌}
use ku_crud.Base.Assoc.{Assoc}

abbrev pub english_3 : Assoc String
english_3 =
    ("col.displayLabel", "Display Label")
    ∷ (
      "col.displayLabelHelp",
      "Human-readable name shown on table headers and CRUD form labels instead of raw database column names.",
    )
    ∷ ("col.labelPh", "Column label")
    ∷ ("col.fieldType", "Field Type")
    ∷ ("col.fieldTypeTitle", "Field Type Guide")
    ∷ ("col.fieldTypeIntro", "Form input component types:")
    ∷ ("col.ftBoolDesc", "True/False toggle switch.")
    ∷ ("col.ftTextDesc", "Standard text input (string).")
    ∷ ("col.ftNumberDesc", "Numeric input (int/float).")
    ∷ ("col.ftDatetimeDesc", "Date & Time picker.")
    ∷ ("col.ftEnumDesc", "Dropdown of predefined options.")
    ∷ ("col.ftFkDesc", "Foreign Key relation with search modal.")
    ∷ ("col.swEdit", "Edit")
    ∷ ("col.swReq", "Req")
    ∷ ("col.swVis", "Vis")
    ∷ ("col.swSrch", "Srch")
    ∷ ("col.swSort", "Sort")
    ∷ ("col.switchesTitle", "Column Switches & Form Policy")
    ∷ ("col.swEditLabel", "Edit (Editable)")
    ∷ (
      "col.swEditDesc",
      "Controls form field availability. Turn on for PK columns if manual ID input is required.",
    )
    ∷ ("col.swReqLabel", "Req (Required)")
    ∷ ("col.swReqDesc", "Mandatory field (cannot be empty or NULL).")
    ∷ ("col.swVisLabel", "Vis (Visible)")
    ∷ ("col.swVisDesc", "Displayed as a column on the Data CRUD grid.")
    ∷ ("col.swSrchLabel", "Srch (Searchable)")
    ∷ ("col.swSrchDesc", "Included in search bar text queries.")
    ∷ ("col.swSortLabel", "Sort (Sortable)")
    ∷ ("col.swSortDesc", "Can be sorted (ASC/DESC) when column header is clicked.")
    ∷ ("col.pkPolicyLabel", "PK Form Policy:")
    ∷ (
      "col.pkPolicy",
      "Primary Key fields appear on the Insert Form for manual ID entry, and are automatically displayed as Read-Only on the Edit Form to protect record identity.",
    )
    ∷ ("col.disabled", "Disabled")
    ∷ ("col.toggleConfig", "Toggle detailed column configuration")
    ∷ ("col.standardProps1", "Standard properties for")
    ∷ (
      "col.standardProps2",
      "type are configured in controls above. No additional configuration needed.",
    )
    ∷ ("col.validations", "Validations:")
    ∷ ("col.vEmail", "Email")
    ∷ ("col.vNumber", "Number only")
    ∷ ("col.vText", "Text only")
    ∷ ("col.vMin", "Min")
    ∷ ("col.vMax", "Max")
    ∷ ("col.vLen", "len")
    ∷ ("col.enumColors", "Enum Badge Colors")
    ∷ ("col.numberFmt", "Number Formatting (display only)")
    ∷ ("col.thousands", "Thousands separator")
    ∷ ("col.decimals", "Decimals")
    ∷ ("col.prefix", "Prefix")
    ∷ ("col.computed", "Computed Column")
    ∷ ("col.computedTitle", "Computed Column Guide")
    ∷ ("col.computed1", "Value is calculated at query time — never stored in the database.")
    ∷ (
      "col.computed2",
      "Columns are referenced by name. Arithmetic uses number columns; CONCAT uses text columns. NULL in any operand yields NULL.",
    )
    ∷ ("col.computedCmdTitle", "Available Commands & Examples:")
    ∷ ("col.computedOpAdd", "Addition (+): price + tax")
    ∷ ("col.computedOpSub", "Subtraction (-): total - discount")
    ∷ ("col.computedOpMul", "Multiplication (*): price * qty")
    ∷ ("col.computedOpDiv", "Division (/): subtotal / count")
    ∷ ("col.computedOpParen", "Grouping (): (price + tax) * qty")
    ∷ ("col.computedOpConcat", "String Concat: CONCAT(first_name, \" \", last_name)")
    ∷ ("col.resultType", "Result Type")
    ∷ ("col.formula", "Formula")
    ∷ (
      "col.computed3",
      "Computed columns appear in grid, form and CSV export but cannot be sorted, filtered, or grouped server-side.",
    )
    ∷ ("col.enumConfig", "Enum Options Configuration ({name})")
    ∷ ("col.enumGuide", "Enum Type Guide")
    ∷ (
      "col.enumGuideBody",
      "Enum options restrict form inputs to specified values. Enter a list of values separated by commas (e.g., ACTIVE, INACTIVE, PENDING).",
    )
    ∷ ("col.enumHint", "Enter allowed enum option values for this column (comma-separated).")
    ∷ ("col.parsedOptions", "Parsed options:")
    ∷ ("col.fkConfig", "Foreign Key Relation Configuration ({name})")
    ∷ ("col.fkGuide", "Foreign Key (FK) Guide")
    ∷ ("col.fkGuide1", "Foreign Key links this column to records in another defined table.")
    ∷ (
      "col.fkGuide2",
      "Users can select related records via an interactive search modal when inserting or editing.",
    )
    ∷ ("col.targetRef", "Target Ref: {ref}")
    ∷ ("col.fkTargetDs", "Target Datasource")
    ∷ ("col.fkRelatedTable", "Related Table")
    ∷ ("col.fkChooseTable", "Choose related table...")
    ∷ ("col.fkSelf", "This table (self)")
    ∷ ("col.fkRefColumn", "Reference Column (Target PK / Key Column)")
    ∷ ("col.fkSelectRef", "Select reference column...")
    ∷ ("col.fkDisplayCols", "Display Columns (UI fields shown when relation is picked)")
    ∷ ("col.nOfMSelected", "{selected} of {total} selected")
    ∷ ("col.selectAll", "Select All")
    ∷ ("col.clearAll", "Clear All")
    ∷ ("col.fkPickTableFirst", "Please select a Related Table first to pick display columns.")
    ∷ ("col.fkNoMoreCols", "No additional columns available on this table.")
    ∷ ("col.m2mTitle", "Many-to-Many Relations")
    ∷ ("col.m2mGuide", "Many-to-Many Guide")
    ∷ ("col.m2mGuide1", "A relation connects this table to another through a junction table.")
    ∷ (
      "col.m2mGuide2",
      "The junction must already be defined as a table definition with two fk columns: one pointing at this table, one at the target.",
    )
    ∷ (
      "col.m2mGuide3",
      "Save this table definition first — relations reference it by id, so they can only be configured when editing an existing definition.",
    )
    ∷ ("col.addRelation", "Add Relation")
    ∷ ("col.m2mSaveFirst", "Save the definition first, then edit it to add many-to-many relations.")
    ∷ ("col.newRelation", "New Relation")
    ∷ ("col.relLabelPh", "Relation label (e.g. Tags)")
    ∷ ("col.relLabelTitle", "Relation Display Label")
    ∷ (
      "col.relLabelDesc",
      "The human-readable label used in data grids and entry forms for this Many-to-Many field (e.g. \"Tags\" or \"Roles\").",
    )
    ∷ ("col.removeRelation", "Remove relation")
    ∷ ("col.junctionTable", "Junction Table")
    ∷ (
      "col.junctionHelp",
      "Select the bridge table connecting this table to the target. The junction must already be registered as a table definition with two fk columns.",
    )
    ∷ ("col.chooseJunction", "Choose junction table...")
    ∷ ("col.linkVia", "Link to this table via")
    ∷ ("col.srcFkTitle", "Source FK Link Column")
    ∷ ("col.srcFkHelp", "Select the fk column in the junction table that references this table.")
    ∷ ("col.junctionToThis", "Junction fk column → this table")
    ∷ ("col.noJunctionFk", "No junction fk column points at this table yet.")
    ∷ ("col.relatedVia", "Related table via")
    ∷ ("col.tgtFkTitle", "Target FK Link Column")
    ∷ (
      "col.tgtFkHelp",
      "Select the fk column in the junction table that references the target related table.",
    )
    ∷ ("col.junctionToTarget", "Junction fk column → target")
    ∷ ("col.targetDisplayCols", "Display columns on target table")
    ∷ ("col.targetDisplayTitle", "Target Display Columns")
    ∷ (
      "col.targetDisplayHelp",
      "Choose which columns from the target table are rendered in grid cells and form selection chips.",
    )
    ∷ ("col.clear", "Clear")
    ∷ ("col.helpAria", "Help information")
    ∷ ("data.search", "Search rows...")
    ∷ ("data.definition", "Definition")
    ∷ ("data.refresh", "Refresh rows")
    ∷ ("data.export", "Export CSV")
    ∷ ("data.import", "Import CSV")
    ∷ ("data.newRow", "New Row")
    ∷ ("data.noRecords", "No records found")
    ∷ ("data.pageOf", "Page {page} of {pages}")
    ∷ []
