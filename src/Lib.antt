-- ===== src/Lib.antt =====
-- Ku-CRUD's web client, web/src: the pages and editors by which users browse, edit and configure
-- the tables that the Go server exposes. The client keeps no data of its own: each page holds what
-- the user has typed and picked, turns it into requests, and folds the answers into its state.
--
-- What is modelled, and where:
--   Base: JavaScript's operations on lists, texts and plain objects, with their laws.
--   Value: the values that rows and configurations hold. A number is carried as its text.
--   Types: web/src/lib/types.ts, in four groups.
--   Api: web/src/lib/api.ts. A request is a value; `api` starts from the answer of `fetch`, which is
--   an argument. `JSON.stringify` and `JSON.parse` are the record `Json`.
--   Server: what a server that pages a list answers, for the clients that rely on it.
--   I18n: web/src/lib/i18n/index.tsx, the language and the translator, and the two dictionaries
--   web/src/lib/i18n/en.ts and id.ts, in parts. Errors: web/src/lib/errors.ts.
--   FilterBar: web/src/components/FilterBar.tsx. Bar is the state of the bar with its parent's
--   filters; `FilterBar/Steps` has its step relation.
--   HooksEditor, ActionsEditor: the components of that name, with each edit as a function.
--   RowKey: web/src/lib/rowkey.ts, down to the bytes.
--   Kanban: web/src/components/views/KanbanView.tsx. A function that awaits is cut there: one part up
--   to the request, one for what the answer does to the state that it finds.
--   Data: web/src/pages/Data.tsx. Session is its state and its events, Query its requests, Bulk the
--   selection with deletion and actions, Form the form of a row with web/src/lib/jsondetect.ts,
--   Fields its inputs, Display what is shown with web/src/lib/format.ts, Effects the check against
--   the database, links that open a form, exports and saved filters.
--   Calendar: web/src/components/views/CalendarView.tsx. Dates has what it uses of JavaScript's Date;
--   how a text is read as a date is a parameter.
--   Cards: the statistics of the dashboard, web/src/components/CardFormDialog.tsx with the effects that
--   follow a change, web/src/components/StatCardView.tsx and the requests of web/src/pages/Dashboard.tsx.
--   MetaTransfer, Outbox: web/src/pages/MetaTransfer.tsx, where a click on what is not offered does
--   nothing, and web/src/pages/HooksOutbox.tsx.
--   TableForm: web/src/pages/TableForm.tsx and the editors of
--   web/src/components/ColumnListEditor.tsx that change its columns, with Labels for its
--   normalizeLabel; TableForm/Refs has the panel of a reference, TableForm/Refs/Card the card of a
--   relation, TableForm/Views the computed columns and the settings of the views. Roles, Users,
--   Datasources, Audit, Import: the pages of that name in web/src/pages; Import/Run has the import
--   event by event, with what is awaited. Sidebar: web/src/components/Sidebar.tsx, the tables
--   under their groups, the pages offered, and the requests for groups.
--   Access: web/src/pages/Login.tsx and web/src/pages/Setup.tsx. Tables: web/src/pages/Tables.tsx, the
--   search and the deletion.
--   Tests: runs on small inputs.
--
-- How they interact: Data and Kanban build their requests from the filters that FilterBar serialises
-- and from the keys that RowKey encodes; TableForm holds what HooksEditor and ActionsEditor edit, and
-- saves the definition by which Data decides which columns, views and buttons there are.
--
-- Bounds and fuel: the search for a free action id gets one round more than there are ids, the loop
-- over the chunks of a bulk delete one round for each key, and the fetch of a grouped grid 2001
-- rounds, one more than its cap: each round but the last takes an id, a key, or a row. The calendar
-- fetches a month in as many rounds as the first answer has rows in total, and one more, and walks
-- the days of a row in as many rounds as there are days to the end of the month. Natural numbers are
-- unbounded, as the client's counts stay far below 2^53; a year is one, and a day has 24 hours.
--
-- Not modelled: the server (cmd, core, internal, hooks), whose answers are parameters; rendering and
-- styles; the documentation page; Intl, which is a record of functions; timers, but for the event that
-- they fire.
pub mod Base
pub mod Value
pub mod Types
pub mod Api
pub mod Server
pub mod I18n
pub mod FilterBar
pub mod HooksEditor
pub mod ActionsEditor
pub mod RowKey
pub mod Kanban
pub mod Calendar
pub mod Data
pub mod Labels
pub mod TableForm
pub mod Roles
pub mod Sidebar
pub mod Import
pub mod Tables
pub mod Access
pub mod Users
pub mod Datasources
pub mod Audit
pub mod Cards
pub mod Outbox
pub mod MetaTransfer
pub mod Errors
mod Tests
