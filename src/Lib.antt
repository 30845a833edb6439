-- ===== src/Lib.antt =====
-- The web interface of kvrocks-controller (webui/src/app), a React application that shows and
-- changes the namespaces, clusters, shards and nodes of a controller over HTTP.
--
-- Parts and files:
--   Api         webui/src/app/lib/api.ts: Response has `handleError` and the two response
--               handlers, Calls each exported function under its name (`fetchNamespaces` is
--               `fetch_namespaces`), Laws, Urls and Reads what their callers rely on.
--   Utils       webui/src/app/utils.ts.
--   Dialogs     webui/src/app/ui/migrationDialog.tsx and failoverDialog.tsx.
--   Forms       webui/src/app/ui/formCreation.tsx and formDialog.tsx: Data has the checks, Creation
--               and Migrate the `handleSubmit` of each form, Dialog the dialog around them.
--   Pages       webui/src/app/namespaces: Namespaces is page.tsx, Namespace [namespace]/page.tsx,
--               Cluster clusters/[cluster]/page.tsx, Shard shards/[shard]/page.tsx and Node
--               nodes/[node]/page.tsx, each below the one before.
--   Sidebar     webui/src/app/ui/sidebar.tsx, and Item sidebarItem.tsx.
--   Breadcrumb  webui/src/app/ui/breadcrumb.tsx.
--   Store       store/slot.go of the controller: Slot has the ranges and the lists of ranges, Parse
--               `ParseSlotRange`; Sets, Canonical, Unique, Adding, Removing and History are about
--               the sets of slots that lists stand for, Texts about printing and parsing.
--   Ui          what components render.
--   Js          what the source uses of the language: texts, numbers, dynamic values, sorting.
--   Common      names of the libraries, lists over the native numbers, integers.
-- A module Tests holds runs at concrete inputs and instances of its component's theorems.
--
-- How the code is modelled. The `useState` variables of a component are the fields of a record,
-- and a handler is a function from that record to the next. A handler that makes requests also
-- takes and gives the server's state: axios and the server are the parameter `axios`, which takes
-- a request and the server's state to the parsed body of the answer or to an exception, and to
-- the server's next state. Callbacks, alerts and navigations are recorded in lists. Pages, forms
-- and sidebars call the server only through Api. An `await` inside a handler is a step of its
-- sequence; the state that awaits is visible as `start_migration` and `start_failover`. The callbacks
-- that the namespace page hands to `Promise.all` run by turns: Pages/Namespace/Promises has a step
-- for each answer of the server and for each turn of a callback between two of its `await`s, in any
-- order, and Pages/Namespace/Gather the run of one callback after the other, which the page's
-- handlers call.
--
-- Data of the server are values of Js/Value: JSON and `undefined`, with reads that throw on
-- `undefined` and null. Texts are lists of UTF-16 code units. Numbers are integers and NaN:
-- fractions, infinities and the rounding from 2^53 on are left out, since the numbers handled are
-- slots, counts, ports and times. Parsing and printing of numbers are written out. Printing runs on
-- fuel, one step for each digit; a number has fewer digits than its value plus one, which is the
-- fuel that `show_ℕ` gives. All other loops are
-- structural.
--
-- Parameters: axios and the server, `toLowerCase`, `toUpperCase`, `localeCompare`, `JSON.parse`,
-- `JSON.stringify`, in the breadcrumb the test whether `Number` reads a text, on the node page the
-- printing of a date by `toLocaleString`, and Go's `sort.Slice`.
--
-- What a component renders is a list of Ui: texts, marks and controls in the order of the document,
-- with the action of each control and whether it is disabled. Dialogs/*/View,
-- Pages/Node/View and Pages/*/Rendering have these views, and the dialogs a step relation for the
-- user, who uses what is shown, and the server.
--
-- Not modelled: styles, containers and placeholders, the rendering of the shard page, the sidebars,
-- the breadcrumb and the forms, `console` output, `formatTimestamp` and `formatBytes` (locale and
-- floating point), the home page, the theme and the layout. Names are put into URLs as they are, as
-- the source does. Go's slices are lists here: that appending to one and sorting it in place may
-- change the caller's slice is left out, and slots are naturals, without the wrap-around of `int`.
-- The namespace page reads `shards` that are no array, which the controller does not send, as none.
-- The controller itself is written in Go and is not modelled, but
-- for the ranges of store/slot.go, without MigratingSlot and CalculateSlotRanges.
pub mod Api
pub mod Breadcrumb
pub mod Common
pub mod Dialogs
pub mod Forms
pub mod Js
pub mod Pages
pub mod Sidebar
pub mod Store
pub mod Ui
pub mod Utils
