-- ===== src/Lib.antt =====
-- Temporal Loom's web client (ui/web/src): the logic behind its pages.
--
-- The client holds chats with agents, routines, documents and settings of a workspace. Its pages
-- read Zustand stores; the stores call the API, read a run's event stream, and keep what belongs
-- to the browser in its storages; the answers of an agent hold reports as fenced specs.
--
-- Which file models what, with paths from the repository's root:
--   Sse            ui/web/src/lib/sse.ts. Sse.Lines is the buffer that both readers share, Sse.Events
--                  is streamSSE, Sse.Completion is streamOpenAIChatCompletion.
--   Chat           ui/web/src/stores/chat.ts. Chat is the state and the short actions, Chat.Events the
--                  callback of the stream, Chat.Send the rest of sendMessage. A `Run` is the
--                  variables of one sendMessage with the store that its callbacks update.
--   Report         ui/web/src/lib/report-spec.ts. Report.Tables and Report.Names are the alias tables
--                  and their readers, Report.Charts and Report.Props normalizeReportProps,
--                  Report.Spec parseReportSpec, Report.Fences the regular expressions, and
--                  Report.Messages the two parsers of messages.
--   HtmlReport     ui/web/src/lib/html-report-spec.ts. HtmlReport.Entities, Markup and Tables read HTML,
--                  Generic makes an element of each block, Fields, Timeline and Loan the status of a
--                  loan.
--   Prose          ui/web/src/components/markdown/Prose.tsx. Prose.Lines is the tests on a line,
--                  Prose.Blocks the loop over lines, Prose.Inline the marks and the links.
--   Pattern        the regular expressions of these two, as functions that list what they can take.
--   SessionPage    ui/web/src/pages/SessionDetailPage.tsx: the segments of a session and their pages.
--   Renderer       ui/web/src/components/chat/ReportRenderer.tsx: Renderer.Readers reads props,
--                  Renderer.Colors and Charts make points, series and segments, Renderer.Shapes the
--                  rows of other charts, Renderer.Safe tests links.
--   Composer       ui/web/src/components/chat/InputMessage.tsx: the state of the field, with Composer.Queue
--                  a step for each thing done to it.
--   Cron           ui/web/src/lib/cron.ts; Cron.Parts is the fields and what is printed from them.
--   Documents      ui/web/src/stores/documents.ts, with Documents.Types its data and Documents.Seed its
--                  seed records; Keyed is ui/web/src/lib/db.ts with the updates of lists.
--   Workspaces, Routines, Sessions, Auth, Theme
--                  ui/web/src/stores, the file of that name.
--   Client         ui/web/src/lib/api.ts: Client.Calls and Client.Resources are its calls,
--                  Client.Encoding encodeURIComponent, Client the paths and the answers.
--   Dashboard      the widgets of ui/web/src/pages/DashboardPage.tsx and the handlers of its page.
--   Browser        the storages, ui/web/src/lib/chat-session.ts and ui/web/src/lib/session-title.ts.
--   Api            ui/web/src/types/api.ts, the records that the stores keep.
--   Json, Prelude  values as JSON.parse gives them; texts, dictionaries, decimals, lemmas.
--   Tests          the theorems at concrete inputs.
-- The chat reads its stream through Sse.Events; Report.Spec uses Report.Names and Report.Props, and
-- Report.Messages uses Report.Spec and Report.Fences, and so does Prose; HtmlReport makes specs of
-- Report.Spec; Renderer reads the props that Report.Charts wrote; SessionPage
-- draws the messages and the steps of Chat; Workspaces and Dashboard use Browser,
-- Workspaces also Theme.
--
-- How the code corresponds. A text is the list of its UTF-16 units. A store's action takes the state
-- and gives the next; an action that also writes a storage or the database works on both. A request
-- is an argument: its answer, or the way in which it fails. JSON.parse, JSON.stringify of a colour,
-- the clock, cookies and the chunks of the streaming decoder are arguments too. A dictionary is an
-- association list whose first entry of a key counts; an insertion replaces that entry in place or
-- goes to the end, as a JavaScript object does with keys that are not array indices.
--
-- Fuel. The loops of the message parsers get one more than the length of the text. A match has three
-- units at least, so that the text behind it is shorter. The loop over the lines of a text gets one more
-- than the number of lines. Everything else is structural recursion.
--
-- Not modelled. What plain objects inherit from Object.prototype, but for the root of a report spec;
-- an own key __proto__, whose assignment sets a prototype; case mapping and white space
-- beyond what Prelude.Strings states; digits beyond the 2^53 that a JavaScript number holds;
-- parseOnceDate, createChatSessionKey and fireNow; the decomposition of letters into letters and marks;
-- number formats, chart geometry and what the charts compute on floating-point
-- numbers; the drawing of React components and pages; and the Go
-- server, the MCP servers, migrations and scripts, which are the other end of the requests.
pub mod Prelude
pub mod Json
pub mod Pattern
pub mod Sse
pub mod Theme
pub mod Api
pub mod Chat
pub mod Report
pub mod HtmlReport
pub mod Renderer
pub mod Cron
pub mod Dashboard
pub mod Prose
pub mod Keyed
pub mod Documents
pub mod Browser
pub mod Client
pub mod Workspaces
pub mod Routines
pub mod Sessions
pub mod SessionPage
pub mod Composer
pub mod Auth
pub mod Tests
