-- ===== src/Lib.antt =====
-- The TypeScript clients of TELUVANE, which records the steps of AI agents, chains them by hashes and
-- audits them: the recorder SDK (sdk-js) and the workspace pages of the dashboard (frontend).
--
-- An agent records its steps through the SDK. A user signs in; the session hook shows the token
-- once the user's workspace is provided; the pages then fetch from the API with it. The backend,
-- Supabase, Next.js and the browser are not part of the model: their answers are arguments, or values
-- with which a waiting call settles.
--
-- The parts:
--   Api            frontend/lib/api.ts: rawFetch (raw_fetch), apiFetch, apiFetchBlob and ensureOrg. The
--                  network's behaviour is an argument, with its times in milliseconds.
--   Session        frontend/lib/useSession.ts and frontend/lib/supabase.ts.
--   Confirm        frontend/lib/useConfirm.ts, with a clock that passes.
--   Workspace      frontend/app/app/page.tsx: load (load_session), audit (audit_session), seedDemo,
--                  openEvidence, downloadEvidencePdf, loadSessions, the effects (Workspace/Events) and
--                  what is rendered (Workspace/View). Workspace/Online has the calls of the page as requests
--                  of Api against a backend.
--   Settings       frontend/app/app/settings/page.tsx, with one file for the handlers of each
--                  section: Byok, Rules, Framework, Schedules and Webhooks.
--   Team           frontend/app/app/team/page.tsx.
--   Keys           frontend/app/app/keys/page.tsx.
--   Billing        frontend/app/app/billing/page.tsx: refresh, upgrade, manage, the effects and
--                  the meter.
--   Insights       frontend/app/app/insights/page.tsx: the ranges, the totals, the chart and
--                  the table.
--   Login          frontend/app/login/page.tsx: submit and the change of the mode, with what
--                  Supabase answers as replies.
--   ResetPassword  frontend/app/auth/reset/page.tsx: the effect run (confirm_link) and submit.
--   AuthCallback   frontend/app/auth/callback/page.tsx: run (confirm_link), the listener, the timer
--                  and the cleanup as events.
--   TopNav         frontend/components/TopNav.tsx: LINKS (links), active, logout and the bar.
--   Contrast       frontend/lib/contrast.ts.
--   Site           frontend/app/page.tsx and frontend/components/landing (Site/Landing), the legal pages
--                  (Site/Legal), the addresses and links of all pages with frontend/app/layout.tsx
--                  (Site/Places), FadeInSection with useReducedMotion.ts (Site/Section), and robots.ts
--                  and sitemap.ts (Site/Robots).
--   Dashboard      the session hook beside a page: what the hook shows is what the page's effect sees;
--                  Dashboard/Screens has the six pages of the workspace, and Dashboard/Leaving what they do
--                  when the session ends.
--   Recorder       sdk-js/src/index.ts: the requests that recordLlmCall, recordToolCall and
--                  recordToolResult make through emit, and EventPayload (Recorder/Payload).
--   SceneProgress  frontend/lib/sceneProgress.ts.
--   Runtime, View, Json, Js, Prelude
--                  What these share: asynchronous handlers and their interleavings, rendered
--                  controls, JSON values, the JavaScript string functions, lists and results.
--
-- How state and operations correspond: a page's `Page` is the record of its hooks, in the order of
-- the source, with what it told the router. A handler is a function of the state of the render that
-- made it (its closure) into a `Prog`: setters up to the next await, and a continuation for every
-- value that the awaited call can settle with. `wire` gives the path and the options of each call.
-- `handle` is what each event of a page starts, with the effects that React runs when a dependency
-- has changed. Runtime's `Reach` is every interleaving of events and replies; Runtime/Sequential
-- runs one handler alone, and Runtime/Schedule a given interleaving.
--
-- Bounds: nothing here runs on fuel but the digits of a number, which take the number and one more:
-- each digit leaves a smaller number, so there are at most that many. Numbers are natural numbers,
-- but for the floating-point numbers of Contrast and SceneProgress, which are a parameter.
-- Strings are sequences of code points, with no lone surrogates, which encodeURIComponent would refuse.
--
-- Not modelled, or assumed:
--   - timers fire on time, and an effect runs again only when a dependency changes; the first run of
--     the debounce effect, which changes nothing, is left out;
--   - a reply of the API has the type that the source casts it to;
--   - styles, headings and fixed prose of the pages, and the release of object URLs;
--   - the reading of a number from a field and the locale of a date, which are parameters, and
--     fractions or negative numbers for an interval;
--   - rounding of floating-point numbers in the percentage of Billing and the lengths of the chart of
--     Insights, which are exact;
--   - the arithmetic of floating-point numbers, which is a parameter of Contrast and of SceneProgress;
--   - the navigation bar above the main element in the views of the pages: a view is that of the main
--     element, and Team/View adds the bar (screen);
--   - metadata and images of the public pages;
--   - the Python backend (teluvane), its migrations and its policies.
pub mod Prelude
pub mod Runtime
pub mod Js
pub mod Json
pub mod Api
pub mod View
pub mod Keys
pub mod Workspace
pub mod Settings
pub mod Team
pub mod Billing
pub mod Insights
pub mod Login
pub mod ResetPassword
pub mod AuthCallback
pub mod TopNav
pub mod Recorder
pub mod Session
pub mod Confirm
pub mod SceneProgress
pub mod Dashboard
pub mod Tests
pub mod Site
pub mod Contrast
