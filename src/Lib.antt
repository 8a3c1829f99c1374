-- ===== src/Lib.antt =====
-- The web console of ha-cluster: its session with the API, its access rules, and the logic behind its
-- pages, all of the code that is neither markup nor styling.
--
-- The parts, and where they stand:
--   Session    web/src/providers.ts. World holds the browser state (local storage, path, targets of
--              navigation) and the server as the list of its replies; an action takes a world to a
--              result and a world. Fetch has `tryRefresh`, `authorizedFetch`, `api` and `apiText`;
--              Auth has `authProvider`; Provider has `dataProvider`; Message has `friendlyError`.
--              LoginPage is web/src/pages/Login.tsx.
--              Flight is a second view of `authorizedFetch`: many calls at once, with the promise
--              `refreshing` that they share, as a step relation.
--   Access     web/src/lib/permissions.ts and web/src/refine/accessControl.ts: the decision as a
--              function of the role, and Provider, which asks `getIdentity` for the role first.
--   Workspace  web/src/pages/workspaces/types.ts: statuses; Plan has plans and resizes, Poll says when
--              pages poll. Its pages: Row (WorkspaceRow.tsx), Resize (ResizeDialog.tsx), Create
--              (CreateForm.tsx, with the Race of its capacity requests), Section, Ingress and Panels
--              (Machine.tsx), SubNav (WorkspaceSubSidebar.tsx), Terminal
--              (WorkspaceTerminalDialog.tsx, with the browser's events as a step relation), and
--              ListPage (web/src/pages/Workspaces.tsx).
--   Format     web/src/ui/format.ts, web/src/pages/workspaces/format.ts and the plan texts.
--   Audit      web/src/pages/ops/format.ts: Label, Meta, Name, Change, Exec, Link with its Probe, and
--              Event for the searches of the log. Open is the click of web/src/pages/ops/Audit.tsx
--              and Page the rest of that page, Hover the cards of audit-hover.tsx and Dialog the
--              result of audit-exec.tsx beside it.
--   Project    web/src/pages/projects/types.ts: Owner, Name, Slug and Purpose; Form is FormDialog.tsx
--              beside it, Page with its Owners is web/src/pages/Projects.tsx, Detail is Detail.tsx
--              and SubNav is ProjectSubSidebar.tsx.
--   Directory  web/src/pages/members/roles.ts, web/src/pages/members/directory.ts and
--              web/src/pages/users/format.ts; Batch is BatchCreateUsersDialog.tsx and Members is
--              MemberList.tsx, both in web/src/pages/members; UserDialogs is
--              web/src/pages/users/actions.tsx; Pages is web/src/pages/Members.tsx and
--              web/src/pages/Users.tsx, Actions says which of their dialogs is open, and Controls
--              what their rows show.
--   Cluster    web/src/pages/workspaces/k8s-status.ts: Types and Status; Panel and Requests are
--              K8sPanel.tsx.
--   Node       web/src/pages/node-resources.ts; Fleet is web/src/pages/Nodes.tsx.
--   Ops        web/src/pages/ops: Approvals (DangerousApprovals.tsx), Domains (IngressDomains.tsx),
--              Registries (DockerRegistries.tsx), Keys (SSHKeys.tsx), Capacity (Capacity.tsx), and
--              Reconcile, the button of Audit.tsx and of web/src/pages/Nodes.tsx.
--   Invite     web/src/pages/AcceptInvite.tsx.
--   Nav        web/src/pages/Layout.tsx, whose sidebar is Shell, and web/src/refine/resources.ts;
--              Routes is web/src/App.tsx, Agent is web/src/components/agent-pack-button.tsx, and
--              Gate the guards of six pages.
--   Store      web/src/lib/current-project.ts.
--   Pager      web/src/lib/use-client-pager.ts; Window is web/src/components/ui/pagination.tsx.
--   Launcher   scripts/dev.ts: which children it starts and how they end; Env is the search path
--              and the port.
--   Base       what these share: tests, texts, lists, the dynamic values of JSON, the stable sort of
--              the language, and the runs of a step relation.
--
-- A page is a record of its state. A handler takes the record and a world to both; what it asks of the
-- page around it (messages, reloads, navigation) stands in the record. Session/Handler says how a
-- `try … catch` around a request is read.
--
-- Definitions carry the names of the source in snake case. A page asks Access what it may show and the
-- data provider for rows; every request goes through `authorized_fetch`; what fails reaches the user
-- through `friendly_error`.
--
-- Bounds and fuel. `authorized_fetch` counts the refreshes that it may still make: 1 for a call
-- from outside, 0 for the repeated one, as the flag `retried` does. Numbers are whole, natural
-- where the source has sizes and counts, and below 2 ^ 53, where doubles are exact; Format says how
-- quotients round. A visit of a page follows at most four routes. Other loops are recursion on
-- lists and texts.
--
-- Parameters: `JSON.parse` and `JSON.stringify` (the record Json), the platform's lower and upper
-- case, `encodeURIComponent`, `Number`, the printing and the comparison of texts and times,
-- whether a text could be copied, the files and processes of the launcher, and the route that the
-- router matches; nothing is assumed of any of them, but that the router matches three literal
-- routes where the redirects are concerned. The replies of the server are an arbitrary list; when
-- it is used up the network fails.
--
-- Not modelled: the Go server and agents, deployment, the system's tools that the launcher calls,
-- markup, styling and motion, the widgets and hooks of the UI kit (a copy of the registry that
-- web/components.json names), the hidden text area of `legacyCopy`, and keys that objects inherit
-- from their prototype. A background request of `getIdentity` runs to its end before the next
-- action, and so does a handler, but for the step relations of Flight, Create.Race and Terminal.
-- The doubles of the resize dialog are a parameter.
pub mod Base
pub mod Access
pub mod Workspace
pub mod Session
pub mod Format
pub mod Audit
pub mod Project
pub mod Directory
pub mod Cluster
pub mod Node
pub mod Pager
pub mod Store
pub mod Nav
pub mod Invite
pub mod Ops
pub mod Launcher
