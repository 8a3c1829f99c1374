-- ===== src/Launcher.antt =====
-- The launcher of a local development: scripts/dev.ts. Env is the search path and the port, and this
-- file the children that it starts and how it ends. Processes and the files on disk are parameters.
pub mod Env
pub mod Laws
pub mod Tests
use ha_cluster.Base.{
  Bool, List, Option, String, [], any, code, eqb, find, if◌then◌else◌, is_some, map, none, not,
  some, suc, true, zero, ℕ, ◌&&◌, ◌==◌, ◌∷◌,
}

pub data Service : Type 0 where
  api web : Service

-- What `main` starts, in the order of the starts.
unfoldable pub services : List String → List Service
services args =
    let api_only = any (λ a. a == "--api") args in
    let web_only = any (λ a. a == "--web") args in
    let front = if api_only then [] else web ∷ [] in if web_only then front else api ∷ front

-- What is missing before a start of the web service; `exists` asks for files below the root.
unfoldable pub missing : (String → Bool) → List String → Option String
missing exists args =
    if any (λ a. a == "--api") args
    then none
    else if not (exists "web/package.json")
    then some "未找到 web/package.json。"
    else if not (exists "node_modules") && not (exists "web/node_modules")
    then some "未安装前端依赖，请先在仓库根目录执行：bun install"
    else none

-- A child has ended with a code, or without one by a signal; `signalled` says that the launcher has
-- asked it to end.
pub record Child : Type 0 where
  pub ended : Bool
  pub exit_code : Option ℕ
  pub signalled : Bool

unfoldable pub kill_tree : Child → Child
kill_tree c = if is_some c.exit_code then c else record c { signalled = true }

-- The listener of SIGINT and SIGTERM.
unfoldable pub shutdown : List Child → List Child
shutdown children = map kill_tree children

-- The child at the index ends: the others are killed.
unfoldable pub exited : ℕ → Option ℕ → List Child → List Child
unfolding kill_tree
exited i code [] = []
exited zero code (c ∷ cs) = record c { ended = true; exit_code = code } ∷ map kill_tree cs
exited (suc i) code (c ∷ cs) = kill_tree c ∷ exited i code cs

abbrev pub code_or_1 : Option ℕ → ℕ
code_or_1 none = 1
code_or_1 (some n) = n

-- `codes.find((code) => code !== 0) ?? 0`.
unfoldable pub exit_status : List (Option ℕ) → ℕ
exit_status codes = elim (find (λ n. not (eqb n 0)) (map code_or_1 codes)) [ none ↦ 0 | some n ↦ n ]

-- What happens to the children.
pub data Event : Type 0 where
  interrupt : Event
  exit : ℕ → Option ℕ → Event

unfoldable pub on_event : Event → List Child → List Child
unfolding shutdown exited
on_event interrupt cs = shutdown cs
on_event (exit i code) cs = exited i code cs

unfoldable pub on_events : List Event → List Child → List Child
unfolding on_event
on_events [] cs = cs
on_events (e ∷ es) cs = on_events es (on_event e cs)
