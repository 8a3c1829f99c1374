-- ===== src/Workspace/Sample.antt =====
-- A workspace, a parser and a session that the tests of the workspace pages share.
use ha_cluster.Base.{String, [], none, some, to_text}
use ha_cluster.Session.World.{Json, World}
use ha_cluster.Workspace.{Workspace}

abbrev pub workspace : String → Workspace
workspace status = record {
  id = "w1";
  name = "dev";
  plan = "small";
  arch = "amd64";
  status = status;
  project_id = "p1";
  visibility = none;
  owner_user_id = none;
  host_key_fp = none;
  node_id = none;
  node_name = none;
  created_at = none;
  last_activity_at = none;
  cpu_milli = none;
  mem_bytes = none;
  disk_bytes = none;
  pending_cpu_milli = none;
  pending_mem_bytes = none;
  pending_disk_bytes = none;
  resize_status = none;
  resize_kind = none;
  runtime = none;
  runtime_ref = none;
  exec_ready = none;
  exec_error = none;
  exec_checked_at = none;
}

-- No reply parses.
abbrev pub js : Json
js = record { parse = λ s. none; stringify = to_text }

-- The network fails at every request.
abbrev pub session : World
session = record {
  token = some "t1";
  refresh = none;
  user = none;
  pathname = "/workspaces";
  assigned = [];
  replies = [];
  sent = [];
}
