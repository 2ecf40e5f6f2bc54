-- ===== src/Tests/Data.antt =====
-- The data of the runs: a clock that begins with 2026, a driver that refuses nothing, and tables
-- with one user, one plan, one box and one bundle.
use appunvs.Prelude.{codes, ◌+◌, false, [], ◌∷◌}
use appunvs.Pb.Stage.{PublishState, BuildState, RuntimeKind}
use appunvs.Store.Tables.{UserRow, BoxRow, Tables}
use appunvs.Store.Action.{Env, World}
use appunvs.Store.Boxes.{Box, Bundle}
use appunvs.Store.Billing

abbrev pub env : Env
env = record { clock = λ n. 1_767_225_600_000 + n; fails = λ _. false }

abbrev pub ann : UserRow
ann = record { id = "ann"; email = codes "a@x"; password_hash = "h"; created_at = 7 }

abbrev pub box_row : BoxRow
box_row = record {
  id = "box_1";
  namespace = "ann";
  provider_device_id = "dev";
  title = "notes";
  runtime = "rn_bundle";
  state = "draft";
  current_version = "";
  created_at = 8;
  updated_at = 9;
}

abbrev pub tables : Tables
tables = record {
  users = ann ∷ [];
  devices = [];
  app_tables = [];
  app_columns = [];
  api_keys = [];
  plans = Billing.canonical_plans;
  subscriptions = [];
  usage_daily = [];
  app_boxes = box_row ∷ [];
  app_bundles = [];
  ai_turns = [];
}

abbrev pub world : World
world = record { tables = tables; place = 0 }

abbrev pub new_box : Box
new_box = record {
  id = "box_2";
  namespace = "ann";
  provider_device_id = "dev";
  title = "todo";
  runtime = RuntimeKind.rn_bundle;
  state = PublishState.draft;
  current_version = "";
  created_at = 5;
  updated_at = 5;
}

abbrev pub old_box : Box
old_box = record {
  id = "box_1";
  namespace = "ann";
  provider_device_id = "dev";
  title = "notes";
  runtime = RuntimeKind.rn_bundle;
  state = PublishState.draft;
  current_version = "";
  created_at = 8;
  updated_at = 9;
}

abbrev pub bundle : Bundle
bundle = record {
  box_id = "box_1";
  version = "v1";
  uri = "u";
  content_hash = "c";
  size_bytes = 3;
  build_state = BuildState.succeeded;
  build_log = [];
  built_at = 11;
  expires_at = 12;
}
