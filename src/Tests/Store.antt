-- ===== src/Tests/Store.antt =====
-- Runs of relay/internal/store.
use appunvs.Prelude.{
  ◌≡◌, ◌⊎◌, refl, none, some, String-discrete, find, codes_beq, to_upper, to_lower, trim_prefix,
}
use appunvs.Pb.Stage.{PublishState, parse_publish_state, parse_runtime_kind}
use appunvs.Store.Action.{World, ok, err, box_not_found, driver, exec, query, now_millis}
use appunvs.Store.Boxes
use appunvs.Store.Boxes.{Box, Bundle, filled, active_boxes}
use appunvs.Store.Boxes.Laws.{lookup_box, foreign_box}
use appunvs.Tests.Data.{env, world, new_box, old_box, box_row}

abbrev created : World
created = (Boxes.create new_box env world).1

create_run : Boxes.create new_box env world ≡ (ok tt, created)
unfolding Boxes.create now_millis exec Boxes.insert_box Boxes.row_of_box filled find String-discrete
create_run = refl

found_run : lookup_box world.tables "ann" "box_1" ≡ some old_box
unfolding find String-discrete Boxes.box_of_row parse_publish_state parse_runtime_kind codes_beq
    to_upper to_lower trim_prefix
found_run = refl

abbrev got : World
got = (Boxes.get "ann" "box_1" env world).1

get_run : Boxes.get "ann" "box_1" env world ≡ (ok old_box, got)
unfolding Boxes.get query Boxes.or_not_found find String-discrete Boxes.box_of_row
    parse_publish_state parse_runtime_kind codes_beq to_upper to_lower trim_prefix
get_run = refl

foreign_run : lookup_box world.tables "bob" "box_1" ≡ none
unfolding find String-discrete
foreign_run = refl

foreign_box_example :
    let read = Boxes.get "bob" "box_1" env world in
    let moved = Boxes.set_state "bob" "box_1" PublishState.archived env world in
    let bumped = Boxes.set_current_version "bob" "box_1" "v9" env world in
    ((read.0 ≡ err box_not_found) ⊎ (read.0 ≡ err driver))
    × ((moved.0 ≡ err box_not_found) ⊎ (moved.0 ≡ err driver))
    × ((bumped.0 ≡ err box_not_found) ⊎ (bumped.0 ≡ err driver))
    × (read.1.tables ≡ world.tables)
    × (moved.1.tables ≡ world.tables)
    × (bumped.1.tables ≡ world.tables)
foreign_box_example = foreign_box "bob" "box_1" "v9" PublishState.archived env world foreign_run

box_row_run : find (Boxes.has_id "box_1") world.app_boxes ≡ some box_row
unfolding find String-discrete
box_row_run = refl
