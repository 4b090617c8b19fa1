-- ===== src/Tests/ComposeRuns.antt =====
-- Composed objects: runs and an instance.
use mefs_sdk_go.Prelude.{ℕ, ◌≡◌, refl, false, none, some, [], ◌∷◌}
use mefs_sdk_go.Upload.Splits.{parts_required, current_part_size, split_loop, calculate_even_splits}
use mefs_sdk_go.Upload.Compose.{
  Source, refused_with, copied_whole, copied_parts, too_small, compose_object, plan_of,
  check_sources, source_size, segment_size, segment_error, copy_sources, copy_splits,
}
use mefs_sdk_go.Upload.Compose.Copies.{IsLaid, compose_object-IsLaid}

abbrev whole_of : ℕ → Source
whole_of n = record { size = some n; is_encrypted = false; range = none }

abbrev ten_mib : Source
ten_mib = record { size = some 20971520; is_encrypted = false; range = some (100, 10485859) }

two_parts :
    compose_object (ten_mib ∷ whole_of 7 ∷ [])
    ≡ copied_parts (
        record { part_index = 1; source = 0; start = 100; end' = 10485859 }
        ∷ record { part_index = 2; source = 1; start = 0; end' = 6 }
        ∷ [])
unfolding compose_object plan_of check_sources source_size segment_size segment_error copy_sources
    copy_splits calculate_even_splits parts_required split_loop current_part_size
two_parts = refl

small_first : compose_object (whole_of 7 ∷ ten_mib ∷ []) ≡ refused_with too_small
unfolding compose_object plan_of check_sources source_size segment_size segment_error parts_required
small_first = refl

one_request : compose_object (whole_of 7 ∷ []) ≡ copied_whole
unfolding compose_object plan_of check_sources source_size segment_size segment_error parts_required
one_request = refl

compose_object-IsLaid_example :
    IsLaid (ten_mib ∷ whole_of 7 ∷ []) (compose_object (ten_mib ∷ whole_of 7 ∷ []))
compose_object-IsLaid_example = compose_object-IsLaid (ten_mib ∷ whole_of 7 ∷ [])
