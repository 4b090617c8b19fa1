-- ===== src/Upload/Constants.antt =====
-- constants.go: the bounds on parts and objects. The one that fills memory words is sealed by the
-- lemmas below, so that no tactic counts to it.
use mefs_sdk_go.Prelude.{ℕ, ◌*◌}

-- 5 MiB
abbrev pub abs_min_part_size : ℕ
abs_min_part_size = 1024 * 1024 * 5

-- 128 MiB
abbrev pub min_part_size : ℕ
min_part_size = 1024 * 1024 * 128

abbrev pub max_parts_count : ℕ
max_parts_count = 10000

-- 5 GiB
abbrev pub max_part_size : ℕ
max_part_size = 1024 * 1024 * 1024 * 5

abbrev pub max_single_put_object_size : ℕ
max_single_put_object_size = 1024 * 1024 * 1024 * 5

-- 5 TiB
abbrev pub max_multipart_put_object_size : ℕ
max_multipart_put_object_size = 1024 * 1024 * 1024 * 1024 * 5
