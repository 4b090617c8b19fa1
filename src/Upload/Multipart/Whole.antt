-- ===== src/Upload/Multipart/Whole.antt =====
-- api-put-object-multipart.go, api-put-object.go: an upload that the server accepts.
use native.Mathlib.Numerals.{sub-one}
use mefs_sdk_go.Prelude.{
  ℕ, zero, suc, ◌+◌, ◌-◌, ◌*◌, ◌≤◌, ◌<◌, List, [], ◌∷◌, ◌++◌, length, none, inr, ◌≡◌, refl, ap, ◌∙◌,
  arith,
}
use mefs_sdk_go.Prelude.Text.{Text}
use mefs_sdk_go.Upload.Constants.{max_part_size, max_multipart_put_object_size}
use mefs_sdk_go.Upload.PartInfo.{
  info, optimal_part_info, known_part_info, default_part_info, part_counts,
}
use mefs_sdk_go.Upload.PartInfo.Bounds.{configured_part_info-Covers}
use mefs_sdk_go.Upload.Multipart.Session.{
  initiate, complete, Log, Server, Stream, ReadEnd, check_names,
}
use mefs_sdk_go.Upload.Multipart.Upload.{
  Action, Progress, upload_loop, collect_parts, finish_upload, settle, after_loop, upload_parts,
  put_object_parts,
}
use mefs_sdk_go.Upload.Multipart.Sent.{put_requests}
use mefs_sdk_go.Upload.Multipart.Settled.{finish_sent, initiate_sent, settle_done}
use mefs_sdk_go.Upload.Multipart.Parts.{completed_parts, sort_parts-completed_parts}

room_lem :
    (count part last total : ℕ)
    → 0 < count
    → (count - 1) * part + last ≡ total
    → last ≤ part
    → total ≤ count * part
room_lem zero part last total h e f = absurd (omega arith)
room_lem (suc q) part last total h e f =
    let below : (suc q - 1) * part ≡ q * part = rw sub-one refl in omega (arith, below)

-- With the size unknown the parts are no larger than a part may be, and there is room for 5 TiB.
pub unknown_size_capacity :
    (c count part last : ℕ)
    → optimal_part_info none c ≡ info count part last
    → (0 < part) × (part ≤ max_part_size) × (max_multipart_put_object_size ≤ count * part)
unfolding optimal_part_info known_part_info default_part_info part_counts
unknown_size_capacity zero count part last e = ground arith
unknown_size_capacity (suc c) count part last e =
    let (covers, same, few, lo, hi) =
      configured_part_info-Covers max_multipart_put_object_size (suc c) count part last
        (omega arith) (omega arith) e in
    (
      omega (arith, same),
      omega (arith, same),
      room_lem count part last _ covers.some_part covers.total covers.last_fits,
    )

-- The requests of an upload of parts with the given bodies, after those of `log`.
abbrev pub upload_log : (Log → Text) → Text → Log → List Text → Log
upload_log tag upload_id log bs =
    ((log ++ initiate ∷ []) ++ put_requests upload_id 1 bs)
    ++ complete upload_id (completed_parts tag upload_id 1 (log ++ initiate ∷ []) bs) ∷ []

module _ (server : Server) (bucket_name object_name upload_id : Text) (tag : Log → Text)
    (good : check_names bucket_name object_name ≡ none)
    (completes : (log : Log) → server.answer_complete log ≡ none) where
  pub finish_whole :
      (bs : List Text) (n : ℕ) (log : Log) (p : Progress)
      → p.log ≡ log ++ put_requests upload_id 1 bs
      → p.part_number ≡ 1 + length bs
      → collect_parts p.parts_info 1 (length bs) ≡ inr (completed_parts tag upload_id 1 log bs)
      → finish_upload server bucket_name object_name upload_id p ≡ (
        (log ++ put_requests upload_id 1 bs)
            ++ complete upload_id (completed_parts tag upload_id 1 log bs) ∷ [],
        none,
      )
  finish_whole bs n log p sent number saved =
      let count : p.part_number - 1 ≡ length bs = omega arith in
      let all : collect_parts p.parts_info 1 (p.part_number - 1)
          ≡ inr (completed_parts tag upload_id 1 log bs) =
        rw count saved in
      finish_sent server bucket_name object_name good upload_id p _ all
      ∙ rw (completes, sort_parts-completed_parts tag upload_id 1 log bs, sent) refl

  pub upload_parts_whole :
      (action : ℕ → ReadEnd → Action) (count part_size : ℕ) (reader : Stream) (log log' : Log)
      (p : Progress)
      → upload_loop server bucket_name object_name action upload_id part_size count (record {
        reader = reader;
        log = log;
        part_number = 1;
        parts_info = [];
        total_uploaded_size = 0;
      })
        ≡ (p, none)
      → finish_upload server bucket_name object_name upload_id p ≡ (log', none)
      → upload_parts server bucket_name object_name action upload_id count part_size reader log
        ≡ (log', p.total_uploaded_size, none)
  unfolding upload_parts after_loop
  upload_parts_whole action count part_size reader log log' p loop finish =
      ap (after_loop server bucket_name object_name upload_id) loop
      ∙ ap (settle server bucket_name object_name upload_id p.total_uploaded_size) finish
      ∙ settle_done server bucket_name object_name good upload_id p.total_uploaded_size log'

  pub put_object_parts_whole :
      (action : ℕ → ReadEnd → Action) (c count part_size last : ℕ) (reader : Stream)
      (log log' : Log) (n : ℕ)
      → optimal_part_info none c ≡ info count part_size last
      → server.answer_initiate (log ++ initiate ∷ []) ≡ inr upload_id
      → upload_parts server bucket_name object_name action upload_id count part_size reader
          (log ++ initiate ∷ [])
        ≡ (log', n, none)
      → put_object_parts server bucket_name object_name action c reader log ≡ (log', n, none)
  unfolding put_object_parts
  put_object_parts_whole action c count part_size last reader log log' n found begun parts =
      rw (good, found, initiate_sent, begun, initiate_sent, put_object_parts) parts
