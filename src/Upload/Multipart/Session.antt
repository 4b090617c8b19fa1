-- ===== src/Upload/Multipart/Session.antt =====
-- api-put-object-multipart.go: the requests of an upload, the parts and io.ReadFull.
use mefs_sdk_go.Prelude.{
  ℕ, ◌-◌, List, [], ◌∷◌, ◌++◌, ◌==◌, if◌then◌else◌, ltb, leb, length, take, drop, Option, none,
  some, ◌⊎◌, inl, inr,
}
use mefs_sdk_go.Prelude.Text.{Text, codes, has_prefix, has_suffix}
use mefs_sdk_go.Names.Check.{NameError, check_valid_bucket_name, check_valid_object_name}
use mefs_sdk_go.Upload.Constants.{max_part_size}
use mefs_sdk_go.Upload.PartInfo.{PartInfoError}

-- The two fields that are compared.
pub record ErrorResponse : Type 0 where
  pub code : Text
  pub message : Text

-- The errors of an upload: a refused name, the refusals of `optimalPartInfo`, an error of the reader,
-- the refusals of `uploadPart`, the missing part, and an error of the server.
pub data UploadError : Type 0 where
  refused_name : NameError → UploadError
  refused_parts : PartInfoError → UploadError
  no_part_size : UploadError
  read_failed : Text → UploadError
  part_too_large : ℕ → UploadError
  part_number_zero : UploadError
  no_upload_id : UploadError
  missing_part : ℕ → UploadError
  err_unexpected_eof : ℕ → ℕ → UploadError
  response : ErrorResponse → UploadError

pub record CompletePart : Type 0 where
  pub part_number : ℕ
  pub etag : Text

pub data Request : Type 0 where
  initiate : Request
  put_part : Text → ℕ → Text → Request
  complete : Text → List CompletePart → Request
  abort : Text → Request

abbrev pub Log : Type 0
Log = List Request

pub record Server : Type 0 where
  pub answer_initiate : Log → ErrorResponse ⊎ Text
  pub answer_part : Log → ErrorResponse ⊎ Text  -- the ETag header
  pub answer_complete : Log → Option ErrorResponse

pub record Stream : Type 0 where
  pub content : Text
  pub failure : Option Text

pub data ReadEnd : Type 0 where
  no_error unexpected_eof eof : ReadEnd
  other_error : Text → ReadEnd

-- io.ReadFull into a buffer of `n` bytes: what was read, the error and the reader after it
unfoldable pub read_full : ℕ → Stream → Text × ReadEnd × Stream
read_full n r =
    if leb n (length r.content)
    then (take n r.content, no_error, record r { content = drop n r.content })
    else (
      r.content,
      elim r.failure [
        | some e ↦ other_error e
        | none ↦ if length r.content == 0 then eof else unexpected_eof
      ],
      record r { content = [] },
    )

-- the checks of both names that every request starts with
unfoldable pub check_names : Text → Text → Option UploadError
check_names bucket_name object_name = elim (check_valid_bucket_name bucket_name) [
  | some e ↦ some (refused_name e)
  | none ↦ elim (check_valid_object_name object_name) [
    | some e ↦ some (refused_name e)
    | none ↦ none
  ]
]

abbrev pub from_server : {A : Type 0} → ErrorResponse ⊎ A → UploadError ⊎ A
from_server (inl e) = inl (response e)
from_server (inr a) = inr a

abbrev pub completion_error : Option ErrorResponse → Option UploadError
completion_error none = none
completion_error (some e) = some (response e)

abbrev quote : Text
quote = codes "\""

-- strings.TrimPrefix and strings.TrimSuffix of the quotes
unfoldable pub trim_quotes : Text → Text
unfolding has_prefix has_suffix
trim_quotes s =
    let t = if has_prefix s quote then drop 1 s else s in
    if has_suffix t quote then take (length t - 1) t else t

module _ (server : Server) (bucket_name object_name : Text) where
  unfoldable pub initiate_multipart_upload : Log → Log × (UploadError ⊎ Text)
  initiate_multipart_upload log = elim (check_names bucket_name object_name) [
    | some e ↦ (log, inl e)
    | none ↦ let log' = log ++ initiate ∷ [] in (log', from_server (server.answer_initiate log'))
  ]

  unfoldable pub new_upload_id : Log → Log × (UploadError ⊎ Text)
  new_upload_id log = elim (check_names bucket_name object_name) [
    | some e ↦ (log, inl e)
    | none ↦ initiate_multipart_upload log
  ]

  -- what is made of the answer to a part
  unfoldable pub object_part : ℕ → ErrorResponse ⊎ Text → UploadError ⊎ CompletePart
  object_part number (inl e) = inl (response e)
  object_part number (inr header) = inr (record { part_number = number; etag = trim_quotes header })

  -- `uploadPart`; the size is the length of the body, which is never negative
  unfoldable pub upload_part : Text → Text → ℕ → Log → Log × (UploadError ⊎ CompletePart)
  upload_part upload_id body number log = elim (check_names bucket_name object_name) [
    | some e ↦ (log, inl e)
    | none ↦
        if ltb max_part_size (length body)
        then (log, inl (part_too_large (length body)))
        else if number == 0
        then (log, inl part_number_zero)
        else if length upload_id == 0
        then (log, inl no_upload_id)
        else let log' = log ++ put_part upload_id number body ∷ [] in
          (log', object_part number (server.answer_part log'))
  ]

  unfoldable pub complete_multipart_upload :
      Text → List CompletePart → Log → Log × Option UploadError
  complete_multipart_upload upload_id parts log = elim (check_names bucket_name object_name) [
    | some e ↦ (log, some e)
    | none ↦
        let log' = log ++ complete upload_id parts ∷ [] in
        (log', completion_error (server.answer_complete log'))
  ]

  -- `abortMultipartUpload`, whose error the callers ignore
  unfoldable pub abort_multipart_upload : Text → Log → Log
  abort_multipart_upload upload_id log = elim (check_names bucket_name object_name) [
    | some e ↦ log
    | none ↦ log ++ abort upload_id ∷ []
  ]
