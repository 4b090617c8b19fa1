-- ===== src/Upload/Multipart.antt =====
-- api-put-object-multipart.go (putObjectMultipartNoStream, uploadPart, initiateMultipartUpload,
-- completeMultipartUpload), api-put-object.go (putObjectMultipartStreamNoLength), newUploadID of
-- api-put-object-common.go and abortMultipartUpload of api-remove.go: an upload in parts.
-- The server is a parameter that answers by the requests so far, the last one included; a request
-- and its answer are what `executeMethod` and the decoding of its response make of them. A reader is
-- the bytes that it gives and the error that it ends with, if it does not end with io.EOF. Checksums,
-- progress hooks and encryption headers do not change what is sent, and are left out.
pub mod Session
pub mod Upload
pub mod Sent
pub mod Settled
pub mod Parts
pub mod Rounds
pub mod Whole
pub mod Accepted
pub mod Known
