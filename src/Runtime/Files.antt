-- ===== src/Runtime/Files.antt =====
-- agreements/ports.ts: files that are handed in, and the storage plugin, which is a parameter.
use clickwrap.Prelude.{ℕ, String, Bool, true, false, List, [], ◌∷◌}

-- PdfUpload
pub record PdfUpload : Type 0 where
  pub buffer : List ℕ
  pub file_name : String

-- `buffer.length === 0`
abbrev pub is_empty_upload : PdfUpload → Bool
is_empty_upload upload = elim upload.buffer [ [] ↦ true | b ∷ bs ↦ false ]

-- StoredPdf
pub record StoredPdf : Type 0 where
  pub storage_key : String
  pub content_hash : String
  pub file_name : String
  pub file_size : ℕ

-- PdfStorage. A download URL is fresh and limited in time: it depends on the call, which is numbered.
pub record PdfStorage : Type 0 where
  pub store : PdfUpload → StoredPdf
  pub get_presigned_url : (storage_key : String) → (call : ℕ) → String
