-- ===== src/Payments/Uploads.antt =====
-- Voucher files (backend/app/services/payments.py): what is checked of them, and how their contents
-- reach the storage. The validator and the storage are what the service is constructed with.
use project_lifecycle_manage.Base.{
  ℕ, leb, Bool, true, false, not, Option, none, some, List, [], ◌∷◌, Text, strip, length, filter,
  text_eq, if◌then◌else◌,
}
use project_lifecycle_manage.Model.{Db}
use project_lifecycle_manage.Errors.{
  Result, ok, validation_failed, voucher_required, file_name_required, file_too_large,
  file_rejected, guard, ◌>>=◌, ◌>>◌,
}

pub record PaymentVoucherUpload : Type 0 where
  pub file_name : Text
  pub content_type : Option Text
  pub content : List ℕ

-- `FileValidator.validate` as whether it accepts, `StorageBackend.save` with `none` for a
-- StorageSecurityError, `StorageBackend.delete` as whether it returns, the limit on the size of a file,
-- and whether the database takes the rows at the flushes and the commit.
pub record Backends : Type 0 where
  pub accepts : PaymentVoucherUpload → Bool
  pub save : (sub_project_id phase_id : ℕ) (file_name : Text) (content : List ℕ) → Option Text
  pub deletes : Text → Bool
  pub max_file_size_bytes : ℕ
  pub commits : Db → Bool

abbrev has_text : Text → Bool
has_text [] = false
has_text (c ∷ s) = true

unfoldable pub clean_upload : Backends → PaymentVoucherUpload → Result PaymentVoucherUpload
clean_upload b upload = do
  let cleaned = record upload { file_name = strip upload.file_name }
  guard (has_text cleaned.file_name) (validation_failed file_name_required)
  guard (leb (length upload.content) b.max_file_size_bytes) (validation_failed file_too_large)
  guard (b.accepts cleaned) file_rejected
  ok cleaned

clean_each : Backends → List PaymentVoucherUpload → Result (List PaymentVoucherUpload)
unfolding clean_upload
clean_each b [] = ok []
clean_each b (u ∷ us) = do cleaned ← clean_upload b u; rest ← clean_each b us; ok (cleaned ∷ rest)

abbrev some_files : List PaymentVoucherUpload → Bool
some_files [] = false
some_files (u ∷ us) = true

unfoldable pub clean_voucher_uploads :
    Backends → List PaymentVoucherUpload → Result (List PaymentVoucherUpload)
unfolding clean_each
clean_voucher_uploads b uploads = do
  guard (some_files uploads) (validation_failed voucher_required)
  clean_each b uploads

-- The keys under which contents are stored.
abbrev pub Storage : Type 0
Storage = List Text

-- The loop of `_create_voucher_documents` over the storage: the keys that were saved, and whether it
-- came to its end.
pub record Saved : Type 0 where
  pub keys : List Text
  pub complete : Bool

unfoldable pub save_contents : Backends → ℕ → ℕ → List PaymentVoucherUpload → Saved
save_contents b sub_project_id phase_id [] = record { keys = []; complete = true }
save_contents b sub_project_id phase_id (u ∷ us) =
    let rest = save_contents b sub_project_id phase_id us in
    elim (b.save sub_project_id phase_id u.file_name u.content) [
      | none ↦ record { keys = []; complete = false }
      | some key ↦ record { keys = key ∷ rest.keys; complete = rest.complete }
    ]

-- `_delete_saved_contents`, which goes on where a deletion raises.
unfoldable pub delete_saved_contents : Backends → List Text → Storage → Storage
delete_saved_contents b [] storage = storage
delete_saved_contents b (key ∷ keys) storage =
    delete_saved_contents b keys
      (if b.deletes key then filter (λ k. not (text_eq k key)) storage else storage)
