-- ===== src/Providers/S3Storage.antt =====
-- src/wapp_planner/providers/s3_storage.py. The S3 client is a parameter.
use whatsapp_automatic_plann.Prelude.{Bool, true, false, String, ◌<>◌, if◌then◌else◌}
use whatsapp_automatic_plann.Errors.{Error, Action, Result, ok, err, pure, ◌>>◌}
use whatsapp_automatic_plann.Providers.{Bytes, StorageProvider}

-- The calls of boto3, by bucket and key, and which exceptions are a `ClientError`.
pub record S3Client (W : Type 0) : Type 0 where
  pub put_object : String → String → Bytes → String → Action W (Unit {0})
  pub get_object : String → String → Action W Bytes
  pub head_object : String → String → Action W (Unit {0})
  pub delete_object : String → String → Action W (Unit {0})
  pub is_client_error : Error → Bool

module _ {W : Type 0} (client : S3Client W) (bucket : String) where
  -- The `except` clause of `exists`.
  unfoldable pub existence : Result (Unit {0}) → Result Bool
  existence (ok _) = ok true
  existence (err e) = if client.is_client_error e then ok false else err e

  -- `S3Storage`
  unfoldable pub s3_storage : StorageProvider W
  unfolding existence
  s3_storage = record {
    put = λ key bytes content_type.
        client.put_object bucket key bytes content_type >> pure ("s3://" <> bucket <> "/" <> key);
    get = λ key. client.get_object bucket key;
    exists = λ key w. let (r, w') = client.head_object bucket key w in (existence r, w');
    delete = λ key. client.delete_object bucket key;
  }
