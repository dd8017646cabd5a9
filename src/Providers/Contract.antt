-- ===== src/Providers/Contract.antt =====
-- What the program relies on in a storage, and the storages that promise it.
use whatsapp_automatic_plann.Prelude.{◌≡◌, String, arith, String-discrete, ◌∙◌, ap}
use whatsapp_automatic_plann.Prelude.Dict.{lookup-insert}
use whatsapp_automatic_plann.Errors.{ok, after-eq-ok}
use whatsapp_automatic_plann.Providers.{Bytes, StorageProvider}
use whatsapp_automatic_plann.Providers.Fakes.{InMemoryStorage, in_memory_storage}
use whatsapp_automatic_plann.Providers.S3Storage.{S3Client, s3_storage}

-- Data that was put is what is got under its key right after, and to get data changes none.
pub record KeepsData {W : Type 0} (storage : StorageProvider W) : Type 0 where
  pub got :
      (key : String) (bytes : Bytes) (type : String) (w : W) {ref : String}
      → (storage.put key bytes type w).0 ≡ ok ref
      → (storage.get key (storage.put key bytes type w).1).0 ≡ ok bytes
  pub kept :
      (key other : String) (w : W)
      → (storage.get key (storage.get other w).1).0 ≡ (storage.get key w).0

got-state : (key : String) (w : InMemoryStorage) → (in_memory_storage.get key w).1 ≡ w
unfolding in_memory_storage
got-state key w = ground arith

pub in_memory_storage-KeepsData : KeepsData in_memory_storage
unfolding in_memory_storage
in_memory_storage-KeepsData = record {
  got = λ key bytes type w h.
      ground (arith, lookup-insert key key (bytes, type) w, String-discrete key key);
  kept = λ key other w. ap (λ x. (in_memory_storage.get key x).0) (got-state other w);
}

-- An S3 client reads an object back right after it wrote it, and to read changes none.
pub record ReadsBack {W : Type 0} (client : S3Client W) : Type 0 where
  pub read :
      (bucket key : String) (bytes : Bytes) (type : String) (w : W)
      → (client.put_object bucket key bytes type w).0 ≡ ok tt
      → (client.get_object bucket key (client.put_object bucket key bytes type w).1).0 ≡ ok bytes
  pub kept :
      (bucket key other : String) (w : W)
      → (client.get_object bucket key (client.get_object bucket other w).1).0
        ≡ (client.get_object bucket key w).0

pub s3_storage-KeepsData :
    {W : Type 0} (client : S3Client W) (bucket : String)
    → ReadsBack client
    → KeepsData (s3_storage client bucket)
unfolding s3_storage
s3_storage-KeepsData client bucket h = record {
  got = λ key bytes type w e.
      let (u, put, last) = after-eq-ok (client.put_object bucket key bytes type w) _ e in
      ap (λ x. (client.get_object bucket key x.1).0) last
      ∙ h.read bucket key bytes type w (ap (λ x. x.0) put);
  kept = λ key other w. h.kept bucket key other w;
}
