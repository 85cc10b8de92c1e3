-- ===== src/Rocks.antt =====
-- RocksDB, which is not part of the repository: the operations that src/server/kv_worker.cc,
-- src/server/kv_request_handler.cc and src/server/server_launcher.cc call, as a record of functions.
pub mod Keys
pub mod Laws
pub mod Contents
use sqpkv.Prelude.{ℕ, Bool, List}

pub record Rocks : Type 1 where
  -- what a rocksdb::DB holds
  pub Db : Type 0
  -- rocksdb::Status, with ok(), IsNotFound() and ToString()
  pub DbStatus : Type 0
  pub status_ok : DbStatus → Bool
  pub status_not_found : DbStatus → Bool
  pub status_text : DbStatus → List ℕ
  -- db->Get(key, &value): the status, and what `value` holds afterwards if it was empty before
  pub get : Db → List ℕ → DbStatus × List ℕ
  -- db->Put(key, value), db->Delete(key)
  pub put : Db → List ℕ → List ℕ → DbStatus × Db
  pub delete : Db → List ℕ → DbStatus × Db
  -- db->NewIterator, iter->Seek, iter->Valid, iter->key, iter->Next
  pub Iter : Type 0
  pub new_iterator : Db → Iter
  pub seek : Iter → List ℕ → Iter
  pub valid : Iter → Bool
  pub key : Iter → List ℕ
  pub next : Iter → Iter
  -- slice.starts_with(prefix)
  pub starts_with : List ℕ → List ℕ → Bool
