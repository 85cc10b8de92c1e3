-- ===== src/KvRequestHandler/Serve.antt =====
-- What src/server/kv_request_handler.cc promises: the reply to a request, and the database after it.
use sqpkv.Rocks.{Rocks}
use sqpkv.Rocks.Keys.{matching}
use sqpkv.Rocks.Laws.{IterLaws}
use sqpkv.Status.{default_status, of_rocks}
use sqpkv.Packet.Wire.{Request, get, put, delete, get_all}
use sqpkv.Packet.Reply.{Reply}

module _ (R : Rocks) (L : IterLaws R) where
  -- A read leaves the database, a write takes the database that RocksDB gives, and a status that is
  -- not OK is answered as an error with RocksDB's text.
  unfoldable pub serve : Request → Rocks.Db R → Reply × Rocks.Db R
  serve (get key) db = let (s, value) = R.get db key in (Reply.get (of_rocks R s) value, db)
  serve (put key value) db = let (s, db') = R.put db key value in (Reply.put (of_rocks R s), db')
  serve (delete key) db = let (s, db') = R.delete db key in (Reply.delete (of_rocks R s), db')
  serve (get_all prefix) db = (Reply.get_all default_status (matching prefix (L.listing db)), db)
