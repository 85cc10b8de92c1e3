-- ===== src/KvRequestHandler/Store.antt =====
-- The handler of src/server/kv_request_handler.cc over a sequence of requests, against a map from keys to
-- values: what RocksDB documents of single keys is StoreLaws.
use sqpkv.Prelude.{
  append-nil, ℕ, ◌+◌, ◌≤◌, ◌<◌, ◌≡◌, refl, sym, ap, ◌∙◌, true, false, Option, none, some, List, [],
  ◌∷◌, length, map, ◌&&◌, ◌>>=◌, Option-cases, inl, inr,
}
use mathlib.Core.Path.{subst}
use sqpkv.Memory.{Block, u32_mod}
use sqpkv.Memory.Laws.{filled}
use sqpkv.Rocks.{Rocks}
use sqpkv.Rocks.Keys.{is_prefix, matching, IsOrdered}
use sqpkv.Rocks.Laws.{IterLaws}
use sqpkv.Rocks.Contents.{
  Contents, StoreLaws, set_key, has_value, occurs, occurs-matching, matching-IsOrdered,
}
use sqpkv.Status.{Status, of_rocks, is_ok, default_status}
use sqpkv.Status.Laws.{of_rocks-cases}
use sqpkv.Packet.{Packet}
use sqpkv.Packet.Factory.{create_response_packet}
use sqpkv.Packet.Wire.{Request, get, put, delete, get_all, request_wire}
use sqpkv.Packet.Reply.{Reply, reply_size, reply_wire, parsed_as}
use sqpkv.KvRequestHandler.{handle_read_completion}
use sqpkv.KvRequestHandler.Serve.{serve}
use sqpkv.KvRequestHandler.Refine.{
  Fits, handle_read_completion-serve, create_response_packet-handle,
}

-- The map after a request
pub after : Request → Contents → Contents
after (get key) m = m
after (put key value) m = set_key key (some value) m
after (delete key) m = set_key key none m
after (get_all prefix) m = m

abbrev Found : Option (List ℕ) → Status → List ℕ → Type 0
Found (some v) s value = (is_ok s ≡ true) × (value ≡ v)
Found none s value = (is_ok s ≡ false) × (value ≡ [])

-- The reply that the map has for a request: a value with OK, or no value and an error; OK for a change; the
-- keys with the prefix that have a value, each once and in order.
abbrev pub Answers : Request → Contents → Reply → Type 0
Answers (get key) m reply =
    (s : Status) × (value : List ℕ) × (reply ≡ Reply.get s value) × Found (m key) s value
Answers (put key value) m reply = (s : Status) × (reply ≡ Reply.put s) × (is_ok s ≡ true)
Answers (delete key) m reply = (s : Status) × (reply ≡ Reply.delete s) × (is_ok s ≡ true)
Answers (get_all prefix) m reply =
    (keys : List (List ℕ)) × (reply ≡ Reply.get_all default_status keys)
    × IsOrdered keys
    × ((k : List ℕ) → occurs k keys ≡ is_prefix prefix k && has_value (m k))

-- Each buffer is parsed as a response packet with the map's reply.
pub Replies : List Request → Contents → List Block → Type 0
Replies [] m outs = outs ≡ []
Replies (r ∷ rs) m [] = ⊥
Replies (r ∷ rs) m (out ∷ outs) =
    (p : Packet) × (reply : Reply) × (create_response_packet out ≡ some (some (parsed_as p reply)))
    × Answers r m reply
    × Replies rs (after r m) outs

pub after_all : List Request → Contents → Contents
after_all [] m = m
after_all (r ∷ rs) m = after_all rs (after r m)

module _ (R : Rocks) where
  -- HandleReadCompletion on input buffers that come one after the other, with one output buffer: what stands in
  -- it after each of them, and the database at the end.
  pub handle_all : ℕ → List Block → Block → Rocks.Db R → Option (List Block × Rocks.Db R)
  handle_all fuel [] out db = some ([], db)
  handle_all fuel (in_buffer ∷ in_buffers) out db = do
    handled ← handle_read_completion R fuel in_buffer out db
    (outs, db') ← handle_all fuel in_buffers handled.out handled.db
    some (handled.out ∷ outs, db')

module _ (R : Rocks) (L : IterLaws R) where
  -- The fuel covers the keys, the requests and the replies fit a uint32_t, and the output buffer has room.
  unfoldable pub HasRoom : ℕ → List Request → Block → Rocks.Db R → Type 0
  HasRoom fuel [] out db = Unit
  HasRoom fuel (r ∷ rs) out db =
      (length (L.listing db) < fuel)
      × (length (request_wire r) < u32_mod)
      × Fits R L (serve R L r db).0 out
      × (4 + reply_size (serve R L r db).0 ≤ length out)
      × HasRoom fuel rs (filled (reply_wire (serve R L r db).0) out) (serve R L r db).1

module _ (R : Rocks) (L : IterLaws R) (T : StoreLaws R L) where
  found :
      (key : List ℕ) (db : Rocks.Db R)
      → Found (T.contents db key) (of_rocks R (R.get db key).0) (R.get db key).1
  found key db = elim (Option-cases (T.contents db key)) [
    | inl e ↦
        let (bad, nothing) = T.get-missing db key e in
        rw e ((of_rocks-cases R (R.get db key).0).0 ∙ bad, nothing)
    | inr (v, e) ↦
        let (good, value) = T.get-found db key v e in
        rw e ((of_rocks-cases R (R.get db key).0).0 ∙ good, value)
  ]

  serve-Answers : (r : Request) (db : Rocks.Db R) → Answers r (T.contents db) (serve R L r db).0
  unfolding serve
  serve-Answers (get key) db = (of_rocks R (R.get db key).0, (R.get db key).1, refl, found key db)
  serve-Answers (put key value) db = (
    of_rocks R (R.put db key value).0,
    refl,
    (of_rocks-cases R (R.put db key value).0).0 ∙ T.put_ok db key value,
  )
  serve-Answers (delete key) db = (
    of_rocks R (R.delete db key).0,
    refl,
    (of_rocks-cases R (R.delete db key).0).0 ∙ T.delete_ok db key,
  )
  serve-Answers (get_all prefix) db = (
    matching prefix (L.listing db),
    refl,
    matching-IsOrdered prefix (L.listing db) (L.listing-IsOrdered db),
    λ k.
        occurs-matching prefix k (L.listing db)
        ∙ ap (λ b. is_prefix prefix k && b) (T.listing-contents db k),
  )

  contents-serve :
      (r : Request) (db : Rocks.Db R) → T.contents (serve R L r db).1 ≡ after r (T.contents db)
  unfolding serve after
  contents-serve (get key) db = refl
  contents-serve (put key value) db = λ i. λ k. T.contents-put db key value k i
  contents-serve (delete key) db = λ i. λ k. T.contents-delete db key k i
  contents-serve (get_all prefix) db = refl

  -- For a database without errors, requests in the packet format that come one after the other are all answered,
  -- each with the reply that a map from keys to values has for it, as the client's factory parses it, and the
  -- database holds in the end what the map holds. (There is fuel and room for each of them.)
  pub handle_all-Replies :
      (fuel : ℕ) (rs : List Request) (out : Block) (db : Rocks.Db R)
      → HasRoom R L fuel rs out db
      → (outs : List Block) × (db' : Rocks.Db R) × (handle_all R fuel (map request_wire rs) out db
          ≡ some (outs, db'))
        × Replies rs (T.contents db) outs
        × (T.contents db' ≡ after_all rs (T.contents db))
  unfolding handle_all HasRoom Replies after_all
  handle_all-Replies fuel [] out db h = ([], db, refl, refl, refl)
  handle_all-Replies fuel (r ∷ rs) out db (enough, small, fits, covered, later) =
      let reply = (serve R L r db).0 in
      let db1 = (serve R L r db).1 in
      let (outs, db', all, replies, at_end) =
        handle_all-Replies fuel rs (filled (reply_wire reply) out) db1 later in
      let served = handle_read_completion-serve R L fuel r [] out db enough small fits in
      let handled : handle_read_completion R fuel (request_wire r) out db ≡ some _ =
        ap (λ t. handle_read_completion R fuel t out db) (sym (append-nil (request_wire r)))
        ∙ served in
      let read = create_response_packet-handle R L fuel r [] out db enough small fits covered in
      (
        filled (reply_wire reply) out ∷ outs,
        db',
        rw handled (rw all refl),
        (
          _,
          reply,
          rw served at read,
          serve-Answers r db,
          subst (λ m. Replies rs m outs) (contents-serve r db) replies,
        ),
        at_end ∙ ap (after_all rs) (contents-serve r db),
      )
