-- ===== src/Providers/Storage.antt =====
-- What a storage promises: at any time, what was last put under a key and not deleted since.
use whatsapp_automatic_plann.Prelude.{
  ◌≡◌, refl, ap, Bool, not, String, String-discrete, ◌<>◌, Option, none, some, List, [], ◌∷◌, arith,
  is_none, ◌==◌, if◌then◌else◌,
}
use whatsapp_automatic_plann.Prelude.Dict.{
  lookup, insert, erase, NodupKeys, lookup-insert, lookup-erase_self, lookup-erase_ne,
  insert-NodupKeys, erase-NodupKeys, lookup-nil,
}
use whatsapp_automatic_plann.Errors.{Result, ok, err, key_error, and_then}
use whatsapp_automatic_plann.Providers.{Bytes}
use whatsapp_automatic_plann.Providers.Fakes.{
  InMemoryStorage, put, get, content_type, exists, delete,
}

pub data Operation : Type 0 where
  put_op : String → Bytes → String → Operation
  get_op content_type_op exists_op delete_op : String → Operation

pub data Reply : Type 0 where
  reference kind : String → Reply
  content : Bytes → Reply
  found : Bool → Reply
  done : Reply

abbrev replied :
    {A : Type 0} → (A → Reply) → Result A × InMemoryStorage → Result Reply × InMemoryStorage
replied f (r, s) = (and_then r (λ a. ok (f a)), s)

-- One operation of `InMemoryStorage`.
unfoldable pub perform : Operation → InMemoryStorage → Result Reply × InMemoryStorage
unfolding put get content_type exists delete
perform (put_op key bytes type) s = replied reference (put key bytes type s)
perform (get_op key) s = replied content (get key s)
perform (content_type_op key) s = replied kind (content_type key s)
perform (exists_op key) s = replied found (exists key s)
perform (delete_op key) s = replied (λ _. done) (delete key s)

unfoldable pub run : List Operation → InMemoryStorage → List (Result Reply)
unfolding perform
run [] s = []
run (op ∷ ops) s = let (r, s') = perform op s in r ∷ run ops s'

-- The abstract store: what each key holds.
abbrev pub Contents : Type 0
Contents = String → Option (Bytes × String)

abbrev pub update : String → Option (Bytes × String) → Contents → Contents
update key o m k = if k == key then o else m k

abbrev pub or_key_error : Option (Bytes × String) → (Bytes × String → Reply) → Result Reply
or_key_error none f = err key_error
or_key_error (some x) f = ok (f x)

-- What an operation answers and leaves, in terms of the contents alone.
abbrev pub promised : Operation → Contents → Result Reply × Contents
promised (put_op key bytes type) m =
    (ok (reference ("memory://" <> key)), update key (some (bytes, type)) m)
promised (get_op key) m = (or_key_error (m key) (λ (bytes, _). content bytes), m)
promised (content_type_op key) m = (or_key_error (m key) (λ (_, type). kind type), m)
promised (exists_op key) m = (ok (found (not (is_none (m key)))), m)
promised (delete_op key) m = (ok done, update key none m)

abbrev pub run_promised : List Operation → Contents → List (Result Reply)
run_promised [] m = []
run_promised (op ∷ ops) m = let (r, m') = promised op m in r ∷ run_promised ops m'

-- The dict holds exactly the contents, each key once.
record Holds (s : InMemoryStorage) (m : Contents) : Type 0 where
  unique : NodupKeys s
  same : (k : String) → lookup k s ≡ m k

erase-update :
    (key : String) (s : InMemoryStorage) (m : Contents)
    → Holds s m
    → Holds (erase key s) (update key none m)
erase-update key s m h = record {
  unique = erase-NodupKeys key s h.unique;
  same = λ k. ground (
    arith,
    h.same k,
    lookup-erase_self key s h.unique,
    lookup-erase_ne k key s,
    String-discrete k key,
  );
}

insert-update :
    (key : String) (v : Bytes × String) (s : InMemoryStorage) (m : Contents)
    → Holds s m
    → Holds (insert key v s) (update key (some v) m)
insert-update key v s m h = record {
  unique = insert-NodupKeys key v s h.unique;
  same = λ k. ground (arith, lookup-insert k key v s, h.same k);
}

-- One step of the dict is one step of its contents.
perform-promised :
    (op : Operation) (s : InMemoryStorage) (m : Contents)
    → Holds s m
    → ((perform op s).0 ≡ (promised op m).0) × Holds (perform op s).1 (promised op m).1
unfolding perform
perform-promised (put_op key bytes type) s m h = (refl, insert-update key (bytes, type) s m h)
perform-promised (get_op key) s m h = ground (arith, h.same key)
perform-promised (content_type_op key) s m h = ground (arith, h.same key)
perform-promised (exists_op key) s m h = ground (arith, h.same key)
perform-promised (delete_op key) s m h = (refl, erase-update key s m h)

run-promised :
    (ops : List Operation) (s : InMemoryStorage) (m : Contents)
    → Holds s m
    → run ops s ≡ run_promised ops m
unfolding run
run-promised [] s m h = refl
run-promised (op ∷ ops) s m h =
    let (e, h') = perform-promised op s m h in
    rw e
      (ap (λ rs. (promised op m).0 ∷ rs) (run-promised ops (perform op s).1 (promised op m).1 h'))

-- Whatever operations come, in whatever order, the storage in memory answers each of them from what
-- was last put under its key and not deleted since, and with a `KeyError` if there is nothing.
pub run-run_promised : (ops : List Operation) → run ops [] ≡ run_promised ops (λ _. none)
run-run_promised ops = run-promised ops [] (λ _. none) (record { unique = tt; same = lookup-nil })
