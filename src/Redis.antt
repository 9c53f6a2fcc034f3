-- ===== src/Redis.antt =====
-- Redis behind its client (ioredis), which apps/api/src/modules/redis/redis.service.ts calls and does
-- not implement. The laws are the documented effects of the commands, written down as `applied`; that
-- a rejected command changes no key is assumed. Times are in seconds.
pub mod Keys
pub use Keys.*
use edu_lanka.Prelude.{
  ℕ, ◌+◌, String, ◌≡◌, Bool, true, false, not, Option, none, some, List, [], ◌∷◌, select, any, ltb,
  str_eq, if◌then◌else◌,
}
use edu_lanka.Postgrest.{Reply, found, failed}

-- A key of the service holds values of one kind: texts, a number in decimal digits, or a set.
pub data Value : Type 0 where
  text : String → Value
  number : ℕ → Value
  members : List String → Value

-- A value, and when it expires.
pub data Entry : Type 0 where
  entry : Value → Option ℕ → Entry

abbrev pub Keyspace : Type 0
Keyspace = Key → Option Entry

pub data Command : Type 0 where
  -- SET k v EX ttl
  set_ex : Key → Value → ℕ → Command
  sadd srem : Key → String → Command
  expire : Key → ℕ → Command
  del : List Key → Command

abbrev pub has_time : ℕ → Option ℕ → Bool
has_time now none = true
has_time now (some e) = ltb now e

abbrev pub live_entry : ℕ → Option Entry → Option Entry
live_entry now none = none
live_entry now (some (entry v e)) = if has_time now e then some (entry v e) else none

abbrev pub value_of : Option Entry → Option Value
value_of none = none
value_of (some (entry v e)) = some v

-- What a read finds.
abbrev pub live : ℕ → Option Entry → Option Value
live now e = value_of (live_entry now e)

abbrev pub with_member : String → List String → List String
with_member m ms = if any (str_eq m) ms then ms else m ∷ ms

-- A set that has become empty is deleted.
abbrev pub as_set : Option ℕ → List String → Option Entry
as_set e [] = none
as_set e (m ∷ ms) = some (entry (members (m ∷ ms)) e)

-- A command on a value of another kind is refused, and changes nothing.
abbrev pub added : String → Option Entry → Option Entry
added m none = some (entry (members (m ∷ [])) none)
added m (some (entry (members ms) e)) = some (entry (members (with_member m ms)) e)
added m (some (entry (text s) e)) = some (entry (text s) e)
added m (some (entry (number n) e)) = some (entry (number n) e)

abbrev pub removed : String → Option Entry → Option Entry
removed m none = none
removed m (some (entry (members ms) e)) = as_set e (select (λ x. not (str_eq x m)) ms)
removed m (some (entry (text s) e)) = some (entry (text s) e)
removed m (some (entry (number n) e)) = some (entry (number n) e)

abbrev pub lasting : ℕ → Option Entry → Option Entry
lasting until none = none
lasting until (some (entry v e)) = some (entry v (some until))

abbrev pub applied : ℕ → Command → Keyspace → Keyspace
applied now (set_ex k v ttl) E j = if key_eq k j then some (entry v (some (now + ttl))) else E j
applied now (sadd k m) E j = if key_eq k j then added m (live_entry now (E k)) else E j
applied now (srem k m) E j = if key_eq k j then removed m (live_entry now (E k)) else E j
applied now (expire k ttl) E j =
    if key_eq k j then lasting (now + ttl) (live_entry now (E k)) else E j
applied now (del ks) E j = if any (λ k. key_eq k j) ks then none else E j

abbrev pub applied_all : ℕ → List Command → Keyspace → Keyspace
applied_all now [] E = E
applied_all now (c ∷ cs) E = applied_all now cs (applied now c E)

-- INCR: a missing counter is 0, and the expiry stays.
abbrev pub count_of : Option Value → ℕ
count_of (some (number n)) = n
count_of _ = 0

abbrev pub expiry_of : Option Entry → Option ℕ
expiry_of none = none
expiry_of (some (entry v e)) = e

abbrev pub incremented : ℕ → Key → Keyspace → Keyspace
incremented now k E j =
    if key_eq k j
    then some (entry (number (count_of (live now (E k)) + 1)) (expiry_of (live_entry now (E k))))
    else E j

pub record Redis : Type 1 where
  pub Db : Type 0
  pub entries : Db → Keyspace
  -- A command at a time: whether it was answered.
  pub exec : ℕ → Command → Db → Bool × Db
  pub exec_true :
      (now : ℕ) (c : Command) (db : Db)
      → (exec now c db).0 ≡ true
      → entries (exec now c db).1 ≡ applied now c (entries db)
  pub exec_false :
      (now : ℕ) (c : Command) (db : Db)
      → (exec now c db).0 ≡ false
      → entries (exec now c db).1 ≡ entries db
  -- GET, EXISTS and SMEMBERS.
  pub read : ℕ → Key → Db → Reply (Option Value)
  pub read_found :
      (now : ℕ) (k : Key) (db : Db) (v : Option Value)
      → read now k db ≡ found v
      → v ≡ live now (entries db k)
  -- INCR: the new count.
  pub incr : ℕ → Key → Db → Reply ℕ × Db
  pub incr_found :
      (now : ℕ) (k : Key) (db : Db) (n : ℕ)
      → (incr now k db).0 ≡ found n
      → (n ≡ count_of (live now (entries db k)) + 1)
        × (entries (incr now k db).1 ≡ incremented now k (entries db))
  pub incr_failed :
      (now : ℕ) (k : Key) (db : Db)
      → (incr now k db).0 ≡ failed
      → entries (incr now k db).1 ≡ entries db
