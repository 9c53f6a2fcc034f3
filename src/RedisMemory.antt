-- ===== src/RedisMemory.antt =====
-- A Redis held in memory that answers every command: an instance of the interface of Redis.antt, on
-- which the services run in the tests.
use edu_lanka.Prelude.{◌+◌, refl, true, false, none, ◌≡◌}
use edu_lanka.Postgrest.{found}
use edu_lanka.PostgrestMemory.{found-injective, found-ne-failed}
use edu_lanka.Redis.{Redis, Keyspace, applied, live, count_of, incremented}

pub true-ne-false : {P : Type 0} → true ≡ false → P
true-ne-false h = cc

abbrev pub memory_redis : Redis
memory_redis = record {
  Db = Keyspace;
  entries = λ E. E;
  exec = λ now c E. (true, applied now c E);
  exec_true = λ now c E h. refl;
  exec_false = λ now c E h. true-ne-false h;
  read = λ now k E. found (live now (E k));
  read_found = λ now k E v h. found-injective h;
  incr = λ now k E. (found (count_of (live now (E k)) + 1), incremented now k E);
  incr_found = λ now k E n h. (found-injective h, refl);
  incr_failed = λ now k E h. found-ne-failed h;
}

abbrev pub empty_redis : Keyspace
empty_redis k = none
