-- ===== src/Tests/Budgets.antt =====
-- A replica of the small Redis with no room for another request.
use mathlib.Core.List.{lookup}
use native.Mathlib.Decide.{ℕ_discrete}
use fizzbuzz.Prelude.{ℕ, ◌+◌, ◌≤◌, ◌<◌, ◌≡◌, refl, true, List, [], ◌∷◌, arith, length, two_63}
use fizzbuzz.GoLib.Decimal.{format, format_int}
use fizzbuzz.GoLib.Json.{marshal}
use fizzbuzz.GoLib.Utf8.{rune_size}
use fizzbuzz.Sequence.Params.{Params-discrete}
use fizzbuzz.Stats.Maps.{store}
use fizzbuzz.RedisStore.{
  RedisStore, new_redis_store, memory_cost, member_of, used_key, items_of, record_entry,
  record_pending, batch_used, flush_script, seq_key_of,
}
use fizzbuzz.RedisStore.Script.{is_saturated}
use fizzbuzz.RedisStore.System.{Event, hit, step_replica, step, run, start}
use fizzbuzz.RedisStore.Accounts.{Fits}
use fizzbuzz.RedisStore.Accounts.Run.{flush_script-run}
use fizzbuzz.RedisStore.Costs.{known_cost, batch_with}
use fizzbuzz.Redis.{or_zero}
use fizzbuzz.Tests.Data.{fizz, every}
use fizzbuzz.Tests.Keyspaces.{db_commands, db_view, empty_db, find, db_commands-IsRedis}
use fizzbuzz.Tests.Sharing.{letter, fresh}

-- A replica with one request and no room for another.
abbrev full_replica : RedisStore
full_replica = record (new_redis_store (letter 1) 200) {
  pending = (every, record { n = 1; sent = 0 }) ∷ [];
  used_bytes = 128 + length every.str1 + length every.str2;
}

full-Exceeded : (record_pending full_replica fizz).1 ≡ true
unfolding new_redis_store record_pending record_entry lookup memory_cost Params-discrete ℕ_discrete
full-Exceeded = refl

-- It comes from the start by one event.
abbrev one_every : List (ℕ × Event)
one_every = (1, hit every) ∷ []

full-run :
    full_replica ≡ ((run db_commands 2 (start empty_db letter 200) one_every).replicas 1).store
unfolding new_redis_store run step step_replica start record_pending record_entry lookup store
    memory_cost
full-run = refl

every-Fits : Fits 200 every
unfolding member_of format format_int marshal rune_size
every-Fits = omega arith

fizz-Fits : Fits 200 fizz
unfolding member_of format format_int marshal rune_size
fizz-Fits = omega arith

full-known :
    known_cost db_commands empty_db (batch_with full_replica fizz 1).items
    ≤ or_zero (db_commands.get empty_db used_key)
unfolding new_redis_store known_cost store items_of db_commands db_view find Params-discrete
    ℕ_discrete
full-known = omega arith

full-used :
    batch_used db_commands empty_db
      (batch_with full_replica fizz 1).items
      (or_zero (db_commands.get empty_db used_key))
    < two_63
unfolding new_redis_store batch_used store items_of member_of format format_int marshal rune_size
    db_commands db_view find Params-discrete ℕ_discrete
full-used = omega arith

flush_script-run_example :
    ((flush_script db_commands (seq_key_of (letter 1)) (batch_with full_replica fizz 1) empty_db).1
      ≡ 2)
    × (is_saturated db_view
          (flush_script db_commands
            (seq_key_of (letter 1))
            (batch_with full_replica fizz 1)
            empty_db).0
        ≡ true)
unfolding db_view
flush_script-run_example =
    flush_script-run db_commands db_view db_commands-IsRedis 200 (omega arith) 2 empty_db letter
      one_every (every-Fits, tt) 1 (omega arith) full_replica full-run fizz fizz-Fits full-Exceeded
      (letter 1) empty_db 1 full-known full-used refl (omega (arith, fresh 1))
