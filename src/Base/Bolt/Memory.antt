-- ===== src/Base/Bolt/Memory.antt =====
-- A database of one bucket in memory, which does not fail, for runs of the code that uses a database.
use skywire_mainnet_old.Base.Tests.{list_eq, nat_eq}
use skywire_mainnet_old.Base.Results.{Outcome, ok, err, panic}
use skywire_mainnet_old.Base.Maps.{Map, lookup, insert, remove, lookup-insert, lookup-remove}
use skywire_mainnet_old.Base.Lists.{length}
use skywire_mainnet_old.Base.ByteSlice.{Bytes}
use skywire_mainnet_old.Base.Bolt.{Bolt, IsBolt}
use Prim.Native.Nat.{ℕ, ◌+◌}
use mathlib.Core.Path.{refl, ap}
use mathlib.Core.Logic.{inl}

pub record Memory : Type 0 where
  pub counter : ℕ
  pub held : Map Bytes Bytes

abbrev roll_back : {A : Type 0} → Memory → Memory × Outcome A → Memory × Outcome A
roll_back b (b', ok a) = (b', ok a)
roll_back b (b', err e) = (b, err e)
roll_back b (b', panic) = (b, panic)

abbrev pub memory : Bolt Memory
memory = record {
  get = λ k b. lookup k b.held;
  put = λ k v b. (record b { held = insert k v b.held }, ok tt);
  delete = λ k b. (record b { held = remove k b.held }, ok tt);
  next_sequence = λ b. (record b { counter = b.counter + 1 }, ok (b.counter + 1));
  entries = λ b. b.held;
  key_n = λ b. length b.held;
  update = λ f b. roll_back b (f b);
  view = λ f b. f b;
}

pub memory-IsBolt : IsBolt memory (λ b. b.counter) (λ e. ⊥)
memory-IsBolt = record {
  put_tries = λ k v b. inl (_, tt, refl, ((λ j. lookup-insert k j v b.held), refl));
  delete_tries = λ k b. inl (_, tt, refl, ((λ j. lookup-remove k j b.held), refl));
  next_tries = λ b. inl (_, _, refl, (refl, refl, λ j. refl));
  commits = λ f b b' a done. inl (ap (roll_back b) done);
  rolls_back = λ f b b' e done. ap (roll_back b) done;
  views = λ f b. inl refl;
}
