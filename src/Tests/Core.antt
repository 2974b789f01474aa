-- ===== src/Tests/Core.antt =====
-- Instances of the theorems about the store, its limit reader and its lifecycle.
use go_storage.Prelude.{
  ℕ, ◌≡◌, ◌⊎◌, ◌≤◌, refl, inl, inr, true, false, ◌&&◌, Option, none, some, List, [], ◌∷◌, take,
  arith,
}
use go_storage.Prelude.Int.{pos}
use go_storage.Errors.{
  GoError, Sentinel, sentinel, not_ready, classified, eof, canceled, unavailable, down, too_large,
  is, is_some, is_refl,
}
use go_storage.Stream.{IsStream, bytes_reader, bytes_reader-IsStream, read_all, finished}
use go_storage.LimitReader.{LimitReader, new_limit_reader, limit_reader}
use go_storage.LimitReader.Refinement.{
  LimitHolds, LimitEnded, limit_content, limit_final, limit_end, trips, limit_reader-IsStream,
}
use go_storage.LimitReader.Refinement.Fresh.{read_all-limit_reader}
use go_storage.Storage.{no_object}
use go_storage.Store.{put, start_failure, bounded_result, over_bound}
use go_storage.Store.Put.{StorePut, put_all_or_nothing}
use go_storage.Store.Failure.{start_failure_done, start_failure_live, bounded_result_matches}
use go_storage.Lifecycle.{Pc, start, shutdown, closing, probing, start_returned, System, run}
use go_storage.Lifecycle.Safety.{fresh, nil_starts, run_safe, run_after_shutdown}
use go_storage.Lifecycle.Alone.{schedule, start_result, start_alone}
use go_storage.Fake.{fake_client}
use go_storage.Fake.Contract.{contents_at, fake-PutContract}
use go_storage.Tests.{toy_digest, caps, background, small_store, empty_fake, key_a}
use go_storage.Storage.Contract.{undeclared}

-- A body of two bytes.
abbrev body : List ℕ
body = 1 ∷ 2 ∷ []

put_all_or_nothing_example :
    StorePut
      (fake_client toy_digest 9 caps)
      contents_at
      small_store
      key_a
      undeclared
      body
      (sentinel eof)
      empty_fake
      (put
        (fake_client toy_digest 9 caps)
        bytes_reader
        background
        key_a
        undeclared
        small_store
        body
        empty_fake).1
      (put
        (fake_client toy_digest 9 caps)
        bytes_reader
        background
        key_a
        undeclared
        small_store
        body
        empty_fake).3
put_all_or_nothing_example =
    put_all_or_nothing (fake-PutContract toy_digest 9 caps) bytes_reader-IsStream small_store
      background key_a undeclared body empty_fake tt

-- Two Starts and a Shutdown, in an order in which the second Start commits before the Shutdown.
abbrev crowd : List Pc
crowd = start ∷ start ∷ shutdown ∷ []

abbrev crossing : List (ℕ × Option GoError)
crossing =
    (0, none)
    ∷ (1, none)
    ∷ (1, none)
    ∷ (1, none)
    ∷ (1, none)
    ∷ (1, none)
    ∷ (2, none)
    ∷ (2, none)
    ∷ (0, none)
    ∷ (0, none)
    ∷ []

run_safe_example :
    let s = run true crossing (fresh crowd) in
    ((s.flags.started && s.flags.shut) ≡ false)
    × ((s.flags.started ≡ false) ⊎ (1 ≤ nil_starts s.threads))
    × (s.flags.closes ≤ 1)
run_safe_example = run_safe true crowd crossing (inl refl, (inl refl, (inr refl, tt)))

-- A store that was shut while a Start was in its Probe.
abbrev shut_midway : System
shut_midway = record {
  flags = record { started = false; shut = true; closes = 0 };
  threads = probing ∷ closing ∷ [];
}

run_after_shutdown_example :
    let t = run true ((0, none) ∷ (0, none) ∷ (1, none) ∷ []) shut_midway in
    (t.flags.shut ≡ true)
    × (t.flags.started ≡ false)
    × (nil_starts t.threads ≡ nil_starts shut_midway.threads)
run_after_shutdown_example =
    run_after_shutdown true shut_midway ((0, none) ∷ (0, none) ∷ (1, none) ∷ []) refl refl

limit_reader-IsStream_example :
    IsStream
      (limit_reader bytes_reader)
      (LimitHolds (λ s. s) (λ s. sentinel eof) (λ s. Unit {0}) true)
      (LimitEnded (λ s. s) (λ s. sentinel eof) (λ s. s ≡ []) true)
      (limit_content (λ s. s) (λ s. sentinel eof))
      (limit_final (λ s. s) (λ s. sentinel eof))
limit_reader-IsStream_example =
    limit_reader-IsStream (λ s. s) (λ s. sentinel eof) true bytes_reader-IsStream

read_all-limit_reader_example :
    (l : LimitReader (List ℕ)) × (read_all
        (limit_reader bytes_reader)
        9
        []
        (new_limit_reader body 1 false (over_bound (pos 1)))
      ≡ finished
          (limit_reader bytes_reader)
          (take 1 body)
          (limit_end 2 1 false (over_bound (pos 1)) (sentinel eof))
          l)
    × (l.tripped ≡ trips 2 1 false (sentinel eof))
read_all-limit_reader_example =
    read_all-limit_reader (λ s. s) (λ s. sentinel eof) body 1 false (over_bound (pos 1))
      bytes_reader-IsStream 9 tt (omega arith)

start_failure_done_example :
    let x =
      start_failure false (some (sentinel canceled)) (classified unavailable (sentinel down)) in
    (is x (sentinel canceled) ≡ true)
    × (false ≡ true → is x (sentinel not_ready) ≡ true)
    × (is x (sentinel unavailable) ≡ false)
start_failure_done_example =
    start_failure_done false (sentinel canceled) (classified unavailable (sentinel down)) (inl refl)

start_failure_live_example :
    let x = start_failure true none (sentinel down) in
    (is x (sentinel unavailable) ≡ false)
    × (true ≡ false → is x (sentinel down) ≡ true)
    × ((s : Sentinel) → true ≡ true → is x (sentinel s) ≡ true → s ≡ not_ready)
    × (true ≡ true → is x (sentinel not_ready) ≡ true)
start_failure_live_example =
    start_failure_live true (sentinel down) (sentinel down) (is_refl (sentinel down))

-- A bounded reader of at most one byte that has tripped.
abbrev tripped_reader : LimitReader (List ℕ)
tripped_reader = record {
  source = [];
  limit = 1;
  read = 1;
  exact = false;
  long = over_bound (pos 1);
  err = some (over_bound (pos 1));
  tripped = true;
}

bounded_result_matches_example :
    (is_some (bounded_result tripped_reader no_object (some (sentinel down))).1 (sentinel too_large)
      ≡ true)
    × (is_some
          (bounded_result tripped_reader no_object (some (sentinel down))).1
          (over_bound (pos 1))
        ≡ true)
    × (is_some (bounded_result tripped_reader no_object (some (sentinel down))).1 (sentinel down)
        ≡ true)
bounded_result_matches_example =
    bounded_result_matches tripped_reader no_object (over_bound (pos 1)) refl refl (sentinel down)
      (sentinel down) (is_refl (sentinel down))

start_alone_example :
    run true (schedule none (some (sentinel down)) none) (record {
      flags = record { started = false; shut = false; closes = 0 };
      threads = start ∷ [];
    })
    ≡ record {
      flags = record { started = false; shut = false; closes = 0 };
      threads = start_returned (start_result none (some (sentinel down)) none) ∷ [];
    }
start_alone_example =
    start_alone true (record { started = false; shut = false; closes = 0 }) none
      (some (sentinel down)) none refl
