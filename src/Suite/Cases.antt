-- ===== src/Suite/Cases.antt =====
-- The cases of storagetest/suite.go that put one body and read it back, each with the key, the body
-- and the options that it puts, over the Fake.
use go_storage.Prelude.{
  ℕ, ◌<◌, ◌≡◌, ◌≢◌, refl, Option, none, some, List, [], ◌∷◌, ◌++◌, length, arith,
}
use go_storage.Prelude.Int.{pos, pos_part}
use go_storage.Prelude.Text.{Text, codes, is_empty}
use go_storage.Errors.{GoError, sentinel, eof}
use go_storage.Stream.{Reader, IsStream, bytes_reader, bytes_reader-IsStream}
use go_storage.Storage.{Capabilities, Context, Client, PutOptions}
use go_storage.Fake.{Fake, gate, object_of, size_mismatch, fake_client}
use go_storage.Suite.{Test, check_content}
use go_storage.Suite.Passes.{close_bytes, check_content_passes}

module _ {W B : Type 0} (c : Client W B) (ctx : Context W) (body : Reader B)
    (close : B → W → Option GoError × W) (fuel : ℕ) where
  unfoldable pub check_round_trip : Text → Test W (Unit {0})
  check_round_trip prefix =
      let content = codes "hello, storage" in
      let opts : PutOptions = record {
        content_type = codes "text/plain";
        size = pos (length content);
      } in
      check_content c ctx body close fuel bytes_reader (prefix ++ codes "hello.txt") opts content
        content (codes "text/plain")

  unfoldable pub check_empty_body : Text → Test W (Unit {0})
  check_empty_body prefix =
      let opts : PutOptions = record { content_type = codes "text/plain"; size = pos 0 } in
      check_content c ctx body close fuel bytes_reader (prefix ++ codes "empty") opts [] []
        (codes "text/plain")

  unfoldable pub check_put_declared_size : Text → Test W (Unit {0})
  check_put_declared_size prefix =
      let content = codes "a body whose length the caller declared" in
      let opts : PutOptions = record { content_type = []; size = pos (length content) } in
      check_content c ctx body close fuel bytes_reader (prefix ++ codes "declared") opts content
        content (codes "application/octet-stream")

  unfoldable pub check_put_unknown_size : Text → Test W (Unit {0})
  check_put_unknown_size prefix =
      let content = codes "a body whose length the caller did not declare" in
      let opts : PutOptions = record { content_type = []; size = pos 0 } in
      check_content c ctx body close fuel bytes_reader (prefix ++ codes "unknown") opts content
        content (codes "application/octet-stream")

  -- `content` is what largeBody returns, which math/rand makes.
  unfoldable pub check_large_body : List ℕ → Text → Test W (Unit {0})
  check_large_body content prefix =
      let opts : PutOptions = record {
        content_type = codes "application/octet-stream";
        size = pos (length content);
      } in
      check_content c ctx body close fuel bytes_reader (prefix ++ codes "large.bin") opts content
        content (codes "application/octet-stream")

  -- `content` is the first half of it; `readOnly` passes the reads on.
  unfoldable pub check_put_non_seekable_body : List ℕ → Text → Test W (Unit {0})
  check_put_non_seekable_body content prefix =
      let opts : PutOptions = record {
        content_type = codes "application/octet-stream";
        size = pos 0;
      } in
      check_content c ctx body close fuel bytes_reader (prefix ++ codes "non-seekable") opts content
        content (codes "application/octet-stream")

  -- `s` reads what iotest.OneByteReader makes of the content.
  unfoldable pub check_put_one_byte_reads : {S : Type 0} → Reader S → S → Text → Test W (Unit {0})
  check_put_one_byte_reads r s prefix =
      let opts : PutOptions = record { content_type = []; size = pos 0 } in
      check_content c ctx body close fuel r (prefix ++ codes "one-byte-reads") opts s
        (codes "delivered one byte per Read") (codes "application/octet-stream")

-- A declared size that is the body's.
own_size : (n : ℕ) → size_mismatch n n ≡ none
unfolding size_mismatch
own_size n = ground arith

no_size : (n : ℕ) → size_mismatch n 0 ≡ none
unfolding size_mismatch
no_size n = ground arith

-- A case passes over a Fake, and notes one key for the cleanup.
abbrev Passes : Test Fake (Unit {0}) → Text → Fake → Type 0
Passes t key f = (g : Fake) × (t (f, []) ≡ (some tt, [], (g, key ∷ [])))

module _ (digest : List ℕ → Text) (fuel : ℕ) (caps : Capabilities) (ctx : Context Fake)
    (prefix : Text) (f : Fake) where
  content_case :
      {S : Type 0} {r : Reader S} {Holds Ended : S → Type 0} {content : S → List ℕ}
      {final : S → GoError} (stream : IsStream r Holds Ended content final) (key : Text)
      (opts : PutOptions) (s : S) (kind : Text)
      → Holds s
      → final s ≡ sentinel eof
      → length (content s) < fuel
      → gate f ≡ none
      → f.put_err ≡ none
      → size_mismatch (length (content s)) (pos_part opts.size) ≡ none
      → f.now.instant ≢ 0
      → (object_of digest key opts (content s) f.now).meta.content_type ≡ kind
      → Passes
          (check_content
            (fake_client digest fuel caps)
            ctx
            bytes_reader
            close_bytes
            fuel
            r
            key
            opts
            s
            (content s)
            kind)
          key
          f
  content_case stream key opts s kind h ends lt up accepts fits set as_kind = rw (← as_kind) (
    _,
    check_content_passes digest fuel caps ctx key stream opts f [] s h ends lt up accepts fits set,
  )

  -- checkRoundTrip, checkEmptyBody, checkPutDeclaredSize, checkPutUnknownSize, checkLargeBody,
  -- checkPutNonSeekableBody and, over any stream that gives its content and io.EOF,
  -- checkPutOneByteReads pass over a Fake that is up, has its container and takes the Put, with
  -- fuel above 46 and above the lengths of the large bodies, where the Fake's clock is not at the
  -- zero time: no failure is reported, and the key is noted for the cleanup.
  pub content_cases :
      {S : Type 0} {r : Reader S} {Holds Ended : S → Type 0} {content : S → List ℕ}
      {final : S → GoError} (stream : IsStream r Holds Ended content final) (s : S)
      (large half : List ℕ)
      → Holds s
      → final s ≡ sentinel eof
      → content s ≡ codes "delivered one byte per Read"
      → length large < fuel
      → length half < fuel
      → 46 < fuel
      → gate f ≡ none
      → f.put_err ≡ none
      → f.now.instant ≢ 0
      → let c = fake_client digest fuel caps in
        Passes
          (check_round_trip c ctx bytes_reader close_bytes fuel prefix)
          (prefix ++ codes "hello.txt")
          f
        × Passes
            (check_empty_body c ctx bytes_reader close_bytes fuel prefix)
            (prefix ++ codes "empty")
            f
        × Passes
            (check_put_declared_size c ctx bytes_reader close_bytes fuel prefix)
            (prefix ++ codes "declared")
            f
        × Passes
            (check_put_unknown_size c ctx bytes_reader close_bytes fuel prefix)
            (prefix ++ codes "unknown")
            f
        × Passes
            (check_large_body c ctx bytes_reader close_bytes fuel large prefix)
            (prefix ++ codes "large.bin")
            f
        × Passes
            (check_put_non_seekable_body c ctx bytes_reader close_bytes fuel half prefix)
            (prefix ++ codes "non-seekable")
            f
        × Passes
            (check_put_one_byte_reads c ctx bytes_reader close_bytes fuel r s prefix)
            (prefix ++ codes "one-byte-reads")
            f
  unfolding check_round_trip check_empty_body check_put_declared_size check_put_unknown_size
      check_large_body check_put_non_seekable_body check_put_one_byte_reads object_of is_empty
  content_cases {content = content} stream s large half h ends same_content long half_long short up
        accepts set =
      (
        content_case bytes_reader-IsStream _ _ _ _ tt refl (omega arith) up accepts (own_size 14)
            set refl,
        content_case bytes_reader-IsStream _ _ _ _ tt refl (omega arith) up accepts (no_size 0) set
            refl,
        content_case bytes_reader-IsStream _ _ _ _ tt refl (omega arith) up accepts (own_size 39)
            set refl,
        content_case bytes_reader-IsStream _ _ _ _ tt refl (omega arith) up accepts (no_size 46) set
            refl,
        content_case bytes_reader-IsStream _ _ _ _ tt refl long up accepts (own_size (length large))
            set refl,
        content_case bytes_reader-IsStream _ _ _ _ tt refl half_long up accepts
            (no_size (length half)) set refl,
        rw (← same_content) (
            content_case stream _ _ s _ h ends (rw same_content (omega arith)) up accepts
              (no_size (length (content s))) set refl),
      )
