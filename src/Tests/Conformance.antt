-- ===== src/Tests/Conformance.antt =====
-- The checks of storagetest/suite.go on a Fake of one test.
use go_storage.Prelude.{◌≡◌, refl, false, none, some, [], ◌∷◌, ◌++◌, arith}
use go_storage.Storage.Contract.{undeclared}
use go_storage.Stream.{bytes_reader, bytes_reader-IsStream}
use go_storage.Fake.{Fake, gate, size_mismatch, object_of, store_put, fake_client}
use go_storage.Suite.Deleted.{check_delete_passes}
use go_storage.Prelude.Text.{codes}
use go_storage.Prelude.Assoc.{lookup}
use go_storage.Suite.{check_delete, check_content, check_missing_container}
use go_storage.Suite.Passes.{close_bytes, check_content_passes}
use go_storage.Suite.Missing.{check_missing_container_passes}
use go_storage.Tests.{toy_digest, caps, background, empty_fake, key_a}

-- Its clock is not at the zero time, and not in UTC.
abbrev running_fake : Fake
running_fake = record empty_fake { now = record { instant = 7; zone = 1 } }

abbrev bare_fake : Fake
bare_fake = record empty_fake { has_container = false }

check_content_passes_example :
    check_content
      (fake_client toy_digest 9 caps)
      background
      bytes_reader
      close_bytes
      9
      bytes_reader
      key_a
      undeclared
      (1 ∷ 2 ∷ [])
      (1 ∷ 2 ∷ [])
      (object_of toy_digest key_a undeclared (1 ∷ 2 ∷ []) running_fake.now).meta.content_type
      (running_fake, [])
    ≡ (
      some tt,
      [],
      ((store_put toy_digest key_a undeclared (1 ∷ 2 ∷ []) none running_fake).2, key_a ∷ []),
    )
unfolding gate size_mismatch
check_content_passes_example =
    check_content_passes toy_digest 9 caps background key_a bytes_reader-IsStream undeclared
      running_fake [] (1 ∷ 2 ∷ []) tt refl (ground arith) refl refl refl (ground arith)

check_missing_container_passes_example :
    (g : Fake) × (check_missing_container
        (fake_client toy_digest 9 caps)
        background
        bytes_reader
        close_bytes
        9
        bytes_reader
        (1 ∷ [])
        key_a
        (bare_fake, [])
      ≡ (some tt, [], (g, [])))
    × (g.objects ≡ [])
check_missing_container_passes_example =
    check_missing_container_passes toy_digest 9 caps background key_a [] bytes_reader-IsStream
      bare_fake (1 ∷ []) tt (ground arith) refl refl

check_delete_passes_example :
    (g : Fake) × (check_delete
        (fake_client toy_digest 9 caps)
        background
        bytes_reader
        close_bytes
        9
        bytes_reader
        (1 ∷ [])
        key_a
        (running_fake, [])
      ≡ (some tt, [], (g, (key_a ++ codes "deleted") ∷ [])))
    × (lookup (key_a ++ codes "deleted") g.objects ≡ none)
unfolding gate
check_delete_passes_example =
    check_delete_passes toy_digest 9 caps background [] bytes_reader-IsStream running_fake (1 ∷ [])
      key_a tt refl (ground arith) refl refl
