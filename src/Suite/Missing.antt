-- ===== src/Suite/Missing.antt =====
-- The Fake and the checks of storagetest/suite.go for what is not there: a key, and a container.
use go_storage.Prelude.{
  ℕ, ◌+◌, ◌<◌, ◌≡◌, refl, ap, false, Option, none, some, List, [], ◌∷◌, ◌++◌, length, arith,
}
use go_storage.Prelude.Int.{pos}
use go_storage.Prelude.Text.{Text, codes}
use go_storage.Prelude.Assoc.{lookup}
use go_storage.Errors.{GoError, same, is}
use go_storage.Stream.{Reader, IsStream, read_all_lem, read_outcome, bytes_reader}
use go_storage.Storage.{Object, no_object, PutOptions, Capabilities, Context}
use go_storage.Fake.{Fake, gate, store_put, fake_client, missing_key, missing_container}
use go_storage.Fake.{
  get as fake_get, stat as fake_stat, put as fake_put, probe as fake_probe, remove as fake_remove,
  list as fake_list,
}
use go_storage.Suite.{
  probe_error, delete_error, list_error, put_error, check_missing_container, want_not_found,
  want_no_container, get_error, stat_error, check_missing_key, Test, want,
}
use go_storage.Suite.Passes.{went_on, reported, close_bytes}

-- What the Fake says of a key or a container that is not there is what the suite wants.
pub key_wanted : want_not_found (some missing_key) ≡ []
unfolding want_not_found is same
key_wanted = ground arith

container_wanted : want_no_container (some missing_container) ≡ []
unfolding want_no_container want is same
container_wanted = ground arith

module _ (digest : List ℕ → Text) (fuel : ℕ) (caps : Capabilities) (ctx : Context Fake) (f : Fake)
    (cleanup : List Text) where
  module _ (key : Text) (up : gate f ≡ none) (absent : lookup key f.objects ≡ none) where
    pub stat_absent :
        stat_error (fake_client digest fuel caps) ctx bytes_reader close_bytes fuel key (f, cleanup)
        ≡ (some (some missing_key), [], (f, cleanup))
    unfolding stat_error fake_client fake_stat
    stat_absent = ground (arith, up, absent)

    pub get_absent :
        get_error (fake_client digest fuel caps) ctx bytes_reader close_bytes fuel key (f, cleanup)
        ≡ (some (some missing_key), [], (f, cleanup))
    unfolding get_error fake_client fake_get
    get_absent = ground (arith, up, absent)

  -- checkMissingKey passes over a Fake that answers and does not hold the key, and changes nothing.
  pub check_missing_key_passes :
      (prefix : Text)
      → gate f ≡ none
      → lookup (prefix ++ codes "missing") f.objects ≡ none
      → check_missing_key
          (fake_client digest fuel caps)
          ctx
          bytes_reader
          close_bytes
          fuel
          prefix
          (f, cleanup)
        ≡ (some tt, [], (f, cleanup))
  unfolding check_missing_key
  check_missing_key_passes prefix up absent =
      went_on _ _ (get_absent (prefix ++ codes "missing") up absent) (
        reported _ key_wanted (
          went_on _ _ (stat_absent (prefix ++ codes "missing") up absent)
            (ap (λ fs. (some tt, fs, (f, cleanup))) key_wanted)))

no_container :
    (f : Fake) → f.is_down ≡ false → f.has_container ≡ false → gate f ≡ some missing_container
unfolding gate
no_container f up lost = ground (arith, up, lost)

module _ (digest : List ℕ → Text) (fuel : ℕ) (caps : Capabilities) (ctx : Context Fake) (key : Text)
    (cleanup : List Text) where
  -- A step that finds no container.
  abbrev Refuses : Test Fake (Option GoError) → Fake → Fake → Type 0
  Refuses t f g = t (f, cleanup) ≡ (some (some missing_container), [], (g, cleanup))

  module _ (f : Fake) (lost : gate f ≡ some missing_container) where
    probe-Refuses :
        (g : Fake) × Refuses
          (probe_error (fake_client digest fuel caps) ctx bytes_reader close_bytes fuel)
          f
          g
        × (gate g ≡ some missing_container)
        × (g.objects ≡ f.objects)
    unfolding probe_error fake_client fake_probe gate
    probe-Refuses = (
      record f { probes = f.probes + 1; last_probe_deadline = ctx.deadline },
      ap
          (λ e. (
            some e,
            [],
            (record f { probes = f.probes + 1; last_probe_deadline = ctx.deadline }, cleanup),
          ))
          lost,
      lost,
      refl,
    )

    get-Refuses :
        Refuses (get_error (fake_client digest fuel caps) ctx bytes_reader close_bytes fuel key) f f
    unfolding get_error fake_client fake_get
    get-Refuses = ground (arith, lost)

    stat-Refuses :
        Refuses
          (stat_error (fake_client digest fuel caps) ctx bytes_reader close_bytes fuel key)
          f
          f
    unfolding stat_error fake_client fake_stat
    stat-Refuses = ground (arith, lost)

    delete-Refuses :
        Refuses
          (delete_error (fake_client digest fuel caps) ctx bytes_reader close_bytes fuel key)
          f
          f
    unfolding delete_error fake_client fake_remove
    delete-Refuses = ground (arith, lost)

    list-Refuses :
        Refuses (list_error (fake_client digest fuel caps) ctx bytes_reader close_bytes fuel) f f
    unfolding list_error fake_client fake_list
    list-Refuses = ground (arith, lost)

    abbrev put_lost : PutOptions → List ℕ → Fake
    put_lost opts bytes = record f {
      puts = f.puts + 1;
      last_put_opts = opts;
      last_put_consumed = length bytes;
    }

    gate-put_lost :
        (opts : PutOptions) (bytes : List ℕ) → gate (put_lost opts bytes) ≡ some missing_container
    unfolding gate
    gate-put_lost opts bytes = lost

    store_refuses :
        (opts : PutOptions) (bytes : List ℕ) (read_err : Option GoError)
        → store_put digest key opts bytes read_err f
          ≡ (no_object, some missing_container, put_lost opts bytes)
    unfolding store_put
    store_refuses opts bytes read_err = ground (arith, lost)

    module _ {S : Type 0} {r : Reader S} {Holds Ended : S → Type 0} {content : S → List ℕ}
        {final : S → GoError} (stream : IsStream r Holds Ended content final) (opts : PutOptions)
        (s : S) (h : Holds s) (lt : length (content s) < fuel) where
      fake_put_refuses :
          (s' : S) × (fake_put digest S fuel r key opts s f
            ≡ (no_object, some missing_container, s', put_lost opts (content s)))
      unfolding fake_put
      fake_put_refuses =
          let (s', _, _, e) = read_all_lem r stream fuel [] s h lt in
          (
            s',
            rw (e, fake_put)
                (ap (λ (x : Object × Option GoError × Fake). (x.0, x.1, s', x.2))
                  (store_refuses opts (content s) (read_outcome (final s)))),
          )

      put-Refuses :
          Refuses
            (put_error
              (fake_client digest fuel caps)
              ctx
              bytes_reader
              close_bytes
              fuel
              r
              key
              opts
              s)
            f
            (put_lost opts (content s))
      unfolding put_error fake_client
      put-Refuses =
          ap
            (λ (x : Object × Option GoError × S × Fake). (elim x.1 [
              | some e ↦ (some (some e), [], (x.3, cleanup))
              | none ↦ (some none, [], (x.3, key ∷ cleanup))
            ]))
            fake_put_refuses.1

  -- checkMissingContainer passes over a Fake that is not down and has no container, for every body
  -- that is a stream, with fuel above its length: no failure is reported, nothing is noted for the
  -- cleanup, and the Fake's objects are as they were.
  pub check_missing_container_passes :
      {S : Type 0} {r : Reader S} {Holds Ended : S → Type 0} {content : S → List ℕ}
      {final : S → GoError} (stream : IsStream r Holds Ended content final) (f : Fake) (s : S)
      → Holds s
      → length (content s) < fuel
      → f.is_down ≡ false
      → f.has_container ≡ false
      → (g : Fake) × (check_missing_container
            (fake_client digest fuel caps)
            ctx
            bytes_reader
            close_bytes
            fuel
            r
            s
            key
            (f, cleanup)
          ≡ (some tt, [], (g, cleanup)))
        × (g.objects ≡ f.objects)
  unfolding check_missing_container
  check_missing_container_passes {content = content} stream f s h lt up lost =
      let (g, probed, gone, same_objects) = probe-Refuses f (no_container f up lost) in
      let one : PutOptions = record { content_type = []; size = pos 1 } in
      let put = put_lost g gone one (content s) in
      let still = gate-put_lost g gone one (content s) in
      (
        put,
        went_on _ _ probed (
            reported _ container_wanted (
              went_on _ _ (put-Refuses g gone stream one s h lt) (
                reported _ container_wanted (
                  went_on _ _ (get-Refuses put still) (
                    reported _ container_wanted (
                      went_on _ _ (stat-Refuses put still) (
                        reported _ container_wanted (
                          went_on _ _ (delete-Refuses put still) (
                            reported _ container_wanted (
                              went_on _ _ (list-Refuses put still) (
                                ap (λ fs. (some tt, fs, (put, cleanup)))
                                  container_wanted))))))))))),
        same_objects,
      )
