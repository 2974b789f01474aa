-- ===== src/Store/Operations.antt =====
-- store.go: `New` and the operations of a Store other than Put, Start and Shutdown.
use go_storage.Prelude.{
  ℕ, ◌≡◌, ◌<◌, inl, inr, refl, Bool, true, false, not, Option, none, some, List, arith,
  if◌then◌else◌, Bool-cases,
}
use go_storage.Prelude.Int.{ℤ, pos, ltb_ℤ, pos_part}
use go_storage.Prelude.Text.{Text}
use go_storage.Errors.{GoError, sentinel, errorf, int, end, not_ready}
use go_storage.Storage.{
  Object, no_object, Blob, no_blob, ListOptions, Page, no_page, Capabilities, Context, Client,
}
use go_storage.Store.{Store}
use go_storage.Idle.{IdleReader, Turn, new_idle_reader}
use go_storage.Config.{Config, nanoseconds, is_zero}

-- `New`; none is the panic on a nil client or on a configuration that was not finalized.
unfoldable pub new : {W B : Type 0} → Option (Client W B) → Config → Option Store
new none cfg = none
new (some c) cfg =
    if not cfg.finalized
    then none
    else some (record {
      container = cfg.container;
      max_object_size = cfg.max_object_size;
      list_page_size = cfg.list_page_size;
      request_timeout = pos_part (nanoseconds cfg.request_timeout);
      read_idle = pos_part (nanoseconds cfg.read_idle_timeout);
      started = false;
      shut = false;
    })

-- What the context package provides: the background context, and contexts with a timeout or a
-- cancel function, which is a function of the world.
pub record Contexts (W : Type 0) : Type 0 where
  pub background : Context W
  pub with_timeout : ℕ → Context W → Context W × (W → W)
  pub with_cancel : Context W → Context W × (W → W)

abbrev pub invalid_limit : ℤ → GoError
invalid_limit n = errorf "invalid list limit: %d" (int n end)

-- The options that List hands to the provider.
unfoldable pub sent_options : Store → ListOptions → ListOptions
sent_options s opts = if is_zero opts.limit then record opts { limit = s.list_page_size } else opts

module _ {W B : Type 0} (cs : Contexts W) (c : Client W B) (s : Store) where
  -- `Ready`; the deferred cancel runs behind the probe.
  unfoldable pub ready : W → Bool × W
  ready w =
      if not s.started
      then (false, w)
      else (let (ctx, cancel) = cs.with_timeout s.request_timeout cs.background in
          let (err, w') = c.probe ctx w in (elim err [ none ↦ true | some e ↦ false ], cancel w'))

  -- `turns` is what the timer of the new idle reader will do. A nil body is not wrapped here; the
  -- source wraps it, and its first read panics.
  unfoldable pub get : List Turn → Context W → Text → W → Blob (IdleReader B) × Option GoError × W
  get turns ctx key w =
      if not s.started
      then (no_blob, some (sentinel not_ready), w)
      else (let (ctx', cancel) = cs.with_cancel ctx in
          let (blob, err, w') = c.get ctx' key w in
          elim err [
            | some e ↦ (no_blob, some e, cancel w')
            | none ↦ (
              record {
                object = blob.object;
                body = elim blob.body [
                  | none ↦ none
                  | some b ↦ some (new_idle_reader b s.read_idle turns)
                ];
              },
              none,
              w',
            )
          ])

  unfoldable pub stat : Context W → Text → W → Object × Option GoError × W
  stat ctx key w =
      if not s.started then (no_object, some (sentinel not_ready), w) else c.stat ctx key w

  unfoldable pub delete : Context W → Text → W → Option GoError × W
  delete ctx key w = if not s.started then (some (sentinel not_ready), w) else c.delete ctx key w

  unfoldable pub list : Context W → ListOptions → W → Page × Option GoError × W
  unfolding sent_options
  list ctx opts w =
      if not s.started
      then (no_page, some (sentinel not_ready), w)
      else if ltb_ℤ opts.limit (pos 0)
      then (no_page, some (invalid_limit opts.limit), w)
      else c.list ctx (sent_options s opts) w

  -- Without a check of `started`.
  pub ensure_container : Context W → W → Option GoError × W
  ensure_container ctx w = c.ensure_container ctx w

  unfoldable pub probe : Context W → W → Option GoError × W
  probe ctx w = if not s.started then (some (sentinel not_ready), w) else c.probe ctx w

  pub capabilities : Capabilities
  capabilities = c.capabilities

  pub container : Text
  container = s.container

  -- A List of a started store with a page size that is not negative fails without a call of the
  -- provider, with the world as it was, if the limit is negative; and otherwise asks the provider
  -- for the same prefix and token, with a limit that is not negative: the caller's if that is
  -- positive, the page size if it is 0.
  pub list_cases :
      (ctx : Context W) (opts : ListOptions) (w : W)
      → s.started ≡ true
      → ltb_ℤ s.list_page_size (pos 0) ≡ false
      → (ltb_ℤ opts.limit (pos 0) ≡ true
          → list ctx opts w ≡ (no_page, some (invalid_limit opts.limit), w))
        × (ltb_ℤ opts.limit (pos 0) ≡ false
            → (limit : ℤ) × (list ctx opts w ≡ c.list ctx (record opts { limit = limit }) w)
              × (ltb_ℤ limit (pos 0) ≡ false)
              × (pos_part opts.limit ≡ 0 → limit ≡ s.list_page_size)
              × (0 < pos_part opts.limit → limit ≡ opts.limit))
  unfolding list sent_options
  list_cases ctx opts w up fair = (λ neg. ground (arith, up, neg), asked)
    where
      asked :
          ltb_ℤ opts.limit (pos 0) ≡ false
          → (limit : ℤ) × (list ctx opts w ≡ c.list ctx (record opts { limit = limit }) w)
            × (ltb_ℤ limit (pos 0) ≡ false)
            × (pos_part opts.limit ≡ 0 → limit ≡ s.list_page_size)
            × (0 < pos_part opts.limit → limit ≡ opts.limit)
      asked ok = elim (Bool-cases (is_zero opts.limit)) [
        | inl zero ↦ (
          s.list_page_size,
          ground (arith, up, ok, zero),
          fair,
          λ _. refl,
          λ p. ground (arith, zero),
        )
        | inr more ↦
            (opts.limit, ground (arith, up, ok, more), ok, λ p. ground (arith, more, ok), λ _. refl)
      ]
