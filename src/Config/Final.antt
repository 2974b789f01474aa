-- ===== src/Config/Final.antt =====
-- What `Finalize` makes of a configuration.
use go_storage.Prelude.{
  ◌≡◌, ◌≢◌, refl, Bool, true, false, Option, none, some, Option-cases, inl, inr, List, arith,
}
use go_storage.Prelude.Int.{ℤ, pos, ltb_ℤ}
use go_storage.Prelude.Text.{Text, is_empty}
use go_storage.Errors.{GoError}
use go_storage.Config.{
  Config, validate, apply_options_env, int_override, apply_late_env, apply_page_env, apply_env,
  apply_defaults, new_env, text_env, conclude, finalize, nanoseconds,
}

-- What a Store and a provider's constructor rely on in a configuration.
pub record IsUsable (c : Config) : Type 0 where
  pub named : is_empty c.container ≡ false
  pub size_not_negative : ltb_ℤ c.max_object_size (pos 0) ≡ false
  pub page_not_negative : ltb_ℤ c.list_page_size (pos 0) ≡ false
  pub timeout_positive : ltb_ℤ (pos 0) (nanoseconds c.request_timeout) ≡ true
  pub idle_positive : ltb_ℤ (pos 0) (nanoseconds c.read_idle_timeout) ≡ true

validate-IsUsable : (c : Config) → validate c ≡ none → IsUsable c
unfolding validate
validate-IsUsable c h = record {
  named = ground arith;
  size_not_negative = ground arith;
  page_not_negative = ground arith;
  timeout_positive = ground arith;
  idle_positive = ground arith;
}

IsUsable-mark : (c : Config) (b : Bool) → IsUsable c → IsUsable (record c { finalized = b })
IsUsable-mark c b u = record {
  named = u.named;
  size_not_negative = u.size_not_negative;
  page_not_negative = u.page_not_negative;
  timeout_positive = u.timeout_positive;
  idle_positive = u.idle_positive;
}

finalized-options :
    (environ : List Text) (c : Config) → (apply_options_env environ c).finalized ≡ c.finalized
unfolding apply_options_env
finalized-options environ c = ground arith

module _ (env_name : Text → List Text → Text) (getenv : Text → Text) (environ : List Text)
    (set_duration : Option ℤ → Text → Option ℤ × Option GoError) where
  finalized-late :
      (c : Config)
      → (apply_late_env env_name getenv environ set_duration c).0.finalized ≡ c.finalized
  unfolding apply_late_env
  finalized-late c = ground (arith, finalized-options environ c)

  finalized-page :
      (c : Config)
      → (apply_page_env env_name getenv environ set_duration c).0.finalized ≡ c.finalized
  unfolding apply_page_env
  finalized-page c = ground (
    arith,
    finalized-late (record c {
      list_page_size =
          (int_override env_name getenv environ set_duration c.env.list_page_size
            c.list_page_size).0;
    }),
  )

  finalized-env :
      (c : Config) → (apply_env env_name getenv environ set_duration c).0.finalized ≡ c.finalized
  unfolding apply_env text_env
  finalized-env c = ground (
    arith,
    finalized-page (record (text_env env_name getenv environ set_duration c) {
      max_object_size =
          (int_override env_name getenv environ set_duration c.env.max_object_size
            c.max_object_size).0;
    }),
  )

  -- What a result of Finalize says of its configuration.
  abbrev pub IsConcluded : Config × Option GoError → Type 0
  IsConcluded out =
      (out.1 ≡ none → (out.0.finalized ≡ true) × IsUsable out.0)
      × (out.1 ≢ none → out.0.finalized ≡ false)

  conclude-IsConcluded :
      (d : Config) (err : Option GoError)
      → d.finalized ≡ false
      → IsConcluded (conclude env_name getenv environ set_duration (d, err))
  unfolding conclude
  conclude-IsConcluded d (some e) h = (λ q. cc, λ q. h)
  conclude-IsConcluded d none h = elim (Option-cases (validate d)) [
    | inl ok ↦
        rw (ok, conclude)
          (λ q. (refl, IsUsable-mark d true (validate-IsUsable d ok)), λ q. absurd (q refl))
    | inr (e, bad) ↦ rw (bad, conclude) (λ q. cc, λ q. h)
  ]

  -- Whatever the environment holds, a configuration that Finalize returns without an error is
  -- marked finalized, names a container, has sizes that are not negative and timeouts that are
  -- positive; with an error it is not marked finalized.
  pub finalize-IsUsable :
      (prefix : Text) (c : Config)
      → IsConcluded (finalize env_name getenv environ set_duration prefix c)
  unfolding finalize apply_defaults
  finalize-IsUsable prefix c =
      let d = apply_defaults (record c {
        finalized = false;
        env = new_env env_name getenv environ set_duration prefix;
      }) in
      conclude-IsConcluded (apply_env env_name getenv environ set_duration d).0
        (apply_env env_name getenv environ set_duration d).1 (finalized-env d)
