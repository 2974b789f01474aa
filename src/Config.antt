-- ===== src/Config.antt =====
-- config.go and env.go: `Config`, its layers, its environment overrides and its validation.
pub mod Numbers
pub mod Durations
pub mod Options
pub mod Final
pub mod Layers
use go_storage.Prelude.{
  ℕ, inl, inr, Bool, true, false, ◌&&◌, ◌||◌, not, Option, none, some, List, [], ◌∷◌, ◌++◌,
  if◌then◌else◌, length, drop, ltb, leb, ◌==◌, ◌+◌,
}
use go_storage.Prelude.Int.{ℤ, pos, negsuc, ltb_ℤ}
use go_storage.Prelude.Text.{Text, codes, is_empty, has_prefix}
use go_storage.Prelude.Assoc.{Assoc, insert}
use go_storage.Errors.{GoError, errorf, int, str, wrapped, end}
use go_storage.Config.Numbers.{parse_int}

-- `Env`, the names of the variables.
pub record Env : Type 0 where
  pub endpoint : Text
  pub container : Text
  pub account : Text
  pub key : Text
  pub max_object_size : Text
  pub list_page_size : Text
  pub request_timeout : Text
  pub read_idle_timeout : Text
  pub options : Text

abbrev pub no_env : Env
no_env = record {
  endpoint = [];
  container = [];
  account = [];
  key = [];
  max_object_size = [];
  list_page_size = [];
  request_timeout = [];
  read_idle_timeout = [];
  options = [];
}

-- Timeouts are pointers to a number of nanoseconds. A nil and an empty map of options are one.
pub record Config : Type 0 where
  pub endpoint : Text
  pub container : Text
  pub account : Text
  pub key : Text
  pub options : Assoc Text
  pub max_object_size : ℤ
  pub list_page_size : ℤ
  pub request_timeout : Option ℤ
  pub read_idle_timeout : Option ℤ
  pub env : Env
  pub finalized : Bool

-- A field that an overlay sets wins.
abbrev pub over_text : Text → Text → Text
over_text src dst = if is_empty src then dst else src

abbrev pub is_zero : ℤ → Bool
is_zero (pos n) = n == 0
is_zero (negsuc n) = false

abbrev pub over_int : ℤ → ℤ → ℤ
over_int src dst = if is_zero src then dst else src

abbrev pub over_timeout : Option ℤ → Option ℤ → Option ℤ
over_timeout none dst = dst
over_timeout (some t) dst = some t

-- `maps.Copy(dst, src)`.
unfoldable pub copy_options : Assoc Text → Assoc Text → Assoc Text
copy_options dst [] = dst
copy_options dst ((k, v) ∷ src) = copy_options (insert k v dst) src

unfoldable pub merge : Config → Config → Config
unfolding copy_options
merge c src = record c {
  endpoint = over_text src.endpoint c.endpoint;
  container = over_text src.container c.container;
  account = over_text src.account c.account;
  key = over_text src.key c.key;
  max_object_size = over_int src.max_object_size c.max_object_size;
  list_page_size = over_int src.list_page_size c.list_page_size;
  request_timeout = over_timeout src.request_timeout c.request_timeout;
  read_idle_timeout = over_timeout src.read_idle_timeout c.read_idle_timeout;
  options = copy_options c.options src.options;
}

-- 10 and 30 seconds.
abbrev pub default_request_timeout : ℤ
default_request_timeout = pos 10000000000

abbrev pub default_read_idle_timeout : ℤ
default_read_idle_timeout = pos 30000000000

abbrev or_default : ℤ → Option ℤ → Option ℤ
or_default d none = some d
or_default d (some t) = some t

unfoldable pub apply_defaults : Config → Config
apply_defaults c = record c {
  request_timeout = or_default default_request_timeout c.request_timeout;
  read_idle_timeout = or_default default_read_idle_timeout c.read_idle_timeout;
}

-- The bytes of A-Z, 0-9 and the underscore.
abbrev pub is_option_byte : ℕ → Bool
is_option_byte b = leb 65 b && leb b 90 || leb 48 b && leb b 57 || b == 95

unfoldable pub all_option_bytes : Text → Bool
all_option_bytes [] = true
all_option_bytes (b ∷ t) = is_option_byte b && all_option_bytes t

-- `optionKey`. A rune past the ASCII range has no byte within it, so bytes stand for runes.
unfoldable pub option_key : Text → Bool
unfolding all_option_bytes
option_key key = not (is_empty key) && all_option_bytes key

-- `strings.ToLower` on ASCII.
abbrev pub lower_byte : ℕ → ℕ
lower_byte b = if leb 65 b && leb b 90 then b + 32 else b

unfoldable pub to_lower : Text → Text
to_lower [] = []
to_lower (b ∷ t) = lower_byte b ∷ to_lower t

-- `strings.Cut(s, "=")`; none where there is no "=".
unfoldable pub cut : Text → Option (Text × Text)
cut [] = none
cut (b ∷ t) =
    let rest = cut t in
    if b == 61
    then some ([], t)
    else elim rest [ none ↦ none | some (before, after) ↦ some (b ∷ before, after) ]

-- What one entry of the environment does to the options.
unfoldable pub option_entry : Text → Text × Text → Assoc Text → Assoc Text
unfolding option_key to_lower
option_entry prefix (name, v) m =
    if is_empty v || not (has_prefix name prefix)
    then m
    else if option_key (drop (length prefix) name)
    then insert (to_lower (drop (length prefix) name)) v m
    else m

unfoldable pub set_options : Text → List Text → Assoc Text → Assoc Text
unfolding cut option_entry
set_options prefix [] m = m
set_options prefix (kv ∷ kvs) m =
    set_options prefix kvs (elim (cut kv) [ none ↦ m | some entry ↦ option_entry prefix entry m ])

unfoldable pub apply_options_env : List Text → Config → Config
unfolding set_options
apply_options_env environ c =
    if is_empty c.env.options
    then c
    else record c { options = set_options (c.env.options ++ codes "_") environ c.options }

-- A failed check of `validate`.
abbrev pub container_required : GoError
container_required = errorf "storage: container is required" end

abbrev pub negative_size : ℤ → GoError
negative_size n = errorf "storage: max_object_size must not be negative, got %d" (int n end)

abbrev pub negative_page : ℤ → GoError
negative_page n = errorf "storage: list_page_size must not be negative, got %d" (int n end)

abbrev pub bad_timeout : ℤ → GoError
bad_timeout n = errorf "storage: request_timeout must be positive, got %s" (int n end)

abbrev pub bad_idle : ℤ → GoError
bad_idle n = errorf "storage: read_idle_timeout must be positive, got %s" (int n end)

-- The timeouts are not nil, since the defaults have been applied; the source would panic on nil.
abbrev pub nanoseconds : Option ℤ → ℤ
nanoseconds none = pos 0
nanoseconds (some t) = t

unfoldable pub validate : Config → Option GoError
validate c =
    if is_empty c.container
    then some container_required
    else if ltb_ℤ c.max_object_size (pos 0)
    then some (negative_size c.max_object_size)
    else if ltb_ℤ c.list_page_size (pos 0)
    then some (negative_page c.list_page_size)
    else if not (ltb_ℤ (pos 0) (nanoseconds c.request_timeout))
    then some (bad_timeout (nanoseconds c.request_timeout))
    else if not (ltb_ℤ (pos 0) (nanoseconds c.read_idle_timeout))
    then some (bad_idle (nanoseconds c.read_idle_timeout))
    else none

-- `getenv` and `environ` are the process's environment. `env_name` and `set_duration` are
-- `config.EnvName` and `config.SetDurationFromEnv` of go-core; the latter takes the timeout and the
-- name of a variable, and gives the timeout behind the call with an error.
module _ (env_name : Text → List Text → Text) (getenv : Text → Text) (environ : List Text)
    (set_duration : Option ℤ → Text → Option ℤ × Option GoError) where
  unfoldable pub new_env : Text → Env
  new_env prefix = record {
    endpoint = env_name prefix (codes "storage" ∷ codes "endpoint" ∷ []);
    container = env_name prefix (codes "storage" ∷ codes "container" ∷ []);
    account = env_name prefix (codes "storage" ∷ codes "account" ∷ []);
    key = env_name prefix (codes "storage" ∷ codes "key" ∷ []);
    max_object_size =
        env_name prefix (codes "storage" ∷ codes "max" ∷ codes "object" ∷ codes "size" ∷ []);
    list_page_size =
        env_name prefix (codes "storage" ∷ codes "list" ∷ codes "page" ∷ codes "size" ∷ []);
    request_timeout = env_name prefix (codes "storage" ∷ codes "request" ∷ codes "timeout" ∷ []);
    read_idle_timeout =
        env_name prefix (codes "storage" ∷ codes "read" ∷ codes "idle" ∷ codes "timeout" ∷ []);
    options = env_name prefix (codes "storage" ∷ codes "options" ∷ []);
  }

  -- A number that a variable overrides; an empty variable overrides nothing.
  unfoldable pub int_override : Text → ℤ → ℤ × Option GoError
  unfolding parse_int
  int_override name n =
      if is_empty (getenv name) then (n, none) else elim (parse_int (getenv name)) [
        | inl e ↦ (n, some (errorf "%s: %w" (str name (wrapped e end))))
        | inr m ↦ (m, none)
      ]

  -- The overrides behind the numbers.
  unfoldable pub apply_late_env : Config → Config × Option GoError
  unfolding apply_options_env
  apply_late_env c =
      let d = apply_options_env environ c in
      let (t, err) = set_duration d.request_timeout d.env.request_timeout in
      elim err [
        | some e ↦ (record d { request_timeout = t }, some e)
        | none ↦
            let (u, err') = set_duration d.read_idle_timeout d.env.read_idle_timeout in
            (record d { request_timeout = t; read_idle_timeout = u }, err')
      ]

  -- The overrides from ListPageSize on.
  unfoldable pub apply_page_env : Config → Config × Option GoError
  unfolding int_override apply_late_env
  apply_page_env c =
      let (n, err) = int_override c.env.list_page_size c.list_page_size in
      elim err [ some e ↦ (c, some e) | none ↦ apply_late_env (record c { list_page_size = n }) ]

  -- The overrides of the texts.
  unfoldable pub text_env : Config → Config
  text_env c = record c {
    endpoint = over_text (getenv c.env.endpoint) c.endpoint;
    container = over_text (getenv c.env.container) c.container;
    account = over_text (getenv c.env.account) c.account;
    key = over_text (getenv c.env.key) c.key;
  }

  unfoldable pub apply_env : Config → Config × Option GoError
  unfolding int_override apply_page_env text_env
  apply_env c =
      let (n, err) = int_override c.env.max_object_size c.max_object_size in
      elim err [
        | some e ↦ (text_env c, some e)
        | none ↦ apply_page_env (record (text_env c) { max_object_size = n })
      ]

  -- Finalize behind applyEnv.
  unfoldable pub conclude : Config × Option GoError → Config × Option GoError
  unfolding validate
  conclude (d, some e) = (d, some e)
  conclude (d, none) = elim (validate d) [
    | some e ↦ (d, some e)
    | none ↦ (record d { finalized = true }, none)
  ]

  unfoldable pub finalize : Text → Config → Config × Option GoError
  unfolding new_env apply_defaults apply_env conclude
  finalize prefix c =
      conclude (apply_env (apply_defaults (record c { finalized = false; env = new_env prefix })))
