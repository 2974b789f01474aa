-- ===== src/Store/Built.antt =====
-- A Store built from a configuration that Finalize has accepted.
use go_storage.Prelude.{◌≡◌, ◌<◌, refl, true, false, Option, none, some, List, arith}
use go_storage.Prelude.Int.{ℤ, pos, negsuc, ltb_ℤ, pos_part}
use go_storage.Prelude.Text.{Text}
use go_storage.Errors.{GoError}
use go_storage.Storage.{Client}
use go_storage.Store.{Store}
use go_storage.Store.Operations.{new}
use go_storage.Config.{Config, finalize, nanoseconds}
use go_storage.Config.Final.{IsUsable, finalize-IsUsable}

-- What New makes of a client and a configuration that is marked finalized and usable.
pub record IsFresh {W B : Type 0} (c : Client W B) (cfg : Config) (st : Store) : Type 0 where
  pub made : new (some c) cfg ≡ some st
  pub named : st.container ≡ cfg.container
  pub stopped : st.started ≡ false
  pub opened : st.shut ≡ false
  pub same_size : st.max_object_size ≡ cfg.max_object_size
  pub size_not_negative : ltb_ℤ st.max_object_size (pos 0) ≡ false
  pub same_page : st.list_page_size ≡ cfg.list_page_size
  pub page_not_negative : ltb_ℤ st.list_page_size (pos 0) ≡ false
  pub same_timeout : pos st.request_timeout ≡ nanoseconds cfg.request_timeout
  pub timeout_positive : 0 < st.request_timeout
  pub same_idle : pos st.read_idle ≡ nanoseconds cfg.read_idle_timeout
  pub idle_positive : 0 < st.read_idle

pos-pos_part : (n : ℤ) → 0 < pos_part n → pos (pos_part n) ≡ n
pos-pos_part (pos n) h = refl
pos-pos_part (negsuc n) h = absurd (omega (arith, h))

built :
    {W B : Type 0} (c : Client W B) (cfg : Config)
    → cfg.finalized ≡ true
    → IsUsable cfg
    → (st : Store) × IsFresh c cfg st
unfolding new
built c cfg f u = (
  record {
    container = cfg.container;
    max_object_size = cfg.max_object_size;
    list_page_size = cfg.list_page_size;
    request_timeout = pos_part (nanoseconds cfg.request_timeout);
    read_idle = pos_part (nanoseconds cfg.read_idle_timeout);
    started = false;
    shut = false;
  },
  record {
    made = ground (arith, f);
    named = refl;
    stopped = refl;
    opened = refl;
    same_size = refl;
    size_not_negative = u.size_not_negative;
    same_page = refl;
    page_not_negative = u.page_not_negative;
    same_timeout = pos-pos_part _ (ground (arith, u.timeout_positive));
    timeout_positive = ground (arith, u.timeout_positive);
    same_idle = pos-pos_part _ (ground (arith, u.idle_positive));
    idle_positive = ground (arith, u.idle_positive);
  },
)

-- New does not panic on a client that is not nil and a configuration that Finalize has returned
-- without an error. It makes a Store that is neither started nor shut, of the configuration's
-- container, sizes and timeouts, where the sizes are not negative and the timeouts are positive.
pub new-finalize :
    {W B : Type 0} (client : Client W B) (env_name : Text → List Text → Text) (getenv : Text → Text)
    (environ : List Text) (set_duration : Option ℤ → Text → Option ℤ × Option GoError)
    (prefix : Text) (c : Config)
    → (finalize env_name getenv environ set_duration prefix c).1 ≡ none
    → (st : Store) × IsFresh client (finalize env_name getenv environ set_duration prefix c).0 st
new-finalize client env_name getenv environ set_duration prefix c ok =
    let (f, u) = (finalize-IsUsable env_name getenv environ set_duration prefix c).0 ok in
    built client (finalize env_name getenv environ set_duration prefix c).0 f u
