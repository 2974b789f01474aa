-- ===== src/Tests.antt =====
-- Concrete inputs, for the tests and for the instances of the theorems in the modules below.
pub mod Core
pub mod Fakes
pub mod Settings
pub mod Providers
pub mod Memory
pub mod Services
pub mod Conformance
use go_storage.Prelude.{ℕ, true, false, Option, none, some, List, [], ◌∷◌}
use go_storage.Prelude.Int.{pos}
use go_storage.Prelude.Text.{Text, codes}
use go_storage.Errors.{GoError}
use go_storage.Storage.{Capabilities, Context, PutOptions, ListOptions, zero_time}
use go_storage.Storage.Contract.{undeclared}
use go_storage.Store.{Store}
use go_storage.Fake.{Fake}

-- A stand-in for the digest.
abbrev pub toy_digest : List ℕ → Text
toy_digest bs = codes "digest"

abbrev pub caps : Capabilities
caps = record { max_key_length = 1024; validate_key = none }

-- A context that is never done.
abbrev pub background : {W : Type 0} → Context W
background = record { deadline = none; done = λ w. none }

-- A started store that takes objects of at most three bytes.
abbrev pub small_store : Store
small_store = record {
  container = codes "bin";
  max_object_size = pos 3;
  list_page_size = pos 2;
  request_timeout = 10;
  read_idle = 30;
  started = true;
  shut = false;
}

abbrev pub no_list_options : ListOptions
no_list_options = record { prefix = []; token = []; limit = pos 0 }

abbrev pub empty_fake : Fake
empty_fake = record {
  is_down = false;
  has_container = true;
  puts = 0;
  ensures = 0;
  probes = 0;
  now = zero_time;
  page_size = 3;
  caps = caps;
  objects = [];
  put_err = none;
  last_put_opts = undeclared;
  last_put_consumed = 0;
  last_ensure_deadline = none;
  last_probe_deadline = none;
  last_list_opts = no_list_options;
}

abbrev pub key_a : Text
key_a = codes "a"

abbrev pub key_b : Text
key_b = codes "b"
