-- ===== src/Storage.antt =====
-- client.go: the data of the standard tier and the `Client` interface that a provider implements
-- and `Store` implements over a provider.
pub mod Contract
use go_storage.Prelude.{ℕ, Option, none, List, [], arith}
use go_storage.Prelude.Int.{ℤ, pos}
use go_storage.Prelude.Text.{Text}
use go_storage.Errors.{GoError}
use go_storage.Stream.{Reader}

-- `time.Time`: nanoseconds of an instant, and its location, where 0 is time.UTC.
pub record Time : Type 0 where
  pub instant : ℕ
  pub zone : ℕ

unfoldable pub utc : Time → Time
utc t = record t { zone = 0 }

abbrev pub zero_time : Time
zero_time = record { instant = 0; zone = 0 }

pub record Object : Type 0 where
  pub key : Text
  pub size : ℤ
  pub content_type : Text
  pub etag : Text
  pub modified_at : Time

-- `Object{}`.
abbrev pub no_object : Object
no_object = record { key = []; size = pos 0; content_type = []; etag = []; modified_at = zero_time }

-- `B` stands for the open bodies, values of io.ReadCloser; none is nil.
pub record Blob (B : Type 0) : Type 0 where
  pub object : Object
  pub body : Option B

abbrev pub no_blob : {B : Type 0} → Blob B
no_blob = record { object = no_object; body = none }

pub record PutOptions : Type 0 where
  pub content_type : Text
  pub size : ℤ

pub record ListOptions : Type 0 where
  pub prefix : Text
  pub token : Text
  pub limit : ℤ

pub record Page : Type 0 where
  pub objects : List Object
  pub next : Text

abbrev pub no_page : Page
no_page = record { objects = []; next = [] }

pub record Capabilities : Type 0 where
  pub max_key_length : ℕ
  pub validate_key : Option (Text → Option GoError)

-- A `context.Context` over a world `W`: its deadline, and what `ctx.Err()` says in a world.
pub record Context (W : Type 0) : Type 0 where
  pub deadline : Option ℕ
  pub done : W → Option GoError

-- The interface `Client`, over the world `W` that its calls change. A Go pair of a value and an
-- error that may be nil is a pair with an `Option`. `put` reads its body through a reader and
-- leaves the state in which the reads have left it. `close` is there where the client implements
-- io.Closer.
pub record Client (W B : Type 0) : Type 1 where
  pub put :
      (S : Type 0)
      → Reader S
      → Context W
      → Text
      → PutOptions
      → S
      → W
      → Object × Option GoError × S × W
  pub get : Context W → Text → W → Blob B × Option GoError × W
  pub stat : Context W → Text → W → Object × Option GoError × W
  pub delete : Context W → Text → W → Option GoError × W
  pub list : Context W → ListOptions → W → Page × Option GoError × W
  pub ensure_container : Context W → W → Option GoError × W
  pub probe : Context W → W → Option GoError × W
  pub capabilities : Capabilities
  pub close : Option (W → Option GoError × W)
