-- ===== src/S3/Resume.antt =====
-- s3/objects.go: `Get`, and `resumingBody`, which resumes a failed read of its body by a ranged
-- request.
pub mod Version
pub mod Reads
pub mod Whole
use go_storage.Prelude.{
  ℕ, zero, suc, ◌+◌, ◌/◌, ◌%◌, ◌<◌, Bool, true, false, not, ◌&&◌, ◌||◌, Option, none, some, List,
  [], ◌∷◌, ◌++◌, length, ltb, if◌then◌else◌, ◌⊎◌, inl, inr,
}
use go_storage.Prelude.Int.{ℤ, pos, negsuc, ltb_ℤ}
use go_storage.Prelude.Text.{Text, codes, is_empty, has_prefix}
use go_storage.Errors.{
  GoError, Operands, sentinel, errorf, int, str, wrapped, end, eof, same, body_closed,
}
use go_storage.Stream.{Reader}
use go_storage.Storage.{Blob, no_blob, Context, utc}
use go_storage.S3.Api.{Answer, Api, to_string, to_int, to_time}
use go_storage.S3.Errors.{classify, classify_resume}
use go_storage.S3.Keys.{validate_key}
use go_storage.S3.Put.{S3Client, entity_tag}

-- The decimal digits of a number, as %d writes them, behind those that are already written.
unfoldable pub decimal_from : ℕ → ℕ → Text → Text
decimal_from zero n t = t
decimal_from (suc fuel) n t =
    let rest = decimal_from fuel (n / 10) ((48 + n % 10) ∷ t) in
    if ltb n 10 then (48 + n) ∷ t else rest

abbrev pub decimal : ℕ → Text
decimal n = decimal_from (n + 1) n []

-- `size` is -1 where the first answer gave no length. `last_err` is the failure that ended the last
-- body, and `err` the one that every later read returns. The client's fields are in the `Api` and
-- the `S3Client` beside it, the context in the `Context`; the mutex is not modelled.
pub record ResumingBody (B : Type 0) : Type 0 where
  pub key : Text
  pub etag : Text
  pub size : ℤ
  pub retries : ℕ
  pub offset : ℕ
  pub last_err : Option GoError
  pub err : Option GoError
  pub closed : Bool
  pub body : Option B

abbrev wrap_last : Option GoError → Operands
wrap_last none = end
wrap_last (some e) = wrapped e end

abbrev resume_failed : Text → ℕ → GoError → GoError
resume_failed key offset e =
    errorf "s3: resume read of %q at byte %d: %w"
      (str key (int (pos offset) (wrapped (classify_resume e) end)))

abbrev wrong_range : Text → ℕ → Text → Option GoError → GoError
wrong_range key offset range last =
    errorf
      "s3: resume read of %q at byte %d: answer's Content-Range is %q, not the range asked for: %w"
      (str key (int (pos offset) (str range (wrap_last last))))

abbrev pub range_from : ℕ → Text
range_from offset = codes "bytes=" ++ (decimal offset ++ codes "-")

abbrev pub range_prefix : ℕ → Text
range_prefix offset = codes "bytes " ++ (decimal offset ++ codes "-")

-- The length of the first answer, or -1.
abbrev pub size_of : Option ℤ → ℤ
size_of none = negsuc 0
size_of (some n) = n

-- A body that is read, and the world.
abbrev pub Reading : Type 0 → Type 0 → Type 0
Reading W B = ResumingBody B × W

module _ {W B : Type 0} (api : Api W B) (c : S3Client) (ctx : Context W) where
  unfoldable pub resumable : Reading W B → Bool
  resumable (b, w) =
      elim (ctx.done w) [ none ↦ true | some e ↦ false ]
      && (not (is_empty b.etag) && (ltb_ℤ b.size (pos 0) || ltb_ℤ (pos b.offset) b.size))

  -- What `resume` makes of an answer.
  unfoldable pub resumed : ResumingBody B → Answer B → W → (GoError ⊎ B) × Reading W B
  resumed b a w =
      if has_prefix (to_string a.content_range) (range_prefix b.offset)
      then (inr a.body, (record b { body = some a.body }, w))
      else (let (err, w') = api.close_body a.body w in
          (inl (wrong_range b.key b.offset (to_string a.content_range) b.last_err), (b, w')))

  -- `resume`. A body set after Close is closed at once in the source; Read, which alone calls it,
  -- has seen before that the body is not closed.
  unfoldable pub resume : Reading W B → (GoError ⊎ B) × Reading W B
  unfolding resumed
  resume (b, w) =
      let (out, w') =
        api.get_object ctx c.bucket b.key (some (range_from b.offset)) (some b.etag) w in
      elim out [ inl e ↦ (inl (resume_failed b.key b.offset e), (b, w')) | inr a ↦ resumed b a w' ]

  -- One read of an answer's body: what Read returns, or the state behind a failure that gave no
  -- byte, after which the loop goes on.
  unfoldable pub serve : B → Reading W B → ℕ → (List ℕ × Option GoError × Reading W B) ⊎ Reading W B
  serve body (b, w) n =
      let (bs, e, body') = api.body.read body n in
      elim e [
        | none ↦ inl (bs, none, (record b { offset = b.offset + length bs; body = some body' }, w))
        | some x ↦
            if same x (sentinel eof)
            then inl
                (bs, some x, (record b { offset = b.offset + length bs; body = some body' }, w))
            else (let (err, w') = api.close_body body' w in
                let lost : Reading W B = (
                  record b { offset = b.offset + length bs; body = none; last_err = some x },
                  w',
                ) in
                if ltb 0 (length bs) then inl (bs, none, lost) else inr lost)
      ]

  abbrev pub give_up : Reading W B → List ℕ × Option GoError × Reading W B
  give_up (b, w) = ([], b.last_err, (record b { err = b.last_err }, w))

  -- The loop from an iteration without a body on, with a number of resumptions left.
  unfoldable pub read_again : ℕ → Reading W B → ℕ → List ℕ × Option GoError × Reading W B
  unfolding resume serve
  read_again zero s n = give_up s
  read_again (suc left) s n = elim (resumable s) [
    | false ↦ give_up s
    | true ↦
        let (got, s') = resume s in
        elim got [
          | inl e ↦ ([], some e, (record (s'.0) { err = some e }, s'.1))
          | inr body ↦ elim (serve body s' n) [ inl out ↦ out | inr lost ↦ read_again left lost n ]
        ]
  ]

  -- `Read`
  unfoldable pub read_resuming : Reading W B → ℕ → List ℕ × Option GoError × Reading W B
  unfolding read_again serve
  read_resuming s n = if s.0.closed then ([], some (sentinel body_closed), s) else elim s.0.err [
    | some e ↦ ([], some e, s)
    | none ↦ elim s.0.body [
      | none ↦ read_again s.0.retries s n
      | some body ↦ elim (serve body s n) [
        | inl out ↦ out
        | inr lost ↦ read_again s.0.retries lost n
      ]
    ]
  ]

  -- `Close`
  unfoldable pub close_resuming : Reading W B → Option GoError × Reading W B
  close_resuming (b, w) = elim b.body [
    | none ↦ (none, (record b { closed = true }, w))
    | some body ↦ (let (err, w') = api.close_body body w in (err, (record b { closed = true }, w')))
  ]

  -- `classifiedBody`, over the body that it wraps.
  unfoldable pub read_classified : Reading W B → ℕ → List ℕ × Option GoError × Reading W B
  unfolding read_resuming
  read_classified s n =
      let (bs, e, s') = read_resuming s n in
      elim e [
        | none ↦ (bs, none, s')
        | some x ↦ if same x (sentinel eof) then (bs, some x, s') else (bs, some (classify x), s')
      ]

  abbrev pub classified_body : Reader (Reading W B)
  classified_body = record { read = read_classified }

  -- What `Get` makes of the first answer.
  unfoldable pub opened : Text → Answer B → Blob (ResumingBody B)
  unfolding entity_tag
  opened key a = record {
    object = record {
      key = key;
      size = to_int a.head.content_length;
      content_type = to_string a.head.content_type;
      etag = entity_tag a.head.etag;
      modified_at = utc (to_time a.head.last_modified);
    };
    body = some (record {
      key = key;
      etag = to_string a.head.etag;
      size = size_of a.head.content_length;
      retries = c.read_retries;
      offset = 0;
      last_err = none;
      err = none;
      closed = false;
      body = some a.body;
    });
  }

  -- `Get`
  unfoldable pub get : Text → W → Blob (ResumingBody B) × Option GoError × W
  unfolding opened
  get key w = elim (validate_key key) [
    | some e ↦ (no_blob, some e, w)
    | none ↦
        (let (out, w') = api.get_object ctx c.bucket key none none w in
          elim out [ inl e ↦ (no_blob, some (classify e), w') | inr a ↦ (opened key a, none, w') ])
  ]
