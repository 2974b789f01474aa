-- ===== src/S3/Resume/Version.antt =====
-- s3/objects.go: `resumingBody` reads the one version that it began on.
use mathlib.Core.Option.{some-injective}
use go_storage.Prelude.{
  ℕ, ◌+◌, ◌≡◌, ◌≢◌, refl, sym, ap, ◌∙◌, true, false, Option, none, some, Bool-cases, List, [], ◌++◌,
  length, drop, drop-add, ltb, ◌⊎◌, inl, inr, arith,
}
use go_storage.Prelude.Text.{Text, has_prefix}
use go_storage.Errors.{GoError, sentinel, eof, same}
use go_storage.Stream.Partial.{ReadsPart, IsPartial}
use go_storage.Storage.{Context}
use go_storage.S3.Api.{Answer, Api, to_string}
use go_storage.S3.Put.{S3Client}
use go_storage.S3.Resume.{range_from, range_prefix, Reading, resumed, resume, serve}

-- What S3 promises of one version of an object, which an ETag names: the answers' bodies are
-- partial readers, and the answer of a request that is conditioned on the ETag, and whose
-- Content-Range begins at an offset, has the version's bytes from there on.
pub record ServesVersion {W B : Type 0} (api : Api W B) (bucket key etag : Text) (version : List ℕ)
    (BodyHolds : B → Type 0) (body_content : B → List ℕ) : Type 0 where
  pub bodies : IsPartial api.body BodyHolds body_content
  pub ranged :
      (ctx : Context W) (offset : ℕ) (w : W) (a : Answer B)
      → (api.get_object ctx bucket key (some (range_from offset)) (some etag) w).0 ≡ inr a
      → has_prefix (to_string a.content_range) (range_prefix offset) ≡ true
      → BodyHolds a.body × (body_content a.body ≡ drop offset version)

module _ {W B : Type 0} (key etag : Text) (version : List ℕ) (BodyHolds : B → Type 0)
    (body_content : B → List ℕ) where
  -- The state between two reads.
  pub record OnVersion (s : Reading W B) : Type 0 where
    pub key_eq : s.0.key ≡ key
    pub etag_eq : s.0.etag ≡ etag
    pub serving :
        (x : B) → s.0.body ≡ some x → BodyHolds x × (body_content x ≡ drop s.0.offset version)
    pub fallen : s.0.body ≡ none → s.0.last_err ≢ none
    pub last_fails : (e : GoError) → s.0.last_err ≡ some e → same e (sentinel eof) ≡ false
    pub err_fails : (e : GoError) → s.0.err ≡ some e → same e (sentinel eof) ≡ false

  abbrev pub to_come : Reading W B → List ℕ
  to_come s = drop s.0.offset version

  -- What a step of Read comes to from the state `s`: it returns a good read, or has lost its body
  -- without a byte.
  unfoldable pub Stepped :
      Reading W B → ℕ → (List ℕ × Option GoError × Reading W B) ⊎ Reading W B → Type 0
  Stepped s n (inl out) = ReadsPart OnVersion to_come s n out
  Stepped s n (inr lost) = OnVersion lost × (lost.0.body ≡ none) × (to_come lost ≡ to_come s)

  -- What `resume` comes to: an error to keep, or a body for what is to come.
  unfoldable pub Resumes : Reading W B → (GoError ⊎ B) × Reading W B → Type 0
  Resumes s (inl e, s') =
      (same e (sentinel eof) ≡ false)
      × OnVersion (record (s'.0) { err = some e }, s'.1)
      × (to_come s' ≡ to_come s)
  Resumes s (inr x, s') =
      OnVersion s' × BodyHolds x × (body_content x ≡ to_come s') × (to_come s' ≡ to_come s)

module _ {W B : Type 0} {api : Api W B} (c : S3Client) (ctx : Context W) {key etag : Text}
    {version : List ℕ} {BodyHolds : B → Type 0} {body_content : B → List ℕ}
    (honest : ServesVersion api c.bucket key etag version BodyHolds body_content) where
  abbrev pub On : Reading W B → Type 0
  On = OnVersion key etag version BodyHolds body_content

  -- A read that gives only an error.
  pub failing :
      (s s' : Reading W B) (n : ℕ) (e : GoError)
      → On s'
      → to_come key etag version BodyHolds body_content s'
        ≡ to_come key etag version BodyHolds body_content s
      → same e (sentinel eof) ≡ false
      → ReadsPart On (to_come key etag version BodyHolds body_content) s n ([], some e, s')
  failing s s' n e h same_rest fails = record {
    holds = h;
    splits = sym same_rest;
    ends = λ x p q. cc;
    moves = λ p q. cc;
  }

  pub serve_lem :
      (body : B) (s : Reading W B) (n : ℕ)
      → On s
      → BodyHolds body
      → body_content body ≡ drop s.0.offset version
      → Stepped key etag version BodyHolds body_content s n (serve api c ctx body s n)
  unfolding serve Stepped
  serve_lem body (b, w) n h hb rest = go (api.body.read body n).1 refl
    where
      out : List ℕ × Option GoError × B
      out = api.body.read body n

      part : ReadsPart BodyHolds body_content body n out
      part = honest.bodies.reads body n hb

      moved : body_content out.2 ≡ drop (b.offset + length out.0) version
      moved = drop-add b.offset version out.0 (body_content out.2) (sym rest ∙ part.splits)

      splits : drop b.offset version ≡ out.0 ++ drop (b.offset + length out.0) version
      splits = sym rest ∙ part.splits ∙ ap (λ l. out.0 ++ l) moved

      kept : On (record b { offset = b.offset + length out.0; body = some out.2 }, w)
      kept = record {
        key_eq = h.key_eq;
        etag_eq = h.etag_eq;
        serving =
            λ x q. (rw (← some-injective _ _ q) part.holds, rw (← some-injective _ _ q) moved);
        fallen = λ q. cc;
        last_fails = h.last_fails;
        err_fails = h.err_fails;
      }

      dropped :
          (x : GoError) (w' : W)
          → same x (sentinel eof) ≡ false
          → On (record b { offset = b.offset + length out.0; body = none; last_err = some x }, w')
      dropped x w' fails = record {
        key_eq = h.key_eq;
        etag_eq = h.etag_eq;
        serving = λ y q. cc;
        fallen = λ q r. cc;
        last_fails = λ y q. rw (← some-injective _ _ q) fails;
        err_fails = h.err_fails;
      }

      go :
          (e : Option GoError)
          → out.1 ≡ e
          → Stepped key etag version BodyHolds body_content (b, w) n (serve api c ctx body (b, w) n)
      go none q =
          rw (q, serve)
            (record {
              holds = kept;
              splits = splits;
              ends = λ x p. cc;
              moves = λ p r. part.moves p q;
            })
      go (some x) q = elim (Bool-cases (same x (sentinel eof))) [
        | inl last ↦
            rw (q, serve)
              (rw (last, serve)
                (record {
                  holds = kept;
                  splits = splits;
                  ends = λ y p r. sym moved ∙ part.ends x q last;
                  moves = λ p r. cc;
                }))
        | inr fails ↦
            rw (q, serve)
              (rw (fails, serve)
                (elim (Bool-cases (ltb 0 (length out.0))) [
                  | inl some_bytes ↦ rw some_bytes (record {
                    holds = dropped x _ fails;
                    splits = splits;
                    ends = λ y p. cc;
                    moves = λ p r. ground arith;
                  })
                  | inr nothing ↦
                      rw nothing (dropped x _ fails, refl, ap (λ k. drop k version) (ground arith))
                ]))
      ]

  -- An error that every later read returns.
  pub kept_error :
      (s : Reading W B) (w : W) (e : GoError)
      → On s
      → same e (sentinel eof) ≡ false
      → On (record (s.0) { err = some e }, w)
  kept_error s w e h fails = record {
    key_eq = h.key_eq;
    etag_eq = h.etag_eq;
    serving = h.serving;
    fallen = h.fallen;
    last_fails = h.last_fails;
    err_fails = λ x q. rw (← some-injective _ _ q) fails;
  }

  pub resume_lem :
      (s : Reading W B)
      → On s
      → Resumes key etag version BodyHolds body_content s (resume api c ctx s)
  unfolding resume resumed Resumes same
  resume_lem (b, w) h =
      go (api.get_object ctx c.bucket b.key (some (range_from b.offset)) (some b.etag) w).0 refl
    where
      asked :
          (a : Answer B)
          → (api.get_object ctx c.bucket b.key (some (range_from b.offset)) (some b.etag) w).0
            ≡ inr a
          → has_prefix (to_string a.content_range) (range_prefix b.offset) ≡ true
          → BodyHolds a.body × (body_content a.body ≡ drop b.offset version)
      asked a q p = honest.ranged ctx b.offset w a (rw (← h.key_eq, ← h.etag_eq) q) p

      given :
          (a : Answer B) (w' : W)
          → BodyHolds a.body × (body_content a.body ≡ drop b.offset version)
          → On (record b { body = some a.body }, w')
      given a w' k = record {
        key_eq = h.key_eq;
        etag_eq = h.etag_eq;
        serving = λ x q. (rw (← some-injective _ _ q) k.0, rw (← some-injective _ _ q) k.1);
        fallen = λ q. cc;
        last_fails = h.last_fails;
        err_fails = h.err_fails;
      }

      go :
          (out : GoError ⊎ Answer B)
          → (api.get_object ctx c.bucket b.key (some (range_from b.offset)) (some b.etag) w).0 ≡ out
          → Resumes key etag version BodyHolds body_content (b, w) (resume api c ctx (b, w))
      go (inl e) q = rw (q, resume) (refl, kept_error (b, w) _ _ h refl, refl)
      go (inr a) q =
          elim (Bool-cases (has_prefix (to_string a.content_range) (range_prefix b.offset))) [
            | inl right ↦
                rw (q, resume)
                  (rw (right, resumed)
                    (given a _ (asked a q right), (asked a q right).0, (asked a q right).1, refl))
            | inr wrong ↦
                rw (q, resume) (rw (wrong, resumed) (refl, kept_error (b, w) _ _ h refl, refl))
          ]
