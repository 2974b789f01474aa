-- ===== src/S3/Resume/Whole.antt =====
-- s3/objects.go: what reading the body of a `Get` to its end gives.
use mathlib.Core.Option.{some-injective}
use go_storage.Prelude.{
  ℕ, ◌<◌, ◌≡◌, refl, sym, ap, ◌∙◌, false, Option, none, some, Bool-cases, List, [], ◌++◌, length,
  inl, inr, arith,
}
use mathlib.Core.List.{append-nil}
use go_storage.Prelude.Text.{Text}
use go_storage.Errors.{GoError, sentinel, eof, same}
use go_storage.Stream.{read_all}
use go_storage.Stream.Partial.{ReadsPart, IsPartial, read_front}
use go_storage.Storage.{Context}
use go_storage.S3.Api.{Answer, Api, to_string}
use go_storage.S3.Errors.{classify, classify-Classifies}
use go_storage.S3.Keys.{validate_key}
use go_storage.S3.Put.{S3Client}
use go_storage.S3.Resume.{
  ResumingBody, Reading, read_resuming, read_classified, classified_body, size_of, opened, get,
}
use go_storage.S3.Resume.Version.{ServesVersion, to_come}
use go_storage.S3.Resume.Reads.{Holding, rest_of, read_resuming_lem}

-- No classification makes io.EOF of another error.
classify_fails :
    (e : GoError) → same e (sentinel eof) ≡ false → same (classify e) (sentinel eof) ≡ false
unfolding same
classify_fails e fails = elim (classify-Classifies e) [
  | inl same_error ↦ rw same_error fails
  | inr (s, k, made) ↦ rw made refl
]

-- What the body of a Get comes to once io.ReadAll has read it.
pub record GetRead {W B : Type 0} (api : Api W B) (c : S3Client) (ctx : Context W) (key : Text)
    (version : List ℕ) (fuel : ℕ) (b : ResumingBody B) (w : W) : Type 0 where
  pub bytes : List ℕ
  pub rest : List ℕ
  pub err : Option GoError
  pub next : Reading W B
  pub result : read_all (classified_body api c ctx) fuel [] (b, w) ≡ some (bytes, err, next)
  pub front : version ≡ bytes ++ rest
  pub whole : err ≡ none → bytes ≡ version

module _ {W B : Type 0} {api : Api W B} (c : S3Client) (ctx : Context W) {key etag : Text}
    {version : List ℕ} {BodyHolds : B → Type 0} {body_content : B → List ℕ}
    (honest : ServesVersion api c.bucket key etag version BodyHolds body_content) where
  read_classified_lem :
      (s : Reading W B) (n : ℕ)
      → Holding c ctx honest s
      → ReadsPart (Holding c ctx honest) (rest_of c ctx honest) s n (read_classified api c ctx s n)
  unfolding read_classified
  read_classified_lem s n h = go (read_resuming api c ctx s n).1 refl
    where
      w : ReadsPart (Holding c ctx honest) (rest_of c ctx honest) s n (read_resuming api c ctx s n)
      w = read_resuming_lem c ctx honest s n h

      go :
          (e : Option GoError)
          → (read_resuming api c ctx s n).1 ≡ e
          → ReadsPart
              (Holding c ctx honest)
              (rest_of c ctx honest)
              s
              n
              (read_classified api c ctx s n)
      go none q =
          rw (q, read_classified)
            (record {
              holds = w.holds;
              splits = w.splits;
              ends = λ x p. cc;
              moves = λ p r. w.moves p q;
            })
      go (some x) q = elim (Bool-cases (same x (sentinel eof))) [
        | inl last ↦
            rw (q, read_classified)
              (rw (last, read_classified)
                (record {
                  holds = w.holds;
                  splits = w.splits;
                  ends = λ y p r. w.ends x q last;
                  moves = λ p r. cc;
                }))
        | inr fails ↦
            rw (q, read_classified)
              (rw (fails, read_classified)
                (record {
                  holds = w.holds;
                  splits = w.splits;
                  ends = λ y p r. absurd (ground (arith, classify_fails x fails, p, r));
                  moves = λ p r. cc;
                }))
      ]

  classified-IsPartial :
      IsPartial (classified_body api c ctx) (Holding c ctx honest) (rest_of c ctx honest)
  classified-IsPartial = record { reads = λ s n h. read_classified_lem s n h }

  read_on :
      (fuel : ℕ) (b : ResumingBody B) (w : W)
      → Holding c ctx honest (b, w)
      → b.offset ≡ 0
      → length version < fuel
      → GetRead api c ctx key version fuel b w
  read_on fuel b w h start lt =
      let f = read_front classified-IsPartial fuel [] (b, w) h (rw start lt) in
      record {
        bytes = f.bytes;
        rest = rest_of c ctx honest f.next;
        err = f.err;
        next = f.next;
        result = f.result;
        front = whole_of f.splits;
        whole = λ q.
            sym (append-nil f.bytes)
            ∙ ap (λ r. f.bytes ++ r) (sym (f.whole q))
            ∙ sym (whole_of f.splits);
      }
    where
      whole_of : {l : List ℕ} → rest_of c ctx honest (b, w) ≡ l → version ≡ l
      whole_of q =
          sym (
            ap (λ k. to_come key etag version BodyHolds body_content (record b { offset = k }, w))
              start)
          ∙ q

  -- A Get that the service answers with a body of the version has no error, and reading its body to
  -- the end ends, whatever reads and resumptions fail, with a front part of that version, and with
  -- all of it where the reading gives no error.
  pub read_all-get :
      (fuel : ℕ) (w : W) (a : Answer B)
      → validate_key key ≡ none
      → (api.get_object ctx c.bucket key none none w).0 ≡ inr a
      → to_string a.head.etag ≡ etag
      → BodyHolds a.body
      → body_content a.body ≡ version
      → length version < fuel
      → ((get api c ctx key w).1 ≡ none)
        × ((b : ResumingBody B) × ((get api c ctx key w).0.body ≡ some b)
            × GetRead api c ctx key version fuel b (get api c ctx key w).2)
  unfolding get opened
  read_all-get fuel w a ok answered tagged hb full lt =
      rw (ok, get) (rw answered (refl, (first, refl, read_on fuel first _ fresh refl lt)))
    where
      first : ResumingBody B
      first = record {
        key = key;
        etag = to_string a.head.etag;
        size = size_of a.head.content_length;
        retries = c.read_retries;
        offset = 0;
        last_err = none;
        err = none;
        closed = false;
        body = some a.body;
      }

      fresh : Holding c ctx honest (first, (api.get_object ctx c.bucket key none none w).1)
      fresh = record {
        key_eq = refl;
        etag_eq = tagged;
        serving = λ x q. (rw (← some-injective _ _ q) hb, rw (← some-injective _ _ q) full);
        fallen = λ q. cc;
        last_fails = λ e q. cc;
        err_fails = λ e q. cc;
      }
